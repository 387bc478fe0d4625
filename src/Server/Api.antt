-- ===== src/Server/Api.antt =====
-- internal/server/server.go: replies of the HTTP API, and what every handler does with a body that is
-- not JSON, a path whose id is no number, and an error of the store. A body of JSON is an argument,
-- none where it does not decode.
use hopskip.Base.{ℕ, ℤ, Bool, Option, none, some, List}
use hopskip.Text.{Bytes, codes}
use hopskip.Store.Tables.{Error, Session, ChatMeta, Knowledge, Extension}
use hopskip.Store.Db.{Result, ok, err, M, pure, catch, ◌>>=◌}
use hopskip.Store.Hosts.{Host}
use hopskip.Store.Chats.{ChatMessage}
use hopskip.Store.Web.{WebFile}
use hopskip.Agent.Limits.{atoi}
use hopskip.Session.Sending.{Sent}

-- A credential as `credView` shows it.
pub record CredView : Type 0 where
  pub id : ℤ
  pub label : Bytes
  pub provider : Bytes
  pub model : Bytes
  pub active : Bool
  pub token_masked : Bytes
  pub created_at : Bytes

-- A setting as the list shows it, less its fixed texts.
pub record SettingView : Type 0 where
  pub key : Bytes
  pub value : Bytes
  pub is_set : Bool
  pub default : Bytes
  pub effective : Bytes

-- An authored file in the list of changes; `base_size` is none where the base has no such file.
pub record FileChange : Type 0 where
  pub file : WebFile
  pub base_size : Option ℕ

-- The JSON that a handler writes: `refusal` is an error with a text of its own, `failure` one with
-- the text of an error of the store, `os_failure` one with that of an error of the operating system.
pub data Body : Type 0 where
  refusal : Bytes → Body
  failure : Error → Body
  os_failure : Body
  confirmed : Body
  identified : ℤ → Body
  host : Host → Body
  hosts : List Host → Body
  session : Session → Body
  sessions : List Session → Body
  session_state : (id : Bytes) (opened remote : Bool) → Body
  session_closed : Bytes → Body
  keys_sent : Bytes → Sent → Body
  extensions : List Extension → Body
  status : (configured : Bool) (scrollback : ℕ) (active : Option (Bytes × Bytes)) → Body
  credentials : List CredView → Body
  chat_created : Bytes → Body
  chats : List ChatMeta → Body
  messages : List ChatMessage → Body
  settings : List SettingView → Body
  providers : List Bytes → Body
  knowledge : List Knowledge → Body
  web_changes : List FileChange → List Extension → Body
  web_content : (path layer content : Bytes) (absent : Bool) → Body
  exported : (dir : Bytes) (count : ℕ) → Body

pub record Reply : Type 0 where
  pub code : ℕ
  pub body : Body

-- `writeJSON`
abbrev pub write_json : ℕ → Body → M Reply
write_json code body = pure (record { code = code; body = body })

-- `writeErr`
abbrev pub write_err : ℕ → Bytes → M Reply
write_err code text = write_json code (Body.refusal text)

-- `writeErr` of a status 500 with the text of the error.
abbrev pub internal_error : Error → M Reply
internal_error e = write_json 500 (Body.failure e)

abbrev pub by_result : {A : Type 0} → Result A → (Error → M Reply) → (A → M Reply) → M Reply
by_result (ok a) f g = g a
by_result (err e) f g = f e

-- `if err != nil { … return }`
abbrev pub attempt : {A : Type 0} → M A → (Error → M Reply) → (A → M Reply) → M Reply
attempt m f g = catch m >>= λ r. by_result r f g

abbrev pub with_body : {B : Type 0} → Option B → (B → M Reply) → M Reply
with_body none f = write_err 400 (codes "bad json")
with_body (some b) f = f b

abbrev pub with_number : Option ℤ → (ℤ → M Reply) → M Reply
with_number none f = write_err 400 (codes "bad id")
with_number (some id) f = f id

-- `strconv.ParseInt(r.PathValue("id"), 10, 64)`
abbrev pub with_id : Bytes → (ℤ → M Reply) → M Reply
with_id text f = with_number (atoi text) f
