-- ===== src/Server/Keeping.antt =====
-- What the handlers of internal/server keep, by what the methods of the store keep.
pub mod Others
use hopskip.Base.{
  ◌≡◌, refl, ◌||◌, not, Bool, true, false, Option, none, some, List, [], ◌∷◌, find, All,
  if◌then◌else◌, ◌==◌, nat_eq, bytes_eq, pair_eq, ℤ, int_eq,
}
use hopskip.Text.{Bytes, codes}
use hopskip.Text.Trim.{trim_space}
use hopskip.Store.Tables.{
  Tables, Error, not_found, unique_violation, foreign_key_violation, driver_failure, message,
}
use hopskip.Base.{ℕ}
use hopskip.Store.Db.{Result, ok, err, M, pure, ◌>>=◌}
use hopskip.Store.Db.Keeps.{
  Keeps, Keeps-query, Keeps-bind, Keeps-pure, Keeps-fail, Keeps-if, Keeps-catch,
}
use hopskip.Store.Hosts.{Host, get_host, add_host, update_host, delete_host, tag_host, delete_tag}
use hopskip.Store.Hosts.Reads.{list_hosts-Keeps, get_host-Keeps}
use hopskip.Store.Sessions.{create_session, close_session}
use hopskip.Store.Credentials.{
  add_llm_credential, update_llm_credential, delete_llm_credential, set_active_llm_credential,
}
use hopskip.Store.Chats.{create_chat, rename_chat, delete_chat}
use hopskip.Store.Settings.{get_setting, set_setting, add_knowledge, delete_knowledge}
use hopskip.Store.Web.{delete_web_file}
use hopskip.Agent.Limits.{atoi}
use hopskip.Server.Api.{
  Reply, Body, write_json, internal_error, by_result, attempt, with_body, with_id, with_number,
}
use hopskip.Server.Credentials.{is_provider}
use hopskip.Server.Settings.{SettingDef, has_setting_key, setting_defs}
use hopskip.Server.Hosts.{
  AddHostReq, UpdateHostReq, host_refused, host_missing, quietly, tag_unless_blank, tag_entry,
  tag_each, tag_all, added_host, retag, retag_all, updated_host, revised_host, trimmed_or,
  handle_add_host, handle_get_host, handle_update_host, handle_delete_host,
}

abbrev pub IsFilled : Bytes → Type 0
IsFilled text = (text == []) ≡ false

-- A key of a known setting, with a blank value or one that its definition does not refuse.
abbrev pub Accepts : (key value : Bytes) → Type 0
Accepts key value =
    (d : SettingDef) × (find (has_setting_key key) setting_defs ≡ some d)
    × ((if value == [] then none else d.refusal value) ≡ none)

-- Each method of the store that a handler calls to change rows keeps the property, where the handler
-- has checked what it is called with.
pub record Methods (P : Tables → Type 0) : Type 0 where
  pub adds : (now name notes : Bytes) → IsFilled name → Keeps P (add_host now name notes)
  pub updates : (id : ℤ) (name notes : Bytes) → IsFilled name → Keeps P (update_host id name notes)
  pub deletes : (id : ℤ) → Keeps P (delete_host id)
  pub tags : (id : ℤ) (key value : Bytes) → Keeps P (tag_host id key value)
  pub untags : (id : ℤ) (key : Bytes) → Keeps P (delete_tag id key)
  pub opens :
      (now id : Bytes) (host_id : Option ℤ) (tmux_name label : Bytes)
      → Keeps P (create_session now id host_id tmux_name label)
  pub ends : (now id : Bytes) → Keeps P (close_session now id)
  pub adds_cred :
      (now label provider token model : Bytes)
      → is_provider provider ≡ true
      → IsFilled token
      → Keeps P (add_llm_credential now label provider token model)
  pub updates_cred :
      (id : ℤ) (label model token : Bytes) → Keeps P (update_llm_credential id label model token)
  pub deletes_cred : (id : ℤ) → Keeps P (delete_llm_credential id)
  pub activates : (id : ℤ) → Keeps P (set_active_llm_credential id)
  pub creates_chat : (now id : Bytes) → Keeps P (create_chat now id)
  pub renames_chat : (id title : Bytes) → Keeps P (rename_chat id title)
  pub deletes_chat : (id : Bytes) → Keeps P (delete_chat id)
  pub sets : (key value : Bytes) → Accepts key value → Keeps P (set_setting key value)
  pub learns : (now text : Bytes) → IsFilled text → Keeps P (add_knowledge now text)
  pub unlearns : (id : ℤ) → Keeps P (delete_knowledge id)
  pub drops : (path : Bytes) → Keeps P (delete_web_file path)

module _ {P : Tables → Type 0} where
  write_json-Keeps : (code : ℕ) (body : Body) → Keeps P (write_json code body)
  write_json-Keeps code body = Keeps-pure _

  internal_error-Keeps : (e : Error) → Keeps P (internal_error e)
  internal_error-Keeps e = Keeps-pure _

  by_result-Keeps :
      {A : Type 0} (r : Result A) (f : Error → M Reply) (g : A → M Reply)
      → ((e : Error) → Keeps P (f e))
      → ((a : A) → Keeps P (g a))
      → Keeps P (by_result r f g)
  by_result-Keeps (ok a) f g hf hg = hg a
  by_result-Keeps (err e) f g hf hg = hf e

  pub attempt-Keeps :
      {A : Type 0} (m : M A) (f : Error → M Reply) (g : A → M Reply)
      → Keeps P m
      → ((e : Error) → Keeps P (f e))
      → ((a : A) → Keeps P (g a))
      → Keeps P (attempt m f g)
  attempt-Keeps m f g h hf hg = Keeps-bind _ _ (Keeps-catch m h) λ r. by_result-Keeps r f g hf hg

  -- An error that is reported as it is, and a reply.
  pub attempt_or_500-Keeps :
      {A : Type 0} (m : M A) (code : ℕ) (body : A → Body)
      → Keeps P m
      → Keeps P (attempt m internal_error (λ a. write_json code (body a)))
  attempt_or_500-Keeps m code body h = attempt-Keeps m _ _ h internal_error-Keeps λ a. Keeps-pure _

  pub with_body-Keeps :
      {B : Type 0} (body : Option B) (f : B → M Reply)
      → ((b : B) → Keeps P (f b))
      → Keeps P (with_body body f)
  with_body-Keeps none f h = Keeps-pure _
  with_body-Keeps (some b) f h = h b

  with_number-Keeps :
      (o : Option ℤ) (f : ℤ → M Reply) → ((id : ℤ) → Keeps P (f id)) → Keeps P (with_number o f)
  with_number-Keeps none f h = Keeps-pure _
  with_number-Keeps (some id) f h = h id

  pub with_id-Keeps :
      (text : Bytes) (f : ℤ → M Reply) → ((id : ℤ) → Keeps P (f id)) → Keeps P (with_id text f)
  with_id-Keeps text f h = with_number-Keeps (atoi text) f h

  -- Either branch of a test.
  pub either-Keeps :
      {A : Type 0} (b : Bool) (first second : M A)
      → Keeps P first
      → Keeps P second
      → Keeps P (if b then first else second)
  either-Keeps b first second h k = Keeps-if b first second (λ _. h) (λ _. k)

  host_refused-Keeps : (name : Bytes) (e : Error) → Keeps P (host_refused name e)
  host_refused-Keeps name unique_violation = Keeps-pure _
  host_refused-Keeps name not_found = Keeps-pure _
  host_refused-Keeps name foreign_key_violation = Keeps-pure _
  host_refused-Keeps name driver_failure = Keeps-pure _
  host_refused-Keeps name (message text) = Keeps-pure _

  host_missing-Keeps : (e : Error) → Keeps P (host_missing e)
  host_missing-Keeps not_found = Keeps-pure _
  host_missing-Keeps unique_violation = Keeps-pure _
  host_missing-Keeps foreign_key_violation = Keeps-pure _
  host_missing-Keeps driver_failure = Keeps-pure _
  host_missing-Keeps (message text) = Keeps-pure _

  pub quietly-Keeps : (m : M Unit) → Keeps P m → Keeps P (quietly m)
  quietly-Keeps m h = Keeps-bind _ _ (Keeps-catch m h) λ r. Keeps-pure tt

  pub get_setting-Keeps :
      {A : Type 0} (key : Bytes) (f : Option Bytes → A)
      → Keeps P (get_setting key >>= (λ found. pure (f found)))
  unfolding get_setting
  get_setting-Keeps key f =
      Keeps-bind _ _ (Keeps-bind _ _ (Keeps-catch _ (Keeps-query _)) λ r. Keeps-pure _)
        λ found. Keeps-pure _

module _ {P : Tables → Type 0} (o : Methods P) where
  tag_unless_blank-Keeps : (id : ℤ) (key value : Bytes) → Keeps P (tag_unless_blank id key value)
  unfolding tag_unless_blank
  tag_unless_blank-Keeps id key value =
      either-Keeps (trim_space value == []) _ _ (Keeps-pure tt)
        (quietly-Keeps _ (o.tags id key (trim_space value)))

  tag_entry-Keeps : (id : ℤ) (key value : Bytes) → Keeps P (tag_entry id key value)
  unfolding tag_entry
  tag_entry-Keeps id key value =
      either-Keeps (trim_space key == []) _ _ (Keeps-pure tt)
        (quietly-Keeps _ (o.tags id (trim_space key) value))

  tag_each-Keeps : (id : ℤ) (entries : List (Bytes × Bytes)) → Keeps P (tag_each id entries)
  unfolding tag_each
  tag_each-Keeps id [] = Keeps-pure tt
  tag_each-Keeps id ((key, value) ∷ entries) =
      Keeps-bind _ _ (tag_entry-Keeps id key value) λ u. tag_each-Keeps id entries

  added_host-Keeps : (req : AddHostReq) (id : ℤ) → Keeps P (added_host req id)
  unfolding added_host tag_all
  added_host-Keeps req id =
      Keeps-bind _ _
        (Keeps-bind _ _
          (Keeps-bind _ _
            (Keeps-bind _ _ (tag_unless_blank-Keeps id _ req.ssh)
              λ u. tag_unless_blank-Keeps id _ req.via)
            λ u. tag_unless_blank-Keeps id _ req.provider)
          λ u. tag_each-Keeps id req.tags)
        λ u. attempt_or_500-Keeps _ _ _ (get_host-Keeps id)

  pub handle_add_host-Keeps :
      (now : Bytes) (body : Option AddHostReq) → Keeps P (handle_add_host now body)
  unfolding handle_add_host
  handle_add_host-Keeps now body = with_body-Keeps body _ λ req.
      Keeps-if (trim_space req.name == []) _ _ (λ _. Keeps-pure _)
        λ named.
          attempt-Keeps _ _ _ (o.adds now (trim_space req.name) (trim_space req.notes) named)
            (host_refused-Keeps (trim_space req.name)) (added_host-Keeps req)

  pub handle_get_host-Keeps : (text : Bytes) → Keeps P (handle_get_host text)
  unfolding handle_get_host
  handle_get_host-Keeps text =
      with_id-Keeps text _
        λ id. attempt-Keeps _ _ _ (get_host-Keeps id) host_missing-Keeps λ host. Keeps-pure _

  retag-Keeps : (id : ℤ) (key : Bytes) (value : Option Bytes) → Keeps P (retag id key value)
  unfolding retag
  retag-Keeps id key none = Keeps-pure tt
  retag-Keeps id key (some value) =
      either-Keeps (trim_space value == []) _ _ (quietly-Keeps _ (o.untags id key))
        (quietly-Keeps _ (o.tags id key (trim_space value)))

  updated_host-Keeps : (id : ℤ) (req : UpdateHostReq) → Keeps P (updated_host id req)
  unfolding updated_host retag_all
  updated_host-Keeps id req =
      Keeps-bind _ _
        (Keeps-bind _ _ (Keeps-bind _ _ (retag-Keeps id _ req.ssh) λ u. retag-Keeps id _ req.via)
          λ u. retag-Keeps id _ req.provider)
        λ u. attempt_or_500-Keeps _ _ _ (get_host-Keeps id)

  revised_host-Keeps :
      (id : ℤ) (body : Option UpdateHostReq) (host : Host) → Keeps P (revised_host id body host)
  unfolding revised_host
  revised_host-Keeps id body host = with_body-Keeps body _ λ req.
      let name = trimmed_or req.name host.name in
      let notes = trimmed_or req.notes host.notes in
      Keeps-if (name == []) _ _ (λ _. Keeps-pure _)
        λ named.
          attempt-Keeps _ _ _ (o.updates id name notes named) (host_refused-Keeps name)
            λ u. updated_host-Keeps id req

  pub handle_update_host-Keeps :
      (text : Bytes) (body : Option UpdateHostReq) → Keeps P (handle_update_host text body)
  unfolding handle_update_host
  handle_update_host-Keeps text body =
      with_id-Keeps text _ λ id.
        attempt-Keeps _ _ _ (get_host-Keeps id) host_missing-Keeps (revised_host-Keeps id body)

  pub handle_delete_host-Keeps : (text : Bytes) → Keeps P (handle_delete_host text)
  unfolding handle_delete_host
  handle_delete_host-Keeps text =
      with_id-Keeps text _
        λ id. attempt-Keeps _ _ _ (o.deletes id) host_missing-Keeps λ u. Keeps-pure _
