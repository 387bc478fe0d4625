-- ===== src/Server/Routes/Admitted.antt =====
-- What the handlers check before they write, and what therefore stands in the tables.
use hopskip.Base.{
  ◌≡◌, refl, true, Option, List, [], Bool-cases, inl, inr, ◌==◌, eq_iff, nat_eq, bytes_eq, pair_eq,
  ℤ, int_eq, All, All-append, All-keep,
}
use hopskip.Text.{Bytes}
use hopskip.Store.Rows.{delete_where, has}
use hopskip.Store.Rows.Every.{All-upsert}
use hopskip.Store.Tables.{Tables, HostRow, TagRow, FactRow, Credential, Setting, Knowledge}
use hopskip.Store.Db.Keeps.{Keeps, Keeps-exec}
use hopskip.Store.Hosts.Every.{
  add_host-Holds, update_host-Holds, delete_host-Holds, tag_host-Holds, delete_tag-Holds,
}
use hopskip.Store.Hosts.Integrity.{Leaves-if}
use hopskip.Store.Sessions.{session_id, create_session, close_session, dangling}
use hopskip.Store.Credentials.{with_credentials, relabel}
use hopskip.Store.Credentials.Frame.{
  add_llm_credential-Keeps, update_llm_credential-Keeps, delete_llm_credential-Keeps,
  set_active_llm_credential-Keeps,
}
use hopskip.Store.Chats.{chat_id, create_chat, rename_chat, delete_chat}
use hopskip.Store.Settings.{setting_key, set_setting, add_knowledge, delete_knowledge}
use hopskip.Store.Web.{delete_web_file}
use hopskip.Server.Credentials.{is_provider}
use hopskip.Server.Keeping.{IsFilled, Accepts, Methods}
use hopskip.Server.Routes.{Call, Daemon, serve_all}
use hopskip.Server.Routes.Keeping.{serve_all-Has}

abbrev IsNamed : HostRow → Type 0
IsNamed h = IsFilled h.name

-- A credential of a provider that the agent knows, with a token.
abbrev IsUsable : Credential → Type 0
IsUsable c = (is_provider c.provider ≡ true) × IsFilled c.token

abbrev IsAccepted : Setting → Type 0
IsAccepted s = Accepts s.key s.value

abbrev IsWritten : Knowledge → Type 0
IsWritten k = IsFilled k.text

-- The rows that the handlers would admit.
pub record IsAdmitted (t : Tables) : Type 0 where
  pub hosts : All IsNamed t.hosts
  pub credentials : All IsUsable t.llm_credentials
  pub settings : All IsAccepted t.app_settings
  pub knowledge : All IsWritten t.knowledge

-- Another table is changed.
elsewhere :
    (t u : Tables)
    → u.hosts ≡ t.hosts
    → u.llm_credentials ≡ t.llm_credentials
    → u.app_settings ≡ t.app_settings
    → u.knowledge ≡ t.knowledge
    → IsAdmitted t
    → IsAdmitted u
elsewhere t u hosts credentials settings knowledge v = record {
  hosts = rw hosts v.hosts;
  credentials = rw credentials v.credentials;
  settings = rw settings v.settings;
  knowledge = rw knowledge v.knowledge;
}

with_rows :
    (t : Tables) (hs : List HostRow) (tags : List TagRow) (facts : List FactRow)
    → All IsNamed hs
    → IsAdmitted t
    → IsAdmitted (record t { hosts = hs; host_tags = tags; host_facts = facts })
with_rows t hs tags facts h v = record {
  hosts = h;
  credentials = v.credentials;
  settings = v.settings;
  knowledge = v.knowledge;
}

named : (t : Tables) → IsAdmitted t → All IsNamed t.hosts
named t v = v.hosts

create_session-IsAdmitted :
    (now id : Bytes) (host_id : Option ℤ) (tmux_name label : Bytes)
    → Keeps IsAdmitted (create_session now id host_id tmux_name label)
unfolding create_session
create_session-IsAdmitted now id host_id tmux_name label = Keeps-exec _ λ t v.
    Leaves-if IsAdmitted (has session_id id t.sessions) _ _ (λ _. tt)
      λ _.
        Leaves-if IsAdmitted (dangling host_id t) _ _ (λ _. tt)
          λ _. elsewhere t _ refl refl refl refl v

create_chat-IsAdmitted : (now id : Bytes) → Keeps IsAdmitted (create_chat now id)
unfolding create_chat
create_chat-IsAdmitted now id = Keeps-exec _ λ t v.
    Leaves-if IsAdmitted (has chat_id id t.chats) _ _ (λ _. tt)
      λ _. elsewhere t _ refl refl refl refl v

relabelled :
    (label model token : Bytes) (c : Credential)
    → IsUsable c
    → IsUsable (relabel label model token c)
relabelled label model token c (known, filled) = elim (Bool-cases (token == [])) [
  | inl e ↦ rw (relabel, e) (known, filled)
  | inr e ↦ rw (relabel, e) (known, e)
]

set_setting-IsAdmitted :
    (key value : Bytes) → Accepts key value → Keeps IsAdmitted (set_setting key value)
unfolding set_setting
set_setting-IsAdmitted key value accepted = Keeps-exec _ λ t v. record {
  hosts = v.hosts;
  credentials = v.credentials;
  settings =
      All-upsert IsAccepted setting_key key _ _
        (λ s e _. let same : s.key ≡ key = (eq_iff s.key key).0 e in rw same accepted) accepted
        t.app_settings v.settings;
  knowledge = v.knowledge;
}

add_knowledge-IsAdmitted :
    (now text : Bytes) → IsFilled text → Keeps IsAdmitted (add_knowledge now text)
unfolding add_knowledge
add_knowledge-IsAdmitted now text filled = Keeps-exec _ λ t v. record {
  hosts = v.hosts;
  credentials = v.credentials;
  settings = v.settings;
  knowledge = All-append IsWritten t.knowledge _ v.knowledge (filled, tt);
}

delete_knowledge-IsAdmitted : (id : ℤ) → Keeps IsAdmitted (delete_knowledge id)
unfolding delete_knowledge delete_where
delete_knowledge-IsAdmitted id = Keeps-exec _ λ t v. record {
  hosts = v.hosts;
  credentials = v.credentials;
  settings = v.settings;
  knowledge = All-keep IsWritten _ t.knowledge v.knowledge;
}

usable : (t : Tables) → IsAdmitted t → All IsUsable t.llm_credentials
usable t v = v.credentials

with_usable :
    (t : Tables) (cs : List Credential)
    → All IsUsable cs
    → IsAdmitted t
    → IsAdmitted (with_credentials t cs)
with_usable t cs h v = record {
  hosts = v.hosts;
  credentials = h;
  settings = v.settings;
  knowledge = v.knowledge;
}

checked_methods : Methods IsAdmitted
unfolding close_session rename_chat delete_chat delete_web_file
checked_methods = record {
  adds =
      λ now name notes filled. add_host-Holds IsNamed named with_rows now name notes λ id. filled;
  updates =
      λ id name notes filled. update_host-Holds IsNamed named with_rows id name notes λ h _. filled;
  deletes = delete_host-Holds IsNamed named with_rows;
  tags = tag_host-Holds IsNamed named with_rows;
  untags = delete_tag-Holds IsNamed named with_rows;
  opens = create_session-IsAdmitted;
  ends = λ now id. Keeps-exec _ λ t v. elsewhere t _ refl refl refl refl v;
  adds_cred = λ now label provider token model known filled.
      add_llm_credential-Keeps IsUsable usable with_usable (λ b c h. h) now label provider token
        model (λ id active. (known, filled));
  updates_cred = λ id label model token.
      update_llm_credential-Keeps IsUsable usable with_usable (λ b c h. h) id label model token
        (relabelled label model token);
  deletes_cred = delete_llm_credential-Keeps IsUsable usable with_usable λ b c h. h;
  activates = set_active_llm_credential-Keeps IsUsable usable with_usable λ b c h. h;
  creates_chat = create_chat-IsAdmitted;
  renames_chat = λ id title. Keeps-exec _ λ t v. elsewhere t _ refl refl refl refl v;
  deletes_chat = λ id. Keeps-exec _ λ t v. elsewhere t _ refl refl refl refl v;
  sets = set_setting-IsAdmitted;
  learns = add_knowledge-IsAdmitted;
  unlearns = delete_knowledge-IsAdmitted;
  drops = λ path. Keeps-exec _ λ t v. elsewhere t _ refl refl refl refl v;
}

-- Where each host has a name, each credential a known provider and a token, each setting a known key
-- with a blank value or one that its definition accepts, and each remembered fact a text, the same
-- holds after any requests of the API but those that type keys, whatever they carry and whichever
-- statements the driver and writes the disk fails.
pub serve_all-IsAdmitted :
    (absolute : Bytes → Option Bytes) (join_path : Bytes → Bytes → Bytes)
    (embedded : Bytes → Option Bytes) (cs : List Call) (d : Daemon)
    → IsAdmitted d.manager.db.tables
    → IsAdmitted (serve_all absolute join_path embedded cs d).manager.db.tables
serve_all-IsAdmitted absolute join_path embedded cs d v =
    serve_all-Has checked_methods absolute join_path embedded cs d v
