-- ===== src/Server/Replies/Others.antt =====
-- The handlers of the credentials, the chats, what is remembered and the frontend.
use hopskip.Base.{refl, not, Option, none, some, [], ◌==◌, nat_eq, bytes_eq, pair_eq, int_eq}
use hopskip.Text.{Bytes, codes}
use hopskip.Text.Trim.{trim_space}
use hopskip.Store.Tables.{
  Error, not_found, unique_violation, foreign_key_violation, driver_failure, message,
}
use hopskip.Store.Db.Failing.{Reads}
use hopskip.Store.Db.Keeps.{Keeps-query, Keeps-bind, Keeps-catch, Keeps-pure}
use hopskip.Store.Credentials.Failing.{set_active_llm_credential-Atomic}
use hopskip.Store.Web.{get_web_file, normalize_web_path}
use hopskip.Server.Credentials.{
  CredReq, is_provider, credential_missing, handle_list_creds, handle_add_cred, handle_update_cred,
  handle_delete_cred, handle_activate_cred,
}
use hopskip.Server.Chats.{
  handle_list_chats, handle_create_chat, handle_rename_chat, handle_chat_messages,
  handle_list_knowledge, handle_add_knowledge, handle_delete_knowledge,
}
use hopskip.Server.Web.{
  handle_list_extensions, handle_web_changes, handle_web_content, content_at_key, overlay_content,
  base_content,
}
use hopskip.Server.Replies.{
  Settles, Succeeds, write_json-Accepts, write_json-Settles, internal_error-Accepts,
  internal_error-Settles, attempt-Accepts, attempt_change-Settles, attempt_or_500-Settles,
  bind-Settles, pure-Succeeds, bind-Succeeds, catch-Succeeds, if-Settles, with_body-Settles,
  with_id-Settles,
}

credential_missing-Settles : (e : Error) → Settles (credential_missing e)
credential_missing-Settles not_found = write_json-Settles _ _ refl
credential_missing-Settles unique_violation = internal_error-Settles _
credential_missing-Settles foreign_key_violation = internal_error-Settles _
credential_missing-Settles driver_failure = internal_error-Settles _
credential_missing-Settles (message text) = internal_error-Settles _

pub handle_list_creds-Settles : Settles handle_list_creds
unfolding handle_list_creds
handle_list_creds-Settles = attempt_or_500-Settles _ _ λ cs. write_json-Accepts _ _ refl

pub handle_add_cred-Settles :
    (now : Bytes) (body : Option CredReq) → Settles (handle_add_cred now body)
unfolding handle_add_cred
handle_add_cred-Settles now body = with_body-Settles body _ λ req.
    if-Settles (not (is_provider (trim_space req.provider))) _ _ (write_json-Settles _ _ refl) (
      if-Settles (trim_space req.token == []) _ _ (write_json-Settles _ _ refl)
        (attempt_or_500-Settles _ _ λ id. write_json-Accepts _ _ refl))

pub handle_update_cred-Settles :
    (text : Bytes) (body : Option CredReq) → Settles (handle_update_cred text body)
unfolding handle_update_cred
handle_update_cred-Settles text body = with_id-Settles text _ λ id.
    with_body-Settles body _ λ req. attempt_or_500-Settles _ _ λ u. write_json-Accepts _ _ refl

pub handle_delete_cred-Settles : (text : Bytes) → Settles (handle_delete_cred text)
unfolding handle_delete_cred
handle_delete_cred-Settles text =
    with_id-Settles text _ λ id. attempt_or_500-Settles _ _ λ u. write_json-Accepts _ _ refl

pub handle_activate_cred-Settles : (text : Bytes) → Settles (handle_activate_cred text)
unfolding handle_activate_cred
handle_activate_cred-Settles text = with_id-Settles text _ λ id.
    attempt_change-Settles _ _ _ (set_active_llm_credential-Atomic id) credential_missing-Settles
      λ u. write_json-Accepts _ _ refl

pub handle_list_chats-Settles : Settles handle_list_chats
unfolding handle_list_chats
handle_list_chats-Settles = attempt_or_500-Settles _ _ λ cs. write_json-Accepts _ _ refl

pub handle_create_chat-Settles : (now id : Bytes) → Settles (handle_create_chat now id)
unfolding handle_create_chat
handle_create_chat-Settles now id = attempt_or_500-Settles _ _ λ made. write_json-Accepts _ _ refl

pub handle_rename_chat-Settles :
    (id : Bytes) (body : Option Bytes) → Settles (handle_rename_chat id body)
unfolding handle_rename_chat
handle_rename_chat-Settles id body =
    with_body-Settles body _ λ title. attempt_or_500-Settles _ _ λ u. write_json-Accepts _ _ refl

pub handle_chat_messages-Settles : (id : Bytes) → Settles (handle_chat_messages id)
unfolding handle_chat_messages
handle_chat_messages-Settles id = attempt_or_500-Settles _ _ λ ms. write_json-Accepts _ _ refl

pub handle_list_knowledge-Settles : Settles handle_list_knowledge
unfolding handle_list_knowledge
handle_list_knowledge-Settles = attempt_or_500-Settles _ _ λ ks. write_json-Accepts _ _ refl

pub handle_add_knowledge-Settles :
    (now : Bytes) (body : Option Bytes) → Settles (handle_add_knowledge now body)
unfolding handle_add_knowledge
handle_add_knowledge-Settles now body = with_body-Settles body _ λ text.
    if-Settles (trim_space text == []) _ _ (write_json-Settles _ _ refl)
      (attempt_or_500-Settles _ _ λ id. write_json-Accepts _ _ refl)

pub handle_delete_knowledge-Settles : (text : Bytes) → Settles (handle_delete_knowledge text)
unfolding handle_delete_knowledge
handle_delete_knowledge-Settles text =
    with_id-Settles text _ λ id. attempt_or_500-Settles _ _ λ u. write_json-Accepts _ _ refl

pub handle_list_extensions-Settles : Settles handle_list_extensions
unfolding handle_list_extensions
handle_list_extensions-Settles = attempt_or_500-Settles _ _ λ es. write_json-Accepts _ _ refl

get_web_file-Reads : (path : Bytes) → Reads (get_web_file path)
unfolding get_web_file
get_web_file-Reads path = record {
  at = λ old. Keeps-bind _ _ (Keeps-catch _ (Keeps-query _)) λ found. Keeps-pure _;
}

get_web_file-Succeeds : (path : Bytes) → Succeeds (get_web_file path)
unfolding get_web_file
get_web_file-Succeeds path = bind-Succeeds _ _ (catch-Succeeds _) λ found. pure-Succeeds _

overlay_content-Settles :
    (norm : Bytes) (o : Option (Bytes × Bytes)) → Settles (overlay_content norm o)
overlay_content-Settles norm none = write_json-Settles _ _ refl
overlay_content-Settles norm (some (b, _)) = write_json-Settles _ _ refl

base_content-Settles : (norm : Bytes) (o : Option Bytes) → Settles (base_content norm o)
base_content-Settles norm none = write_json-Settles _ _ refl
base_content-Settles norm (some b) = write_json-Settles _ _ refl

module _ (embedded : Bytes → Option Bytes) where
  pub handle_web_changes-Settles : Settles (handle_web_changes embedded)
  unfolding handle_web_changes
  handle_web_changes-Settles =
      attempt_or_500-Settles _ _
        λ files. attempt-Accepts _ _ _ internal_error-Accepts λ es. write_json-Accepts _ _ refl

  content_at_key-Settles :
      (o : Option Bytes) (layer : Bytes) → Settles (content_at_key embedded o layer)
  content_at_key-Settles none layer = write_json-Settles _ _ refl
  content_at_key-Settles (some norm) layer =
      if-Settles (layer == codes "base") _ _ (base_content-Settles norm (embedded norm)) (
        bind-Settles _ _ (get_web_file-Reads norm) (get_web_file-Succeeds norm)
          (overlay_content-Settles norm))

  pub handle_web_content-Settles :
      (path layer : Bytes) → Settles (handle_web_content embedded path layer)
  unfolding handle_web_content
  handle_web_content-Settles path layer = content_at_key-Settles (normalize_web_path path) layer
