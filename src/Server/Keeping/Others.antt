-- ===== src/Server/Keeping/Others.antt =====
-- The handlers of the credentials, the settings, the chats, what is remembered and the frontend.
use hopskip.Base.{
  ◌≡◌, refl, Bool, true, false, if◌then◌else◌, not, Option, none, some, List, [], ◌∷◌, find, All,
  ◌==◌, nat_eq, bytes_eq, pair_eq, int_eq,
}
use hopskip.Text.{Bytes, codes}
use hopskip.Text.Trim.{trim_space}
use hopskip.Store.Tables.{
  Tables, Error, not_found, unique_violation, foreign_key_violation, driver_failure, message,
}
use hopskip.Store.Db.{M, pure, ◌>>=◌}
use hopskip.Store.Db.Keeps.{Keeps, Keeps-if, Keeps-query, Keeps-bind, Keeps-pure, Keeps-catch}
use hopskip.Store.Credentials.Reads.{active_llm_credential-Keeps, list_llm_credentials-Keeps}
use hopskip.Store.Chats.Reads.{list_chats-Keeps, list_chat_messages-Keeps}
use hopskip.Store.Settings.{get_setting, set_setting, list_knowledge}
use hopskip.Store.Web.{get_web_file, normalize_web_path, list_web_files, list_extensions}
use hopskip.Agent.Operator.{
  current_proxy, current_max_steps, current_max_retries, configured, active_info,
}
use hopskip.Server.Api.{Reply, Body}
use hopskip.Server.Credentials.{
  CredReq, is_provider, credential_missing, handle_list_creds, handle_add_cred, handle_update_cred,
  handle_delete_cred, handle_activate_cred,
}
use hopskip.Server.Settings.{
  SettingDef, set_known, unless_refused, store_setting, has_setting_key, setting_defs,
  web_export_dir, terminal_scrollback, provider_list, view_setting, view_settings, handle_providers,
  handle_list_settings, handle_set_setting, handle_status,
}
use hopskip.Server.Chats.{
  handle_list_chats, handle_create_chat, handle_rename_chat, handle_chat_messages,
  handle_list_knowledge, handle_add_knowledge, handle_delete_knowledge,
}
use hopskip.Server.Web.{
  handle_list_extensions, handle_web_changes, handle_web_content, content_at_key, overlay_content,
  base_content,
}
use hopskip.Server.Keeping.{
  Methods, attempt-Keeps, attempt_or_500-Keeps, with_body-Keeps, with_id-Keeps, either-Keeps,
  get_setting-Keeps,
}

-- What each setting in effect is, is read without a change.
abbrev AllKeep : (Tables → Type 0) → List SettingDef → Type 0
AllKeep P = All (λ d. Keeps P d.effective)

module _ {P : Tables → Type 0} where
  credential_missing-Keeps : (e : Error) → Keeps P (credential_missing e)
  credential_missing-Keeps not_found = Keeps-pure _
  credential_missing-Keeps unique_violation = Keeps-pure _
  credential_missing-Keeps foreign_key_violation = Keeps-pure _
  credential_missing-Keeps driver_failure = Keeps-pure _
  credential_missing-Keeps (message text) = Keeps-pure _

  pub handle_list_creds-Keeps : Keeps P handle_list_creds
  unfolding handle_list_creds
  handle_list_creds-Keeps = attempt_or_500-Keeps _ _ _ list_llm_credentials-Keeps

  -- A value that is read, shown as a text.
  shown-Keeps : {A B : Type 0} (m : M A) (f : A → B) → Keeps P m → Keeps P (m >>= (λ a. pure (f a)))
  shown-Keeps m f h = Keeps-bind _ _ h λ a. Keeps-pure _

  current_max_steps-Keeps : Keeps P current_max_steps
  unfolding current_max_steps
  current_max_steps-Keeps = get_setting-Keeps _ _

  current_max_retries-Keeps : Keeps P current_max_retries
  unfolding current_max_retries
  current_max_retries-Keeps = get_setting-Keeps _ _

  provider_list-Keeps : Keeps P provider_list
  unfolding provider_list
  provider_list-Keeps = get_setting-Keeps _ _

  terminal_scrollback-Keeps : Keeps P terminal_scrollback
  unfolding terminal_scrollback
  terminal_scrollback-Keeps = get_setting-Keeps _ _

  pub web_export_dir-Keeps : Keeps P web_export_dir
  unfolding web_export_dir
  web_export_dir-Keeps = get_setting-Keeps _ _

  current_proxy-Keeps : Keeps P current_proxy
  unfolding current_proxy
  current_proxy-Keeps = get_setting-Keeps _ _

setting_defs-AllKeep : (P : Tables → Type 0) → AllKeep P setting_defs
unfolding setting_defs
setting_defs-AllKeep P = (
  current_proxy-Keeps,
  (
    shown-Keeps _ _ current_max_steps-Keeps,
    (
      shown-Keeps _ _ current_max_retries-Keeps,
      (
        shown-Keeps _ _ provider_list-Keeps,
        (shown-Keeps _ _ terminal_scrollback-Keeps, (web_export_dir-Keeps, tt)),
      ),
    ),
  ),
)

module _ {P : Tables → Type 0} where
  view_setting-Keeps : (d : SettingDef) → Keeps P d.effective → Keeps P (view_setting d)
  unfolding view_setting get_setting
  view_setting-Keeps d h =
      Keeps-bind _ _ (Keeps-bind _ _ (Keeps-catch _ (Keeps-query _)) λ r. Keeps-pure _)
        λ stored. Keeps-bind _ _ h λ effective. Keeps-pure _

  view_settings-Keeps : (ds : List SettingDef) → AllKeep P ds → Keeps P (view_settings ds)
  unfolding view_settings
  view_settings-Keeps [] _ = Keeps-pure _
  view_settings-Keeps (d ∷ ds) (h, hs) =
      Keeps-bind _ _ (view_setting-Keeps d h)
        λ view. Keeps-bind _ _ (view_settings-Keeps ds hs) λ views. Keeps-pure _

  pub handle_providers-Keeps : Keeps P handle_providers
  unfolding handle_providers
  handle_providers-Keeps = shown-Keeps _ _ provider_list-Keeps

  pub handle_list_settings-Keeps : Keeps P handle_list_settings
  unfolding handle_list_settings
  handle_list_settings-Keeps =
      shown-Keeps _ _ (view_settings-Keeps setting_defs (setting_defs-AllKeep P))

  pub handle_status-Keeps : Keeps P handle_status
  unfolding handle_status configured active_info
  handle_status-Keeps =
      Keeps-bind _ _ (shown-Keeps _ _ (Keeps-catch _ active_llm_credential-Keeps)) λ is_configured.
        Keeps-bind _ _ terminal_scrollback-Keeps λ scrollback.
          shown-Keeps _ _ (shown-Keeps _ _ (Keeps-catch _ active_llm_credential-Keeps))

  pub handle_list_chats-Keeps : Keeps P handle_list_chats
  unfolding handle_list_chats
  handle_list_chats-Keeps = attempt_or_500-Keeps _ _ _ list_chats-Keeps

  pub handle_chat_messages-Keeps : (id : Bytes) → Keeps P (handle_chat_messages id)
  unfolding handle_chat_messages
  handle_chat_messages-Keeps id = attempt_or_500-Keeps _ _ _ (list_chat_messages-Keeps id)

  pub handle_list_knowledge-Keeps : Keeps P handle_list_knowledge
  unfolding handle_list_knowledge list_knowledge
  handle_list_knowledge-Keeps = attempt_or_500-Keeps _ _ _ (Keeps-query _)

  pub handle_list_extensions-Keeps : Keeps P handle_list_extensions
  unfolding handle_list_extensions list_extensions
  handle_list_extensions-Keeps = attempt_or_500-Keeps _ _ _ (Keeps-query _)

  pub handle_web_changes-Keeps :
      (embedded : Bytes → Option Bytes) → Keeps P (handle_web_changes embedded)
  unfolding handle_web_changes list_web_files list_extensions
  handle_web_changes-Keeps embedded =
      attempt-Keeps _ _ _ (Keeps-query _) (λ e. Keeps-pure _)
        λ files. attempt_or_500-Keeps _ _ _ (Keeps-query _)

  pub get_web_file-Keeps : (path : Bytes) → Keeps P (get_web_file path)
  unfolding get_web_file
  get_web_file-Keeps path = shown-Keeps _ _ (Keeps-catch _ (Keeps-query _))

  overlay_content-Keeps :
      (norm : Bytes) (found : Option (Bytes × Bytes)) → Keeps P (overlay_content norm found)
  overlay_content-Keeps norm none = Keeps-pure _
  overlay_content-Keeps norm (some (b, _)) = Keeps-pure _

  base_content-Keeps : (norm : Bytes) (found : Option Bytes) → Keeps P (base_content norm found)
  base_content-Keeps norm none = Keeps-pure _
  base_content-Keeps norm (some b) = Keeps-pure _

  content_at_key-Keeps :
      (embedded : Bytes → Option Bytes) (key : Option Bytes) (layer : Bytes)
      → Keeps P (content_at_key embedded key layer)
  content_at_key-Keeps embedded none layer = Keeps-pure _
  content_at_key-Keeps embedded (some norm) layer =
      either-Keeps (layer == codes "base") _ _ (base_content-Keeps norm (embedded norm))
        (Keeps-bind _ _ (get_web_file-Keeps norm) (overlay_content-Keeps norm))

  pub handle_web_content-Keeps :
      (embedded : Bytes → Option Bytes) (path layer : Bytes)
      → Keeps P (handle_web_content embedded path layer)
  unfolding handle_web_content
  handle_web_content-Keeps embedded path layer =
      content_at_key-Keeps embedded (normalize_web_path path) layer

  unless_refused-Keeps :
      (refusal : Option Bytes) (m : M Reply)
      → (refusal ≡ none → Keeps P m)
      → Keeps P (unless_refused refusal m)
  unless_refused-Keeps none m h = h refl
  unless_refused-Keeps (some text) m h = Keeps-pure _

module _ {P : Tables → Type 0} (o : Methods P) where
  of_not : (b : Bool) → not b ≡ false → b ≡ true
  of_not true h = refl
  of_not false h = absurd cc

  pub handle_add_cred-Keeps :
      (now : Bytes) (body : Option CredReq) → Keeps P (handle_add_cred now body)
  unfolding handle_add_cred
  handle_add_cred-Keeps now body = with_body-Keeps body _ λ req.
      Keeps-if (not (is_provider (trim_space req.provider))) _ _ (λ _. Keeps-pure _)
        λ known.
          Keeps-if (trim_space req.token == []) _ _ (λ _. Keeps-pure _)
            λ filled. attempt_or_500-Keeps _ _ _ (o.adds_cred now _ _ _ _ (of_not _ known) filled)

  pub handle_update_cred-Keeps :
      (text : Bytes) (body : Option CredReq) → Keeps P (handle_update_cred text body)
  unfolding handle_update_cred
  handle_update_cred-Keeps text body =
      with_id-Keeps text _
        λ id. with_body-Keeps body _ λ req. attempt_or_500-Keeps _ _ _ (o.updates_cred id _ _ _)

  pub handle_delete_cred-Keeps : (text : Bytes) → Keeps P (handle_delete_cred text)
  unfolding handle_delete_cred
  handle_delete_cred-Keeps text =
      with_id-Keeps text _ λ id. attempt_or_500-Keeps _ _ _ (o.deletes_cred id)

  pub handle_activate_cred-Keeps : (text : Bytes) → Keeps P (handle_activate_cred text)
  unfolding handle_activate_cred
  handle_activate_cred-Keeps text =
      with_id-Keeps text _
        λ id. attempt-Keeps _ _ _ (o.activates id) credential_missing-Keeps λ u. Keeps-pure _

  pub handle_create_chat-Keeps : (now id : Bytes) → Keeps P (handle_create_chat now id)
  unfolding handle_create_chat
  handle_create_chat-Keeps now id = attempt_or_500-Keeps _ _ _ (o.creates_chat now id)

  pub handle_rename_chat-Keeps :
      (id : Bytes) (body : Option Bytes) → Keeps P (handle_rename_chat id body)
  unfolding handle_rename_chat
  handle_rename_chat-Keeps id body =
      with_body-Keeps body _ λ title. attempt_or_500-Keeps _ _ _ (o.renames_chat id _)

  set_known-Keeps :
      (key : Bytes) (def : Option SettingDef) (body : Option Bytes)
      → find (has_setting_key key) setting_defs ≡ def
      → Keeps P (set_known key def body)
  set_known-Keeps key none body known = Keeps-pure _
  set_known-Keeps key (some d) body known = with_body-Keeps body _ λ value.
      let v = trim_space value in
      unless_refused-Keeps (if v == [] then none else d.refusal v) (store_setting key v) λ allowed.
        attempt_or_500-Keeps (set_setting key v) 200 (λ _. Body.confirmed)
          (o.sets key v (d, known, allowed))

  pub handle_set_setting-Keeps :
      (key : Bytes) (body : Option Bytes) → Keeps P (handle_set_setting key body)
  unfolding handle_set_setting
  handle_set_setting-Keeps key body =
      set_known-Keeps key (find (has_setting_key key) setting_defs) body refl

  pub handle_add_knowledge-Keeps :
      (now : Bytes) (body : Option Bytes) → Keeps P (handle_add_knowledge now body)
  unfolding handle_add_knowledge
  handle_add_knowledge-Keeps now body = with_body-Keeps body _ λ text.
      Keeps-if (trim_space text == []) _ _ (λ _. Keeps-pure _)
        λ filled. attempt_or_500-Keeps _ _ _ (o.learns now _ filled)

  pub handle_delete_knowledge-Keeps : (text : Bytes) → Keeps P (handle_delete_knowledge text)
  unfolding handle_delete_knowledge
  handle_delete_knowledge-Keeps text =
      with_id-Keeps text _ λ id. attempt_or_500-Keeps _ _ _ (o.unlearns id)
