-- ===== src/Server/Credentials.antt =====
-- internal/server/llm.go: the handlers of the provider credentials, and how a token is shown.
pub mod Masking
use hopskip.Base.{
  ℕ, ◌-◌, ◌++◌, leb, ltb, ◌||◌, not, Bool, Option, none, some, List, [], ◌∷◌, map, take, drop,
  length, if◌then◌else◌, ◌==◌, nat_eq, bytes_eq, pair_eq, ℤ, int_eq,
}
use hopskip.Text.{Bytes, codes, ellipsis}
use hopskip.Text.Trim.{trim_space}
use hopskip.Store.Tables.{
  Credential, Error, not_found, unique_violation, foreign_key_violation, driver_failure, message,
}
use hopskip.Store.Db.{M}
use hopskip.Store.Credentials.{
  list_llm_credentials, add_llm_credential, update_llm_credential, delete_llm_credential,
  set_active_llm_credential,
}
use hopskip.Server.Api.{
  Reply, Body, CredView, write_json, write_err, internal_error, attempt, with_body, with_id,
}

abbrev pub anthropic : Bytes
anthropic = codes "anthropic"

abbrev pub openai : Bytes
openai = codes "openai"

-- The UTF-8 bytes of "••••".
abbrev pub bullets : Bytes
bullets = 0xe2 ∷ 0x80 ∷ 0xa2 ∷ 0xe2 ∷ 0x80 ∷ 0xa2 ∷ 0xe2 ∷ 0x80 ∷ 0xa2 ∷ 0xe2 ∷ 0x80 ∷ 0xa2 ∷ []

unfoldable pub mask_token : Bytes → Bytes
mask_token t = if leb (length t) 8 then bullets else take 6 t ++ ellipsis ++ drop (length t - 4) t

unfoldable pub cred_view : Credential → CredView
unfolding mask_token
cred_view c = record {
  id = c.id;
  label = c.label;
  provider = c.provider;
  model = c.model;
  active = c.active;
  token_masked = mask_token c.token;
  created_at = c.created_at;
}

unfoldable pub handle_list_creds : M Reply
unfolding cred_view
handle_list_creds =
    attempt list_llm_credentials internal_error
      λ cs. write_json 200 (Body.credentials (map cred_view cs))

pub record CredReq : Type 0 where
  pub label : Bytes
  pub provider : Bytes
  pub token : Bytes
  pub model : Bytes

-- The keys of `providerModels`.
abbrev pub is_provider : Bytes → Bool
is_provider p = p == anthropic || p == openai

-- `providerDefaultModel`
unfoldable pub default_model : Bytes → Bytes
default_model provider =
    if provider == anthropic
    then codes "claude-opus-4-8"
    else if provider == openai
    then codes "gpt-4o"
    else []

abbrev pub unless_blank : Bytes → Bytes → Bytes
unless_blank text default = if trim_space text == [] then default else text

unfoldable pub handle_add_cred : Bytes → Option CredReq → M Reply
unfolding default_model
handle_add_cred now body = with_body body λ req.
    let provider = trim_space req.provider in
    let token = trim_space req.token in
    let model = unless_blank req.model (default_model provider) in
    let label = unless_blank req.label provider in
    if not (is_provider provider)
    then write_err 400 (codes "provider must be anthropic or openai")
    else if token == []
    then write_err 400 (codes "token is required")
    else attempt (add_llm_credential now label provider token model) internal_error
        λ id. write_json 201 (Body.identified id)

unfoldable pub handle_update_cred : Bytes → Option CredReq → M Reply
handle_update_cred id_text body = with_id id_text λ id. with_body body λ req.
    attempt
      (update_llm_credential id (trim_space req.label) (trim_space req.model)
        (trim_space req.token))
      internal_error λ _. write_json 200 Body.confirmed

unfoldable pub handle_delete_cred : Bytes → M Reply
handle_delete_cred id_text =
    with_id id_text
      λ id. attempt (delete_llm_credential id) internal_error λ _. write_json 200 Body.confirmed

abbrev pub credential_missing : Error → M Reply
credential_missing not_found = write_err 404 (codes "credential not found")
credential_missing unique_violation = internal_error unique_violation
credential_missing foreign_key_violation = internal_error foreign_key_violation
credential_missing driver_failure = internal_error driver_failure
credential_missing (message text) = internal_error (message text)

unfoldable pub handle_activate_cred : Bytes → M Reply
handle_activate_cred id_text = with_id id_text λ id.
    attempt (set_active_llm_credential id) credential_missing λ _. write_json 200 Body.confirmed
