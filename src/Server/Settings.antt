-- ===== src/Server/Settings.antt =====
-- internal/server/settings.go: the settings that an operator can change, their defaults, what is in
-- effect, and what a new value must satisfy; and the status that reads some of them.
pub mod Tuning
use hopskip.Base.{
  ℕ, ◌++◌, ◌||◌, not, ◌&&◌, leb, ltb, Bool, true, false, Option, none, some, List, [], ◌∷◌, map,
  keep, if◌then◌else◌, ◌==◌, nat_eq, bytes_eq, pair_eq, ℤ, pos, negsuc, int_eq, find,
}
use hopskip.Text.{Bytes, codes}
use hopskip.Text.Trim.{trim_space}
use hopskip.Text.Parts.{split, join}
use hopskip.Store.Db.{M, pure, ◌>>=◌}
use hopskip.Store.Settings.{get_setting, set_setting}
use hopskip.Agent.Limits.{atoi, itoa, default_max_steps, default_max_retries}
use hopskip.Agent.Operator.{
  current_proxy, current_max_steps, current_max_retries, configured, active_info, proxy_setting,
  max_steps_setting, max_retries_setting,
}
use hopskip.Server.Api.{
  Reply, Body, SettingView, write_json, write_err, internal_error, attempt, with_body,
}

abbrev pub export_dir_setting : Bytes
export_dir_setting = codes "web_export_dir"

abbrev pub scrollback_setting : Bytes
scrollback_setting = codes "terminal_scrollback"

abbrev pub providers_setting : Bytes
providers_setting = codes "providers"

abbrev pub default_web_export_dir : Bytes
default_web_export_dir = codes "web_overlay"

abbrev pub default_providers : Bytes
default_providers = codes "aliyun, aliyun-hk, bandwagon"

abbrev pub default_scrollback : ℕ
default_scrollback = 100000

abbrev pub trimmed_unless_blank : Bytes → Option Bytes → Bytes
trimmed_unless_blank default none = default
trimmed_unless_blank default (some v) = if trim_space v == [] then default else trim_space v

unfoldable pub web_export_dir : M Bytes
web_export_dir = get_setting export_dir_setting >>= λ found.
    pure (trimmed_unless_blank default_web_export_dir found)

-- A number that is read, where it is at least the bound.
abbrev pub at_least : ℕ → Option ℤ → Option ℕ
at_least bound none = none
at_least bound (some (pos n)) = if leb bound n then some n else none
at_least bound (some (negsuc n)) = none

abbrev pub number_or : ℕ → Option ℕ → ℕ
number_or default none = default
number_or default (some n) = n

unfoldable pub scrollback_of : Option Bytes → ℕ
scrollback_of none = default_scrollback
scrollback_of (some v) = number_or default_scrollback (at_least 100 (atoi (trim_space v)))

unfoldable pub terminal_scrollback : M ℕ
terminal_scrollback = get_setting scrollback_setting >>= λ found. pure (scrollback_of found)

abbrev not_blank : Bytes → Bool
not_blank p = not (p == [])

abbrev pub raw_providers : Option Bytes → Bytes
raw_providers none = default_providers
raw_providers (some raw) = if trim_space raw == [] then default_providers else raw

unfoldable pub providers_of : Option Bytes → List Bytes
providers_of found = keep not_blank (map trim_space (split b',' (raw_providers found)))

unfoldable pub provider_list : M (List Bytes)
provider_list = get_setting providers_setting >>= λ found. pure (providers_of found)

-- `settingDef`, less its label, type, help and placeholder. `refusal` is the text of the error of
-- `Validate`, none where the value is allowed or there is no `Validate`.
pub record SettingDef : Type 0 where
  pub key : Bytes
  pub default : Bytes
  pub effective : M Bytes
  pub refusal : Bytes → Option Bytes

abbrev pub anything : Bytes → Option Bytes
anything v = none

abbrev pub refused_with : Bytes → Option ℕ → Option Bytes
refused_with text none = some text
refused_with text (some n) = none

abbrev pub number_from : ℕ → Bytes → Bytes → Option Bytes
number_from bound text v = refused_with text (at_least bound (atoi v))

abbrev shown_number : M ℕ → M Bytes
shown_number m = m >>= λ n. pure (itoa n)

abbrev pub proxy_def : SettingDef
proxy_def = record {
  key = proxy_setting;
  default = [];
  effective = current_proxy;
  refusal = anything;
}

abbrev pub not_positive : Bytes
not_positive = codes "must be a positive whole number"

abbrev pub not_whole : Bytes
not_whole = codes "must be a whole number of 0 or more"

abbrev pub max_steps_def : SettingDef
max_steps_def = record {
  key = max_steps_setting;
  default = itoa default_max_steps;
  effective = shown_number current_max_steps;
  refusal = number_from 1 not_positive;
}

abbrev pub max_retries_def : SettingDef
max_retries_def = record {
  key = max_retries_setting;
  default = itoa default_max_retries;
  effective = shown_number current_max_retries;
  refusal = number_from 0 not_whole;
}

abbrev pub providers_def : SettingDef
providers_def = record {
  key = providers_setting;
  default = default_providers;
  effective = provider_list >>= λ ps. pure (join (codes ", ") ps);
  refusal = anything;
}

abbrev pub scrollback_def : SettingDef
scrollback_def = record {
  key = scrollback_setting;
  default = itoa default_scrollback;
  effective = shown_number terminal_scrollback;
  refusal = number_from 100 (codes "must be a whole number of 100 or more");
}

abbrev pub export_dir_def : SettingDef
export_dir_def = record {
  key = export_dir_setting;
  default = default_web_export_dir;
  effective = web_export_dir;
  refusal = anything;
}

unfoldable pub setting_defs : List SettingDef
setting_defs =
    proxy_def ∷ max_steps_def ∷ max_retries_def ∷ providers_def ∷ scrollback_def ∷ export_dir_def
    ∷ []

unfoldable pub handle_providers : M Reply
handle_providers = provider_list >>= λ ps. write_json 200 (Body.providers ps)

abbrev is_some : Option Bytes → Bool
is_some none = false
is_some (some v) = true

abbrev value_or_nothing : Option Bytes → Bytes
value_or_nothing none = []
value_or_nothing (some v) = v

unfoldable pub view_setting : SettingDef → M SettingView
view_setting d = do
  stored ← get_setting d.key
  effective ← d.effective
  pure (record {
    key = d.key;
    value = value_or_nothing stored;
    is_set = is_some stored;
    default = d.default;
    effective = effective;
  })

unfoldable pub view_settings : List SettingDef → M (List SettingView)
unfolding view_setting
view_settings [] = pure []
view_settings (d ∷ ds) = do view ← view_setting d; views ← view_settings ds; pure (view ∷ views)

unfoldable pub handle_list_settings : M Reply
unfolding view_settings setting_defs
handle_list_settings = view_settings setting_defs >>= λ views. write_json 200 (Body.settings views)

abbrev pub has_setting_key : Bytes → SettingDef → Bool
has_setting_key key d = d.key == key

abbrev pub store_setting : Bytes → Bytes → M Reply
store_setting key v = attempt (set_setting key v) internal_error λ _. write_json 200 Body.confirmed

abbrev pub unless_refused : Option Bytes → M Reply → M Reply
unless_refused none m = m
unless_refused (some text) m = write_err 400 text

-- A blank value is always allowed: the default is in effect again.
abbrev pub set_value : Bytes → SettingDef → Bytes → M Reply
set_value key d v = unless_refused (if v == [] then none else d.refusal v) (store_setting key v)

abbrev pub set_known : Bytes → Option SettingDef → Option Bytes → M Reply
set_known key none body = write_err 404 (codes "unknown setting")
set_known key (some d) body = with_body body λ value. set_value key d (trim_space value)

-- `body` is the field "value" of the JSON.
unfoldable pub handle_set_setting : Bytes → Option Bytes → M Reply
unfolding setting_defs
handle_set_setting key body = set_known key (find (has_setting_key key) setting_defs) body

unfoldable pub handle_status : M Reply
handle_status = do
  is_configured ← configured
  scrollback ← terminal_scrollback
  active ← active_info
  write_json 200 (Body.status is_configured scrollback active)
