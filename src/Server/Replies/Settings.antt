-- ===== src/Server/Replies/Settings.antt =====
-- The handlers of the settings and of the status.
use hopskip.Base.{refl, Option, none, some, List, [], ◌∷◌, find, nat_eq, bytes_eq, pair_eq, int_eq}
use hopskip.Text.{Bytes}
use hopskip.Base.{All}
use hopskip.Store.Db.{M, pure, ◌>>=◌}
use hopskip.Store.Settings.{get_setting}
use hopskip.Agent.Operator.{
  current_proxy, current_max_steps, current_max_retries, configured, active_info,
}
use hopskip.Server.Settings.{
  SettingDef, set_known, unless_refused, has_setting_key, setting_defs, web_export_dir,
  terminal_scrollback, provider_list, view_setting, view_settings, handle_providers,
  handle_list_settings, handle_set_setting, handle_status,
}
use hopskip.Server.Api.{Reply}
use hopskip.Server.Replies.{
  Settles, Succeeds, write_json-Accepts, write_json-Settles, Accepts-Settles, bind-Accepts,
  attempt_or_500-Settles, pure-Succeeds, bind-Succeeds, catch-Succeeds, with_body-Settles,
}

-- What the setting gives is never an error.
get_setting-Succeeds :
    {A : Type 0} (key : Bytes) (f : Option Bytes → A)
    → Succeeds (get_setting key >>= (λ found. pure (f found)))
unfolding get_setting
get_setting-Succeeds key f =
    bind-Succeeds _ _ (bind-Succeeds _ _ (catch-Succeeds _) λ r. pure-Succeeds _)
      λ found. pure-Succeeds _

current_proxy-Succeeds : Succeeds current_proxy
unfolding current_proxy
current_proxy-Succeeds = get_setting-Succeeds _ _

-- A value in effect, shown as a text.
shown-Succeeds :
    {A B : Type 0} (m : M A) (f : A → B) → Succeeds m → Succeeds (m >>= (λ a. pure (f a)))
shown-Succeeds m f h = bind-Succeeds _ _ h λ a. pure-Succeeds _

current_max_steps-Succeeds : Succeeds current_max_steps
unfolding current_max_steps
current_max_steps-Succeeds = get_setting-Succeeds _ _

current_max_retries-Succeeds : Succeeds current_max_retries
unfolding current_max_retries
current_max_retries-Succeeds = get_setting-Succeeds _ _

provider_list-Succeeds : Succeeds provider_list
unfolding provider_list
provider_list-Succeeds = get_setting-Succeeds _ _

terminal_scrollback-Succeeds : Succeeds terminal_scrollback
unfolding terminal_scrollback
terminal_scrollback-Succeeds = get_setting-Succeeds _ _

web_export_dir-Succeeds : Succeeds web_export_dir
unfolding web_export_dir
web_export_dir-Succeeds = get_setting-Succeeds _ _

-- The effective value of a setting is always read.
abbrev AllSucceed : List SettingDef → Type 0
AllSucceed = All (λ d. Succeeds d.effective)

setting_defs-AllSucceed : AllSucceed setting_defs
unfolding setting_defs
setting_defs-AllSucceed = (
  current_proxy-Succeeds,
  (
    shown-Succeeds _ _ current_max_steps-Succeeds,
    (
      shown-Succeeds _ _ current_max_retries-Succeeds,
      (
        shown-Succeeds _ _ provider_list-Succeeds,
        (shown-Succeeds _ _ terminal_scrollback-Succeeds, (web_export_dir-Succeeds, tt)),
      ),
    ),
  ),
)

view_setting-Succeeds : (d : SettingDef) → Succeeds d.effective → Succeeds (view_setting d)
unfolding view_setting get_setting
view_setting-Succeeds d h =
    bind-Succeeds _ _ (bind-Succeeds _ _ (catch-Succeeds _) λ r. pure-Succeeds _)
      λ stored. bind-Succeeds _ _ h λ effective. pure-Succeeds _

view_settings-Succeeds : (ds : List SettingDef) → AllSucceed ds → Succeeds (view_settings ds)
unfolding view_settings
view_settings-Succeeds [] _ = pure-Succeeds _
view_settings-Succeeds (d ∷ ds) (h, hs) =
    bind-Succeeds _ _ (view_setting-Succeeds d h)
      λ view. bind-Succeeds _ _ (view_settings-Succeeds ds hs) λ views. pure-Succeeds _

pub handle_providers-Settles : Settles handle_providers
unfolding handle_providers
handle_providers-Settles =
    Accepts-Settles _ (bind-Accepts _ _ provider_list-Succeeds λ ps. write_json-Accepts _ _ refl)

pub handle_list_settings-Settles : Settles handle_list_settings
unfolding handle_list_settings
handle_list_settings-Settles = Accepts-Settles _ (
    bind-Accepts _ _ (view_settings-Succeeds setting_defs setting_defs-AllSucceed)
      λ views. write_json-Accepts _ _ refl)

unless_refused-Settles : (o : Option Bytes) (m : M Reply) → Settles m → Settles (unless_refused o m)
unless_refused-Settles none m h = h
unless_refused-Settles (some text) m h = write_json-Settles _ _ refl

set_known-Settles :
    (key : Bytes) (o : Option SettingDef) (body : Option Bytes) → Settles (set_known key o body)
set_known-Settles key none body = write_json-Settles _ _ refl
set_known-Settles key (some d) body = with_body-Settles body _ λ value.
    unless_refused-Settles _ _ (attempt_or_500-Settles _ _ λ u. write_json-Accepts _ _ refl)

pub handle_set_setting-Settles :
    (key : Bytes) (body : Option Bytes) → Settles (handle_set_setting key body)
unfolding handle_set_setting
handle_set_setting-Settles key body =
    set_known-Settles key (find (has_setting_key key) setting_defs) body

pub handle_status-Settles : Settles handle_status
unfolding handle_status configured active_info
handle_status-Settles = Accepts-Settles _ (
    bind-Accepts _ _ (shown-Succeeds _ _ (catch-Succeeds _)) λ is_configured.
      bind-Accepts _ _ terminal_scrollback-Succeeds λ scrollback.
        bind-Accepts _ _ (shown-Succeeds _ _ (catch-Succeeds _))
          λ active. write_json-Accepts _ _ refl)
