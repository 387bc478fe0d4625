-- ===== src/Agent/Operator.antt =====
-- internal/agent/agent.go: what the agent reads of the settings and of the active credential.
use hopskip.Base.{ℕ, Bool, true, false, Option, none, some, [], nat_eq, bytes_eq, pair_eq, int_eq}
use hopskip.Text.{Bytes, codes}
use hopskip.Store.Tables.{Credential}
use hopskip.Store.Db.{Result, ok, err, M, pure, catch, ◌>>=◌}
use hopskip.Store.Settings.{get_setting}
use hopskip.Store.Credentials.{active_llm_credential}
use hopskip.Agent.Limits.{max_steps, max_retries}

abbrev pub text_or_nothing : Option Bytes → Bytes
text_or_nothing none = []
text_or_nothing (some v) = v

abbrev pub proxy_setting : Bytes
proxy_setting = codes "upstream_proxy"

abbrev pub max_steps_setting : Bytes
max_steps_setting = codes "max_steps"

abbrev pub max_retries_setting : Bytes
max_retries_setting = codes "max_retries"

unfoldable pub current_proxy : M Bytes
current_proxy = get_setting proxy_setting >>= λ found. pure (text_or_nothing found)

-- `MaxSteps` and `MaxRetries`, with the setting that they read.
unfoldable pub current_max_steps : M ℕ
current_max_steps = get_setting max_steps_setting >>= λ found. pure (max_steps found)

unfoldable pub current_max_retries : M ℕ
current_max_retries = get_setting max_retries_setting >>= λ found. pure (max_retries found)

abbrev succeeds : Result Credential → Bool
succeeds (ok c) = true
succeeds (err e) = false

abbrev provider_and_model : Result Credential → Option (Bytes × Bytes)
provider_and_model (ok c) = some (c.provider, c.model)
provider_and_model (err e) = none

unfoldable pub configured : M Bool
configured = catch active_llm_credential >>= λ r. pure (succeeds r)

unfoldable pub active_info : M (Option (Bytes × Bytes))
active_info = catch active_llm_credential >>= λ r. pure (provider_and_model r)
