-- ===== src/Store/Credentials/Failing.antt =====
-- A credential that cannot be made active.
use hopskip.Base.{ℤ}
use hopskip.Store.Db.Keeps.{Keeps-exec}
use hopskip.Store.Db.Failing.{Atomic, Atomic-bind, Atomic-transaction}
use hopskip.Store.Credentials.{set_active_llm_credential}

pub set_active_llm_credential-Atomic : (id : ℤ) → Atomic (set_active_llm_credential id)
unfolding set_active_llm_credential
set_active_llm_credential-Atomic id =
    Atomic-bind _ _ (record { at = λ old. Keeps-exec _ λ t h. h }) λ u. Atomic-transaction _
