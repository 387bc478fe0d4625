-- ===== src/Store/Credentials/Reads.antt =====
-- Reading the credentials.
use hopskip.Base.{Option, none, some}
use hopskip.Store.Tables.{Tables, Credential}
use hopskip.Store.Db.Keeps.{Keeps, Keeps-query, Keeps-bind, Keeps-pure, Keeps-fail}
use hopskip.Store.Credentials.{or_not_found, active_llm_credential, list_llm_credentials}

module _ {P : Tables → Type 0} where
  found-Keeps : (o : Option Credential) → Keeps P (or_not_found o)
  unfolding or_not_found
  found-Keeps none = Keeps-fail _
  found-Keeps (some c) = Keeps-pure _

  pub active_llm_credential-Keeps : Keeps P active_llm_credential
  unfolding active_llm_credential
  active_llm_credential-Keeps = Keeps-bind _ _ (Keeps-query _) found-Keeps

  pub list_llm_credentials-Keeps : Keeps P list_llm_credentials
  unfolding list_llm_credentials
  list_llm_credentials-Keeps = Keeps-query _
