-- ===== src/Store/Credentials/Frame.antt =====
-- What every credential satisfies, through the changes of credentials, beside what does not depend on
-- them.
use hopskip.Base.{
  Bool, true, false, List, [], ◌∷◌, All, All-append, All-keep, All-map, nat_eq, bytes_eq, pair_eq,
  int_eq, ℤ,
}
use hopskip.Text.{Bytes}
use hopskip.Store.Tables.{Tables, Credential}
use hopskip.Store.Rows.{at_key, update_where, delete_where}
use hopskip.Store.Rows.Every.{All-update_where}
use hopskip.Store.Db.Keeps.{
  Keeps, Keeps-exec, Keeps-query, Keeps-bind, Keeps-pure, Keeps-fail, Keeps-catch, Keeps-if,
  Keeps-transaction,
}
use hopskip.Store.Credentials.{
  with_credentials, credential_id, set_active, relabel, newest_first, promote_newest, affected,
  promote_if, add_llm_credential, update_llm_credential, delete_llm_credential,
  set_active_llm_credential,
}

module _ {P : Tables → Type 0} (Q : Credential → Type 0)
    (has_all : (t : Tables) → P t → All Q t.llm_credentials)
    (elsewhere : (t : Tables) (cs : List Credential) → All Q cs → P t → P (with_credentials t cs))
    (switched : (b : Bool) (c : Credential) → Q c → Q (set_active b c)) where
  -- A row that may be added, be it the active one or not.
  abbrev pub Fits : (label provider token model now : Bytes) → Type 0
  Fits label provider token model now =
      (id : ℤ) (active : Bool)
      → Q (record {
        id = id;
        label = label;
        provider = provider;
        token = token;
        model = model;
        active = active;
        created_at = now;
      })

  pub add_llm_credential-Keeps :
      (now label provider token model : Bytes)
      → Fits label provider token model now
      → Keeps P (add_llm_credential now label provider token model)
  unfolding add_llm_credential
  add_llm_credential-Keeps now label provider token model fits =
      Keeps-bind _ _ (Keeps-catch _ (Keeps-query _)) λ counted.
        Keeps-exec _
          λ t h. elsewhere t _ (All-append Q t.llm_credentials _ (has_all t h) (fits _ _, tt)) h

  pub update_llm_credential-Keeps :
      (id : ℤ) (label model token : Bytes)
      → ((c : Credential) → Q c → Q (relabel label model token c))
      → Keeps P (update_llm_credential id label model token)
  unfolding update_llm_credential
  update_llm_credential-Keeps id label model token relabelled = Keeps-exec _ λ t h.
      elsewhere t _
        (All-update_where Q _ (relabel label model token) (λ c _. relabelled c) t.llm_credentials
          (has_all t h))
        h

  activated :
      (id : ℤ) (cs : List Credential)
      → All Q cs
      → All Q (update_where (at_key credential_id id) (set_active true) cs)
  activated id cs h =
      All-update_where Q (at_key credential_id id) (set_active true) (λ c _. switched true c) cs h

  promoted : (cs : List Credential) → All Q cs → All Q (promote_newest cs)
  unfolding promote_newest
  promoted cs h =
      elim (newest_first cs)
        as (λ newest. All Q (elim newest [
          | [] ↦ cs
          | c ∷ _ ↦ update_where (at_key credential_id c.id) (set_active true) cs
        ])) [ [] ↦ h | c ∷ _ ↦ activated c.id cs h ]

  promote_if-Keeps : (b : Bool) → Keeps P (promote_if b)
  unfolding promote_if
  promote_if-Keeps b =
      Keeps-if b _ _
        (λ _.
          Keeps-bind _ _
            (Keeps-catch _
              (Keeps-exec _ λ t h. elsewhere t _ (promoted t.llm_credentials (has_all t h)) h))
            λ r. Keeps-pure tt)
        (λ _. Keeps-pure tt)

  pub delete_llm_credential-Keeps : (id : ℤ) → Keeps P (delete_llm_credential id)
  unfolding delete_llm_credential delete_where
  delete_llm_credential-Keeps id =
      Keeps-bind _ _
        (Keeps-exec _ λ t h. elsewhere t _ (All-keep Q _ t.llm_credentials (has_all t h)) h)
        λ u. Keeps-bind _ _ (Keeps-catch _ (Keeps-query _)) λ counted. promote_if-Keeps _

  affected-Keeps : (b : Bool) → Keeps P (affected b)
  unfolding affected
  affected-Keeps b = Keeps-if b _ _ (λ _. Keeps-exec _ λ t h. h) (λ _. Keeps-fail _)

  pub set_active_llm_credential-Keeps : (id : ℤ) → Keeps P (set_active_llm_credential id)
  unfolding set_active_llm_credential
  set_active_llm_credential-Keeps id = Keeps-bind _ _ (Keeps-exec _ λ t h. h) λ u.
      Keeps-transaction _ (
        Keeps-bind _ _
          (Keeps-exec _ λ t h.
            elsewhere t _
              (All-map Q Q (set_active false) (switched false) t.llm_credentials (has_all t h)) h)
          λ v.
            Keeps-bind _ _
              (Keeps-exec _ λ t h. elsewhere t _ (activated id t.llm_credentials (has_all t h)) h)
              affected-Keeps)
