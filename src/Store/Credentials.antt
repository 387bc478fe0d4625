-- ===== src/Store/Credentials.antt =====
-- internal/store/store.go: the tokens of the LLM providers, one of them active.
pub mod Active
pub mod Changes
pub mod Faults
pub mod Failing
pub mod Frame
pub mod Reads
use hopskip.Base.{
  ℕ, zero, suc, ◌+◌, ◌-◌, ◌≤◌, ◌<◌, ◌≡◌, refl, sym, ap, ◌∙◌, ◌≢◌, ◌↔◌, ◌⊎◌, inl, inr, Bool, true,
  false, not, ◌&&◌, ◌||◌, Option, none, some, List, [], ◌∷◌, ◌++◌, map, append-nil, append_assoc,
  arith, ltb, leb, if◌then◌else◌, Bool-cases, Option-cases, Eq, ◌==◌, eq_iff, eq_refl, nat_eq,
  bytes_eq, bytes_beq_iff, pair_eq, bytes_leb, ℤ, pos, negsuc, int_eq, int_leb, int_beq_iff, length,
  take, drop, keep, find, any, all, All,
}
use hopskip.Text.{Bytes, codes}
use hopskip.Store.Tables.{Tables, Credential, Error, not_found}
use hopskip.Store.Rows.{
  update_where, delete_where, order_by, next_id, at_key, has, row, upsert, Keyed,
}
use hopskip.Store.Db.{
  Result, ok, err, Db, M, calm, pure, fail, exec, query, catch, ◌>>=◌, ◌>>◌, transaction, result_or,
}

abbrev pub credential_id : Credential → ℤ
credential_id c = c.id

abbrev pub is_active : Credential → Bool
is_active c = c.active

-- An error of the COUNT is dropped, and then the count reads 0.
pub add_llm_credential : Bytes → Bytes → Bytes → Bytes → Bytes → M ℤ
add_llm_credential now label provider token model = do
  counted ← catch (query (λ t. length t.llm_credentials))
  let active = result_or counted 0 == 0
  exec λ t.
      let id = next_id credential_id t.llm_credentials in
      let new : Credential = record {
        id = id;
        label = label;
        provider = provider;
        token = token;
        model = model;
        active = active;
        created_at = now;
      } in
      ok (id, record t { llm_credentials = t.llm_credentials ++ new ∷ [] })

-- ORDER BY id DESC
abbrev pub newest_first : List Credential → List Credential
newest_first = order_by (λ a b. int_leb b.id a.id)

pub list_llm_credentials : M (List Credential)
list_llm_credentials = query (λ t. newest_first t.llm_credentials)

or_not_found : Option Credential → M Credential
or_not_found none = fail not_found
or_not_found (some c) = pure c

pub active_llm_credential : M Credential
unfolding or_not_found
active_llm_credential = do found ← query (λ t. find is_active t.llm_credentials); or_not_found found

abbrev pub set_active : Bool → Credential → Credential
set_active b c = record c { active = b }

abbrev pub with_credentials : Tables → List Credential → Tables
with_credentials t cs = record t { llm_credentials = cs }

affected : Bool → M Unit
affected some_row = if some_row then exec (λ t. ok (tt, t)) else fail not_found

-- Begin, the two updates, and Commit; `defer tx.Rollback()` undoes them where one fails. A COMMIT that
-- fails is taken to leave nothing, as the driver then rolls back.
pub set_active_llm_credential : ℤ → M Unit
unfolding affected
set_active_llm_credential id = do
  exec (λ t. ok (tt, t))
  transaction (do
    exec (λ t. ok (tt, with_credentials t (map (set_active false) t.llm_credentials)))
    found ← exec λ t. ok (
      has credential_id id t.llm_credentials,
      with_credentials t
          (update_where (at_key credential_id id) (set_active true) t.llm_credentials),
    )
    affected found)

abbrev pub relabel : Bytes → Bytes → Bytes → Credential → Credential
relabel label model token c =
    if token == []
    then record c { label = label; model = model }
    else record c { label = label; model = model; token = token }

pub update_llm_credential : ℤ → Bytes → Bytes → Bytes → M Unit
update_llm_credential id label model token = exec λ t. ok (
  tt,
  with_credentials t
      (update_where (at_key credential_id id) (relabel label model token) t.llm_credentials),
)

-- WHERE id = (SELECT id … ORDER BY id DESC LIMIT 1)
unfoldable pub promote_newest : List Credential → List Credential
promote_newest cs = elim (newest_first cs) [
  | [] ↦ cs
  | c ∷ _ ↦ update_where (at_key credential_id c.id) (set_active true) cs
]

promote_if : Bool → M Unit
promote_if none_active =
    if none_active
    then (do
      catch (exec (λ t. ok (tt, with_credentials t (promote_newest t.llm_credentials))))
      pure tt)
    else pure tt

-- The errors of the COUNT and of the promotion are dropped.
pub delete_llm_credential : ℤ → M Unit
unfolding promote_if
delete_llm_credential id = do
  exec (λ t. ok (tt, with_credentials t (delete_where (at_key credential_id id) t.llm_credentials)))
  counted ← catch (query (λ t. length (keep is_active t.llm_credentials)))
  promote_if (result_or counted 0 == 0)

abbrev pub of_provider : Bytes → Credential → Bool
of_provider provider c = c.provider == provider

pub has_llm_provider : Bytes → M Bool
has_llm_provider provider = do
  counted ← catch (query (λ t. length (keep (of_provider provider) t.llm_credentials)))
  pure (ltb 0 (result_or counted 0))
