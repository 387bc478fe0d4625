-- ===== src/Store/Credentials/Faults.antt =====
-- The errors that the credential methods drop.
use hopskip.Base.{
  ◌+◌, ◌≡◌, refl, ap, ◌∙◌, Bool, true, List, [], ◌∷◌, ◌++◌, arith, nat_eq, bytes_eq, pair_eq,
  int_eq, length, keep,
}
use hopskip.Text.{Bytes}
use hopskip.Store.Rows.{next_id}
use hopskip.Store.Db.{ok, calm, ◌>>=◌}
use hopskip.Base.{length-append}
use hopskip.Store.Tables.{Tables, Credential}
use hopskip.Store.Credentials.{is_active, credential_id, add_llm_credential}
use hopskip.Store.Credentials.Active.{actives}

keep-append :
    (p : Credential → Bool) (xs : List Credential) (x : Credential)
    → p x ≡ true
    → keep p (xs ++ x ∷ []) ≡ keep p xs ++ x ∷ []
unfolding keep
keep-append p [] x h = rw h refl
keep-append p (y ∷ ys) x h = ground (arith, keep-append p ys x h)

-- Where the driver fails the COUNT and then the INSERT succeeds, the method reports success, and the
-- new credential is active beside whatever credentials were active before.
pub add_llm_credential_uncounted :
    (now label provider token model : Bytes) (t : Tables)
    → (u : Tables) × (add_llm_credential now label provider token model
          (record { tables = t; faults = true ∷ [] })
        ≡ (ok (next_id credential_id t.llm_credentials), calm u))
      × (length (actives u.llm_credentials) ≡ length (actives t.llm_credentials) + 1)
unfolding add_llm_credential ◌>>=◌
add_llm_credential_uncounted now label provider token model t =
    let new : Credential = record {
      id = next_id credential_id t.llm_credentials;
      label = label;
      provider = provider;
      token = token;
      model = model;
      active = true;
      created_at = now;
    } in
    (
      record t { llm_credentials = t.llm_credentials ++ new ∷ [] },
      refl,
      ap length (keep-append is_active t.llm_credentials new refl)
          ∙ length-append (actives t.llm_credentials) (new ∷ []),
    )
