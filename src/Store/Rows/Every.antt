-- ===== src/Store/Rows/Every.antt =====
-- What every row of a table satisfies, through the changes of rows.
use hopskip.Base.{◌≡◌, inl, inr, Bool, true, List, [], ◌∷◌, Bool-cases, Eq, All, All-append, nat_eq}
use hopskip.Store.Rows.{update_where, at_key, has, upsert}

module _ {ℓ} {R : Type ℓ} (Q : R → Type 0) where
  pub All-update_where :
      (p : R → Bool) (f : R → R)
      → ((r : R) → p r ≡ true → Q r → Q (f r))
      → (rs : List R) → All Q rs
      → All Q (update_where p f rs)
  unfolding update_where
  All-update_where p f h [] _ = tt
  All-update_where p f h (r ∷ rs) (q, qs) = elim (Bool-cases (p r)) [
    | inl e ↦ rw e (h r e q, All-update_where p f h rs qs)
    | inr e ↦ rw e (q, All-update_where p f h rs qs)
  ]

  pub All-upsert {κ} :
      {K : Type κ} ⦃e : Eq K⦄ (key : R → K) (k : K) (f : R → R) (new : R)
      → ((r : R) → at_key key k r ≡ true → Q r → Q (f r))
      → Q new
      → (rs : List R) → All Q rs
      → All Q (upsert key k f new rs)
  unfolding upsert
  All-upsert key k f new h n rs qs = elim (Bool-cases (has key k rs)) [
    | inl e ↦ rw e (All-update_where (at_key key k) f h rs qs)
    | inr e ↦ rw e (All-append Q rs (new ∷ []) qs (n, tt))
  ]
