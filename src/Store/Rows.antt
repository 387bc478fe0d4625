-- ===== src/Store/Rows.antt =====
-- What the SQL statements do to the rows of a table that has a key: WHERE, UPDATE, DELETE, INSERT
-- with ON CONFLICT, ORDER BY and the choice of a row id, over a list of rows in insertion order.
pub mod Laws
pub mod Every
use hopskip.Base.{
  ℕ, zero, suc, ◌+◌, ◌≡◌, Bool, true, false, not, ◌&&◌, List, [], ◌∷◌, ◌++◌, map, Option, none,
  some, arith, Eq, ◌==◌, ℤ, pos, negsuc, pos_part, int_eq, max, if◌then◌else◌, keep, find, any,
  append-nil, eq_iff, nat_eq, Bool-cases, Option-cases, refl, sym, ap, ◌∙◌, ◌≤◌, ◌<◌, ◌≢◌, inl, inr,
}

module _ {ℓ} {R : Type ℓ} where
  -- UPDATE … WHERE p
  unfoldable pub update_where : (R → Bool) → (R → R) → List R → List R
  update_where p f = map (λ r. if p r then f r else r)

  -- DELETE … WHERE p
  unfoldable pub delete_where : (R → Bool) → List R → List R
  delete_where p = keep (λ r. not (p r))

  -- ORDER BY: rows that compare alike stay in their order.
  unfoldable pub insert_by : (R → R → Bool) → R → List R → List R
  insert_by le x [] = x ∷ []
  insert_by le x (y ∷ ys) = let rest = insert_by le x ys in if le x y then x ∷ y ∷ ys else y ∷ rest

  unfoldable pub order_by : (R → R → Bool) → List R → List R
  unfolding insert_by
  order_by le [] = []
  order_by le (x ∷ xs) = insert_by le x (order_by le xs)

  -- The row id of a new row of an INTEGER PRIMARY KEY table: one more than the largest in use.
  unfoldable pub largest : (R → ℤ) → List R → ℕ
  largest id [] = 0
  largest id (r ∷ rs) = max (pos_part (id r)) (largest id rs)

  unfoldable pub next_id : (R → ℤ) → List R → ℤ
  unfolding largest
  next_id id rs = pos (suc (largest id rs))

module _ {ℓ κ} {R : Type ℓ} {K : Type κ} ⦃e : Eq K⦄ (key : R → K) where
  abbrev pub at_key : K → R → Bool
  at_key k r = key r == k

  abbrev pub has : K → List R → Bool
  has k = any (at_key k)

  abbrev pub row : K → List R → Option R
  row k = find (at_key k)

  -- INSERT … ON CONFLICT(key) DO UPDATE
  unfoldable pub upsert : K → (R → R) → R → List R → List R
  upsert k f r rs = if has k rs then update_where (at_key k) f rs else rs ++ r ∷ []

  -- A key stands in one row at most.
  abbrev pub Keyed : List R → Type 0
  Keyed [] = Unit
  Keyed (r ∷ rs) = (has (key r) rs ≡ false) × Keyed rs
