-- ===== src/Store/Rows/Laws.antt =====
-- Lookups and keys after each statement.
use hopskip.Base.{
  ℕ, suc, ◌≡◌, Bool, true, false, ◌||◌, List, [], ◌∷◌, ◌++◌, Option, none, some, arith, Eq, ◌==◌, ℤ,
  pos, negsuc, pos_part, int_eq, int_leb, if◌then◌else◌, keep, find, any, eq_iff, nat_eq,
  Bool-cases, refl, ap, ◌∙◌, ◌≤◌, ◌<◌, inl, inr, All, int_beq_iff,
}
use mathlib.Core.Option
use hopskip.Store.Rows.{
  update_where, delete_where, largest, next_id, at_key, has, row, upsert, Keyed, insert_by,
  order_by,
}

abbrev pub is_some {ℓ} : {A : Type ℓ} → Option A → Bool
is_some none = false
is_some (some a) = true

module _ {ℓ κ} {R : Type ℓ} {K : Type κ} ⦃e : Eq K⦄ (key : R → K) where
  pub has-row : (k : K) (rs : List R) → has key k rs ≡ is_some (row key k rs)
  unfolding any find
  has-row k [] = refl
  has-row k (r ∷ rs) = ground (arith, has-row k rs)

  -- The row that is found has the key.
  pub row-key : (k : K) (rs : List R) {r : R} → row key k rs ≡ some r → key r ≡ k
  unfolding find
  row-key k [] h = cc
  row-key k (x ∷ rs) {r} h = ground (arith, row-key k rs {r = r}, eq_iff (key x) k)

  pub has-append :
      (k : K) (rs : List R) (r : R)
      → has key k (rs ++ r ∷ []) ≡ (if has key k rs then true else key r == k)
  unfolding any
  has-append k [] r = ground arith
  has-append k (x ∷ rs) r = ground (arith, has-append k rs r)

  pub row-append :
      (k : K) (rs : List R) (r : R)
      → row key k (rs ++ r ∷ [])
        ≡ (if has key k rs then row key k rs else if key r == k then some r else none)
  unfolding find any
  row-append k [] r = refl
  row-append k (x ∷ rs) r = ground (arith, row-append k rs r)

  pub has-delete :
      (k j : K) (rs : List R)
      → has key k (delete_where (at_key key j) rs) ≡ (if k == j then false else has key k rs)
  unfolding any delete_where keep
  has-delete k j [] = ground arith
  has-delete k j (x ∷ rs) =
      ground (arith, has-delete k j rs, eq_iff (key x) j, eq_iff (key x) k, eq_iff k j)

  pub row-delete :
      (k j : K) (rs : List R)
      → row key k (delete_where (at_key key j) rs) ≡ (if k == j then none else row key k rs)
  unfolding find delete_where keep
  row-delete k j [] = ground arith
  row-delete k j (x ∷ rs) =
      ground (arith, row-delete k j rs, eq_iff (key x) j, eq_iff (key x) k, eq_iff k j)

  -- A deletion by any test loses rows only.
  pub has-delete_le :
      (k : K) (p : R → Bool) (rs : List R)
      → has key k rs ≡ false
      → has key k (delete_where p rs) ≡ false
  unfolding any delete_where keep
  has-delete_le k p [] h = refl
  has-delete_le k p (x ∷ rs) h = ground (arith, has-delete_le k p rs)

  pub Keyed-delete : (p : R → Bool) (rs : List R) → Keyed key rs → Keyed key (delete_where p rs)
  unfolding delete_where keep
  Keyed-delete p [] _ = tt
  Keyed-delete p (x ∷ rs) (h, hs) = elim (Bool-cases (p x)) [
    | inl d ↦ rw d (Keyed-delete p rs hs)
    | inr d ↦ rw d (has-delete_le (key x) p rs h, Keyed-delete p rs hs)
  ]

  pub Keyed-append :
      (rs : List R) (r : R) → Keyed key rs → has key (key r) rs ≡ false → Keyed key (rs ++ r ∷ [])
  unfolding any
  Keyed-append [] r _ _ = (refl, tt)
  Keyed-append (x ∷ rs) r (h, hs) n = (
    ground (arith, has-append (key x) rs r, eq_iff (key x) (key r), eq_iff (key r) (key x)),
    Keyed-append rs r hs (ground arith),
  )

  module _ (f : R → R) (keeps : (r : R) → key (f r) ≡ key r) (p : R → Bool) where
    pub has-update : (k : K) (rs : List R) → has key k (update_where p f rs) ≡ has key k rs
    unfolding any update_where
    has-update k [] = refl
    has-update k (x ∷ rs) = ground (arith, has-update k rs, keeps x)

    pub Keyed-update : (rs : List R) → Keyed key rs → Keyed key (update_where p f rs)
    unfolding update_where
    Keyed-update [] _ = tt
    Keyed-update (x ∷ rs) (h, hs) = elim (Bool-cases (p x)) [
      | inl d ↦ rw (d, keeps x) (has-update (key x) rs ∙ h, Keyed-update rs hs)
      | inr d ↦ rw d (has-update (key x) rs ∙ h, Keyed-update rs hs)
    ]

  pub row-update :
      (f : R → R) (keeps : (r : R) → key (f r) ≡ key r) (k j : K) (rs : List R)
      → row key k (update_where (at_key key j) f rs)
        ≡ (if k == j then Option.map f (row key k rs) else row key k rs)
  unfolding find update_where
  row-update f keeps k j [] = ground arith
  row-update f keeps k j (x ∷ rs) =
      ground
        (arith, row-update f keeps k j rs, keeps x, eq_iff (key x) j, eq_iff (key x) k, eq_iff k j)

  pub row-upsert :
      (f : R → R) (keeps : (r : R) → key (f r) ≡ key r) (k j : K) (r : R) (rs : List R)
      → key r ≡ j
      → row key k (upsert key j f r rs) ≡ (
          if k == j
          then some (elim (row key j rs) [ none ↦ r | some old ↦ f old ])
          else row key k rs)
  unfolding upsert
  row-upsert f keeps k j r rs at = ground (
    arith,
    row-update f keeps k j rs,
    row-append k rs r,
    has-row k rs,
    has-row j rs,
    eq_iff (key r) k,
    eq_iff k j,
  )

  pub Keyed-upsert :
      (f : R → R) (keeps : (r : R) → key (f r) ≡ key r) (j : K) (r : R) (rs : List R)
      → key r ≡ j
      → Keyed key rs
      → Keyed key (upsert key j f r rs)
  unfolding upsert
  Keyed-upsert f keeps j r rs at h = elim (Bool-cases (has key j rs)) [
    | inl d ↦ rw d (Keyed-update f keeps (at_key key j) rs h)
    | inr d ↦ rw d (Keyed-append rs r h (rw at d))
  ]

module _ {ℓ} {R : Type ℓ} (id : R → ℤ) where
  below-largest :
      (i : ℤ) (n : ℕ) (rs : List R) → i ≡ pos n → largest id rs < n → has id i rs ≡ false
  unfolding largest any
  below-largest i n [] _ h = refl
  below-largest i n (r ∷ rs) e h = ground (arith, below-largest i n rs e, int_beq_iff (id r) i)

  -- A new row id is in use nowhere.
  pub next_id-fresh : (rs : List R) → has id (next_id id rs) rs ≡ false
  unfolding next_id
  next_id-fresh rs = below-largest (next_id id rs) (suc (largest id rs)) rs refl (omega arith)

-- ORDER BY loses no row and makes none.
module _ {ℓ κ} {R : Type ℓ} {K : Type κ} ⦃e : Eq K⦄ (key : R → K) (le : R → R → Bool) where
  pub has-insert :
      (k : K) (x : R) (rs : List R) → has key k (insert_by le x rs) ≡ (key x == k || has key k rs)
  unfolding any insert_by
  has-insert k x [] = refl
  has-insert k x (y ∷ rs) = ground (arith, has-insert k x rs)

  pub has-order : (k : K) (rs : List R) → has key k (order_by le rs) ≡ has key k rs
  unfolding any order_by
  has-order k [] = refl
  has-order k (x ∷ rs) =
      has-insert k x (order_by le rs) ∙ ap (λ b. key x == k || b) (has-order k rs)

  row-insert :
      (k : K) (x : R) (rs : List R)
      → has key (key x) rs ≡ false
      → row key k (insert_by le x rs) ≡ (if key x == k then some x else row key k rs)
  unfolding any find insert_by
  row-insert k x [] n = refl
  row-insert k x (y ∷ rs) n =
      ground (arith, row-insert k x rs, eq_iff (key x) k, eq_iff (key y) k, eq_iff (key y) (key x))

  pub row-order : (k : K) (rs : List R) → Keyed key rs → row key k (order_by le rs) ≡ row key k rs
  unfolding find order_by
  row-order k [] _ = refl
  row-order k (x ∷ rs) (h, hs) =
      row-insert k x (order_by le rs) (has-order (key x) rs ∙ h)
      ∙ ap (λ o. if key x == k then some x else o) (row-order k rs hs)

-- A row that is last in the order stays last.
module _ {ℓ} {R : Type ℓ} (le : R → R → Bool) (m : R) where
  insert-append :
      (x : R) (rs : List R)
      → le x m ≡ true
      → insert_by le x (rs ++ m ∷ []) ≡ insert_by le x rs ++ m ∷ []
  unfolding insert_by
  insert-append x [] h = rw h
  insert-append x (y ∷ rs) h = ground (arith, insert-append x rs h)

  pub order-append :
      (rs : List R)
      → All (λ r. le r m ≡ true) rs
      → order_by le (rs ++ m ∷ []) ≡ order_by le rs ++ m ∷ []
  unfolding order_by
  order-append [] _ = unfold insert_by in refl
  order-append (x ∷ rs) (h, hs) = rw (order-append rs hs) (insert-append x (order_by le rs) h)

module _ {ℓ} {R : Type ℓ} (id : R → ℤ) where
  largest-le :
      (n : ℕ) (rs : List R) → largest id rs ≤ n → All (λ r. int_leb (id r) (pos (suc n)) ≡ true) rs
  unfolding largest
  largest-le n [] h = tt
  largest-le n (r ∷ rs) h = (below (id r) (omega arith), largest-le n rs (omega arith))
    where
      below : (i : ℤ) → pos_part i ≤ n → int_leb i (pos (suc n)) ≡ true
      below (pos k) h = ground arith
      below (negsuc k) h = refl

  -- A new row id comes after all the others.
  pub next_id-last : (rs : List R) → All (λ r. int_leb (id r) (next_id id rs) ≡ true) rs
  unfolding next_id
  next_id-last rs = largest-le (largest id rs) rs (omega arith)
