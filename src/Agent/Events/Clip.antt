-- ===== src/Agent/Events/Clip.antt =====
-- Where a clipped text ends.
use hopskip.Base.{
  ℕ, zero, suc, ◌-◌, ◌≤◌, ◌<◌, ◌≡◌, refl, ap, ◌∙◌, ◌⊎◌, inl, inr, Bool, true, false, List, [], ◌∷◌,
  ◌++◌, arith, leb, if◌then◌else◌, Bool-cases, nat_eq, bytes_eq, pair_eq, int_eq, length, take,
  drop, All,
}
use hopskip.Text.{Bytes}
use hopskip.Base.{concat, concat-append, length-append}
use native.Mathlib.Decide.{dec_le}
use hopskip.Text.{ellipsis}
use hopskip.Agent.Events.{is_rune_start, rune_boundary, clip}

-- The bytes of one character: a first byte, and bytes that are none.
pub record IsRune (r : Bytes) : Type 0 where
  pub first : ℕ
  pub tail : Bytes
  pub split : r ≡ first ∷ tail
  pub start : is_rune_start first ≡ true
  pub continued : All (λ c. is_rune_start c ≡ false) tail

-- A place at the start, at the end, or before a first byte.
abbrev StartsAt : Bytes → Type 0
StartsAt [] = Unit
StartsAt (c ∷ s) = is_rune_start c ≡ true

IsPlace : ℕ → Bytes → Type 0
IsPlace k s = (k ≡ 0) ⊎ StartsAt (drop k s)

rune_boundary-le : (s : Bytes) (n : ℕ) → rune_boundary s n ≤ n
unfolding rune_boundary
rune_boundary-le s zero = omega arith
rune_boundary-le s (suc n) = ground (arith, rune_boundary-le s n)

starts : Bytes → Bool
starts [] = false
starts (c ∷ _) = is_rune_start c

StartsAt-starts : (s : Bytes) → starts s ≡ true → StartsAt s
unfolding starts
StartsAt-starts [] h = tt
StartsAt-starts (c ∷ s) h = h

rune_boundary-suc :
    (s : Bytes) (n : ℕ)
    → rune_boundary s (suc n) ≡ (if starts (drop (suc n) s) then suc n else rune_boundary s n)
unfolding rune_boundary starts
rune_boundary-suc s n = refl

rune_boundary-IsPlace : (s : Bytes) (n : ℕ) → IsPlace (rune_boundary s n) s
unfolding IsPlace
rune_boundary-IsPlace s zero = inl (unfold rune_boundary in refl)
rune_boundary-IsPlace s (suc n) = elim (Bool-cases (starts (drop (suc n) s))) [
  | inl e ↦ rw (rune_boundary-suc s n, e) (inr (StartsAt-starts (drop (suc n) s) e))
  | inr e ↦ rw (rune_boundary-suc s n, e) (rune_boundary-IsPlace s n)
]

-- Inside a character no byte is a first one.
inside :
    (k : ℕ) (t rest : Bytes)
    → All (λ c. is_rune_start c ≡ false) t
    → k < length t
    → StartsAt (drop k (t ++ rest))
    → ⊥
inside k [] rest a h p = omega (arith, h)
inside zero (c ∷ t) rest (a, hs) h p = cc (a, p)
inside (suc k) (c ∷ t) rest (a, hs) h p = inside k t rest hs (omega (arith, h)) p

drop_past : (k : ℕ) (r rest : Bytes) → length r ≤ k → drop k (r ++ rest) ≡ drop (k - length r) rest
drop_past k [] rest h = let e : k - 0 ≡ k = omega arith in rw e refl
drop_past zero (c ∷ r) rest h = absurd (omega (arith, h))
drop_past (suc k) (c ∷ r) rest h =
    let e : suc k - length (c ∷ r) ≡ k - length r = omega arith in
    drop_past k r rest (omega (arith, h)) ∙ rw e refl

-- A place in a text of whole characters is the end of some of them.
places :
    (rs : List Bytes) (k : ℕ)
    → All IsRune rs
    → k ≤ length (concat rs)
    → IsPlace k (concat rs)
    → (pre : List Bytes) × (suf : List Bytes) × (rs ≡ pre ++ suf) × (length (concat pre) ≡ k)
unfolding IsPlace
places [] k _ h _ = ([], [], refl, omega (arith, h))
places (r ∷ rs) zero _ _ _ = ([], r ∷ rs, refl, refl)
places (r ∷ rs) (suc j) (v, vs) h (inl e) = absurd (omega (arith, e))
places (r ∷ rs) (suc j) (v, vs) h (inr p) = elim (dec_le (length r) (suc j)) [
  | yes enough ↦
      let there : StartsAt (drop (suc j - length r) (concat rs)) =
        rw⁻¹ (drop_past (suc j) r (concat rs) enough) p in
      let (pre, suf, e, l) =
        places rs (suc j - length r) vs (omega (arith, h, length-append {0} r (concat rs)))
          (inr there) in
      (r ∷ pre, suf, ap (◌∷◌ r) e, omega (arith, l, length-append {0} r (concat pre), enough))
  | no short ↦
      let here : StartsAt (drop j (v.tail ++ concat rs)) = rw v.split at p in
      absurd
        (inside j v.tail (concat rs) v.continued (omega (arith, short, ap length v.split)) here)
]

leb-false : (a b : ℕ) → leb a b ≡ false → b < a
leb-false a b h = ground arith

take_front : (k : ℕ) (p q : Bytes) → length p ≡ k → take k (p ++ q) ≡ p
take_front zero [] q h = refl
take_front zero (c ∷ p) q h = absurd (omega (arith, h))
take_front (suc k) [] q h = absurd (omega (arith, h))
take_front (suc k) (c ∷ p) q h = ap (◌∷◌ c) (take_front k p q (omega (arith, h)))

take-pre :
    (pre suf : List Bytes) (k : ℕ)
    → length (concat pre) ≡ k
    → (rs : List Bytes) → rs ≡ pre ++ suf
    → take k (concat rs) ≡ concat pre
take-pre pre suf k l rs whole =
    rw (whole, concat-append pre suf) (take_front k (concat pre) (concat suf) l)

-- A text of whole characters that is clipped at n bytes stays as it is where it has no more; else
-- what is left of it is some of its first characters, whole, in at most n bytes, and then "…".
pub clip-IsRune :
    (rs : List Bytes) (n : ℕ)
    → All IsRune rs
    → ((length (concat rs) ≤ n) × (clip (concat rs) n ≡ concat rs))
      ⊎ ((pre : List Bytes) × (suf : List Bytes) × (rs ≡ pre ++ suf)
          × (length (concat pre) ≤ n)
          × (clip (concat rs) n ≡ concat pre ++ ellipsis))
unfolding clip
clip-IsRune rs n v = elim (Bool-cases (leb (length (concat rs)) n)) [
  | inl e ↦ inl (ground arith, rw e refl)
  | inr e ↦
      let s : Bytes = concat rs in
      let k : ℕ = rune_boundary s n in
      let small : k ≤ n = rune_boundary-le s n in
      let (pre, suf, whole, l) =
        places rs k v (omega (arith, small, leb-false (length s) n e))
          (rune_boundary-IsPlace s n) in
      let kept : take k s ≡ concat pre = take-pre pre suf k l rs whole in
      inr (pre, suf, whole, omega (arith, small, l), rw (e, kept) refl)
]
