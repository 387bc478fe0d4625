-- ===== src/Text/Parts.antt =====
-- `strings.Split` at one byte and `strings.Join`.
use hopskip.Base.{
  ℕ, ◌≡◌, ◌≢◌, refl, ap, List, [], ◌∷◌, ◌++◌, append-nil, arith, ◌==◌, nat_eq, Bool-cases, inl, inr,
  ◌∙◌, if◌then◌else◌, All,
}
use hopskip.Text.Defs.{Bytes}

-- One more byte at the front of the first part.
abbrev pub push : ℕ → List Bytes → List Bytes
push c [] = (c ∷ []) ∷ []
push c (p ∷ ps) = (c ∷ p) ∷ ps

unfoldable pub split : ℕ → Bytes → List Bytes
split sep [] = [] ∷ []
split sep (c ∷ s) = let rest = split sep s in if c == sep then [] ∷ rest else push c rest

-- Every part behind the separator.
unfoldable pub separated : Bytes → List Bytes → Bytes
separated sep [] = []
separated sep (p ∷ ps) = sep ++ (p ++ separated sep ps)

unfoldable pub join : Bytes → List Bytes → Bytes
unfolding separated
join sep [] = []
join sep (p ∷ ps) = p ++ separated sep ps

abbrev pub Lacks : ℕ → Bytes → Type 0
Lacks b = All (λ c. c ≢ b)

abbrev pub Parted : List Bytes → Type 0
Parted ps = (p : Bytes) × (rest : List Bytes) × (ps ≡ p ∷ rest)

push-Parted : (c : ℕ) (ps : List Bytes) → Parted (push c ps)
push-Parted c [] = (c ∷ [], [], refl)
push-Parted c (p ∷ ps) = (c ∷ p, ps, refl)

push-Lacks :
    (sep c : ℕ) (ps : List Bytes) → c ≢ sep → All (Lacks sep) ps → All (Lacks sep) (push c ps)
push-Lacks sep c [] h _ = ((h, tt), tt)
push-Lacks sep c (p ∷ ps) h (hp, hs) = ((h, hp), hs)

join-push : (sep : Bytes) (c : ℕ) (ps : List Bytes) → join sep (push c ps) ≡ c ∷ join sep ps
unfolding join separated
join-push sep c [] = refl
join-push sep c (p ∷ ps) = refl

join-nil : (sep : Bytes) (ps : List Bytes) → Parted ps → join sep ([] ∷ ps) ≡ sep ++ join sep ps
unfolding join separated
join-nil sep ps (p, rest, e) = rw e

module _ (sep : ℕ) where
  -- A split has at least one part.
  pub split-Parted : (s : Bytes) → Parted (split sep s)
  unfolding split
  split-Parted [] = ([], [], refl)
  split-Parted (c ∷ s) = elim (Bool-cases (c == sep)) [
    | inl e ↦ rw e ([], split sep s, refl)
    | inr e ↦ rw e (push-Parted c (split sep s))
  ]

  -- No part holds the separator.
  pub split-Lacks : (s : Bytes) → All (Lacks sep) (split sep s)
  unfolding split
  split-Lacks [] = (tt, tt)
  split-Lacks (c ∷ s) = elim (Bool-cases (c == sep)) [
    | inl e ↦ rw e (tt, split-Lacks s)
    | inr e ↦ rw e (push-Lacks sep c (split sep s) (ground arith) (split-Lacks s))
  ]

  pub join-split : (s : Bytes) → join (sep ∷ []) (split sep s) ≡ s
  unfolding split
  join-split [] = unfold join separated in refl
  join-split (c ∷ s) = elim (Bool-cases (c == sep)) [
    | inl e ↦
        rw (e, join-nil (sep ∷ []) (split sep s) (split-Parted s), join-split s) (ground arith)
    | inr e ↦ rw (e, join-push (sep ∷ []) c (split sep s), join-split s)
  ]

  split-append : (p s : Bytes) → Lacks sep p → split sep (p ++ sep ∷ s) ≡ p ∷ split sep s
  unfolding split
  split-append [] s _ = ground arith
  split-append (c ∷ p) s (h, hs) = ground (arith, split-append p s)

  split_one : (p : Bytes) → Lacks sep p → split sep p ≡ p ∷ []
  unfolding split
  split_one [] _ = refl
  split_one (c ∷ p) (h, hs) = ground (arith, split_one p)

  pub split-join :
      (p : Bytes) (ps : List Bytes)
      → Lacks sep p
      → All (Lacks sep) ps
      → split sep (join (sep ∷ []) (p ∷ ps)) ≡ p ∷ ps
  unfolding join separated
  split-join p [] h _ = rw append-nil (split_one p h)
  split-join p (q ∷ ps) h (hq, hs) = split-append p _ h ∙ ap (◌∷◌ p) (split-join q ps hq hs)

module _ {ℓ} (P : ℕ → Type ℓ) (sep : ℕ) where
  push-All : (c : ℕ) (ps : List Bytes) → P c → All (All P) ps → All (All P) (push c ps)
  push-All c [] h _ = ((h, tt), tt)
  push-All c (p ∷ ps) h (hp, hs) = ((h, hp), hs)

  -- The parts hold bytes of the text.
  pub split-All : (s : Bytes) → All P s → All (All P) (split sep s)
  unfolding split
  split-All [] _ = (tt, tt)
  split-All (c ∷ s) (h, hs) = elim (Bool-cases (c == sep)) [
    | inl e ↦ rw e (tt, split-All s hs)
    | inr e ↦ rw e (push-All c (split sep s) h (split-All s hs))
  ]
