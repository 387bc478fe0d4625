-- ===== src/Session/Screen/Tidy.antt =====
-- What a tidy screen keeps, and what it never has.
use mathlib.Core.List.{reverse, reverse-cons}
use hopskip.Base.{
  ℕ, zero, suc, ◌+◌, ◌≤◌, ◌≡◌, refl, sym, ap, ◌∙◌, inl, inr, Bool, true, false, not, ◌&&◌, List, [],
  ◌∷◌, ◌++◌, append-nil, arith, ltb, if◌then◌else◌, Bool-cases, ◌==◌, nat_eq, bytes_eq, pair_eq,
  int_eq, keep,
}
use hopskip.Text.{Bytes}
use hopskip.Session.Screen.{drop_empty, collapse}

abbrev pub is_text : Bytes → Bool
is_text l = not (l == [])

-- No two empty lines in a row.
abbrev pub IsSpaced : List Bytes → Type 0
IsSpaced [] = Unit
IsSpaced (l ∷ []) = Unit
IsSpaced (l ∷ m ∷ ls) = ((l == [] && m == []) ≡ false) × IsSpaced (m ∷ ls)

pub keep-append :
    (p : Bytes → Bool) (xs ys : List Bytes) → keep p (xs ++ ys) ≡ keep p xs ++ keep p ys
unfolding keep
keep-append p [] ys = refl
keep-append p (x ∷ xs) ys = ground (arith, keep-append p xs ys)

reverse-keep_one :
    (p : Bytes → Bool) (x : Bytes) (xs : List Bytes)
    → reverse xs ++ keep p (x ∷ []) ≡ reverse (if p x then x ∷ xs else xs)
unfolding keep
reverse-keep_one p x xs = elim (Bool-cases (p x)) [
  | inl e ↦ rw e (sym (reverse-cons x xs))
  | inr e ↦ rw e (append-nil (reverse xs))
]

pub keep-reverse : (p : Bytes → Bool) (xs : List Bytes) → keep p (reverse xs) ≡ reverse (keep p xs)
unfolding keep
keep-reverse p [] = refl
keep-reverse p (x ∷ xs) =
    ap (keep p) (reverse-cons x xs)
    ∙ keep-append p (reverse xs) (x ∷ [])
    ∙ ap (λ ys. ys ++ keep p (x ∷ [])) (keep-reverse p xs)
    ∙ reverse-keep_one p x (keep p xs)

pub keep-drop_empty : (ls : List Bytes) → keep is_text (drop_empty ls) ≡ keep is_text ls
unfolding keep drop_empty
keep-drop_empty [] = refl
keep-drop_empty (l ∷ ls) = ground (arith, keep-drop_empty ls)

pub keep-collapse : (n : ℕ) (ls : List Bytes) → keep is_text (collapse n ls) ≡ keep is_text ls
unfolding keep collapse
keep-collapse n [] = refl
keep-collapse n (l ∷ ls) = ground (arith, keep-collapse (n + 1) ls, keep-collapse 0 ls)

unfoldable pub StartsInText : List Bytes → Type 0
StartsInText [] = Unit
StartsInText (l ∷ ls) = (l == []) ≡ false

unfoldable pub EndsInText : List Bytes → Type 0
EndsInText [] = ⊥
EndsInText (l ∷ []) = (l == []) ≡ false
EndsInText (l ∷ m ∷ ls) = EndsInText (m ∷ ls)

IsSpaced-cons :
    (l : Bytes) (ls : List Bytes)
    → IsSpaced ls
    → ((l == []) ≡ true → StartsInText ls)
    → IsSpaced (l ∷ ls)
unfolding StartsInText
IsSpaced-cons l [] h k = tt
IsSpaced-cons l (m ∷ ls) h k = (ground (arith, k), h)

pub collapse-IsSpaced :
    (n : ℕ) (ls : List Bytes) → IsSpaced (collapse n ls) × (1 ≤ n → StartsInText (collapse n ls))
unfolding collapse StartsInText
collapse-IsSpaced n [] = (tt, λ h. tt)
collapse-IsSpaced zero (l ∷ ls) = elim (Bool-cases (l == [])) [
  | inl e ↦
      let (h, k) = collapse-IsSpaced 1 ls in
      rw e (IsSpaced-cons l _ h (λ _. k (omega arith)), λ o. absurd (omega (arith, o)))
  | inr e ↦
      let (h, k) = collapse-IsSpaced 0 ls in
      rw e (IsSpaced-cons l _ h (λ t. absurd (cc (t, e))), λ o. e)
]
collapse-IsSpaced (suc n) (l ∷ ls) = elim (Bool-cases (l == [])) [
  | inl e ↦
      let (h, k) = collapse-IsSpaced (suc n + 1) ls in
      let many : ltb 1 (suc n + 1) ≡ true = ground arith in rw (e, many) (h, λ o. k (omega arith))
  | inr e ↦
      let (h, k) = collapse-IsSpaced 0 ls in
      rw e (IsSpaced-cons l _ h (λ t. absurd (cc (t, e))), λ o. e)
]
