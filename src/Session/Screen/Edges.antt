-- ===== src/Session/Screen/Edges.antt =====
-- The first and the last line of a tidy screen.
use mathlib.Core.List.{reverse, reverse-cons, reverse-append, reverse-reverse}
use hopskip.Base.{
  ℕ, ◌+◌, ◌≡◌, refl, sym, ap, ◌∙◌, ◌⊎◌, inl, inr, false, List, [], ◌∷◌, ◌++◌, map, ltb,
  if◌then◌else◌, Bool-cases, ◌==◌, nat_eq, bytes_eq, pair_eq, int_eq, keep,
}
use hopskip.Text.{Bytes}
use hopskip.Text.Trim.{trim_right}
use hopskip.Text.Parts.{split, join}
use hopskip.Session.Screen.{newline, is_blank, drop_empty, collapse, tidy, normalize_screen}
use hopskip.Session.Screen.Tidy.{
  is_text, IsSpaced, StartsInText, EndsInText, keep-reverse, keep-drop_empty, keep-collapse,
  collapse-IsSpaced,
}

drop_empty-StartsInText : (ls : List Bytes) → StartsInText (drop_empty ls)
unfolding drop_empty StartsInText
drop_empty-StartsInText [] = tt
drop_empty-StartsInText (l ∷ ls) = elim (Bool-cases (l == [])) [
  | inl e ↦ rw e (drop_empty-StartsInText ls)
  | inr e ↦ rw e e
]

-- What is dropped stands in front.
drop_empty-append : (ls : List Bytes) → (front : List Bytes) × (front ++ drop_empty ls ≡ ls)
unfolding drop_empty
drop_empty-append [] = ([], refl)
drop_empty-append (l ∷ ls) = elim (Bool-cases (l == [])) [
  | inl e ↦ let (front, h) = drop_empty-append ls in (l ∷ front, rw e (ap (◌∷◌ l) h))
  | inr e ↦ ([], rw e refl)
]

StartsInText-append : (xs ys : List Bytes) → StartsInText (xs ++ ys) → StartsInText xs
unfolding StartsInText
StartsInText-append [] ys h = tt
StartsInText-append (x ∷ xs) ys h = h

-- Dropping lines at the end leaves the first line.
dropped_back-StartsInText :
    (ls : List Bytes) → StartsInText ls → StartsInText (reverse (drop_empty (reverse ls)))
dropped_back-StartsInText ls h =
    let (front, e) = drop_empty-append (reverse ls) in
    let whole : reverse (drop_empty (reverse ls)) ++ reverse front ≡ ls =
      sym (reverse-append front (drop_empty (reverse ls))) ∙ ap reverse e ∙ reverse-reverse ls in
    StartsInText-append _ (reverse front) (rw whole h)

collapse-StartsInText : (ls : List Bytes) → StartsInText ls → StartsInText (collapse 0 ls)
unfolding collapse StartsInText
collapse-StartsInText [] h = tt
collapse-StartsInText (l ∷ ls) h = rw h h

ends_cons : (l : Bytes) (ls : List Bytes) → EndsInText ls → EndsInText (l ∷ ls)
unfolding EndsInText
ends_cons l [] h = elim h [ ]
ends_cons l (m ∷ ls) h = h

ends_append : (ls : List Bytes) (l : Bytes) → (l == []) ≡ false → EndsInText (ls ++ l ∷ [])
unfolding EndsInText
ends_append [] l h = h
ends_append (m ∷ ls) l h = ends_cons m (ls ++ l ∷ []) (ends_append ls l h)

-- Nothing at all, or a text at the end.
abbrev pub IsClosed : List Bytes → Type 0
IsClosed ls = (ls ≡ []) ⊎ EndsInText ls

reversed-IsClosed : (ls : List Bytes) → StartsInText ls → IsClosed (reverse ls)
unfolding StartsInText
reversed-IsClosed [] h = inl refl
reversed-IsClosed (l ∷ ls) h = inr (rw (reverse-cons l ls) (ends_append (reverse ls) l h))

collapse-EndsInText : (n : ℕ) (ls : List Bytes) → EndsInText ls → EndsInText (collapse n ls)
unfolding collapse EndsInText
collapse-EndsInText n [] h = h
collapse-EndsInText n (l ∷ []) h = rw h h
collapse-EndsInText n (l ∷ m ∷ ls) h =
    let count : ℕ = if l == [] then n + 1 else 0 in
    let rest = collapse-EndsInText count (m ∷ ls) h in
    elim (Bool-cases (ltb 1 count)) [
      | inl e ↦ rw e rest
      | inr e ↦ rw e (ends_cons l (collapse count (m ∷ ls)) rest)
    ]

collapse-IsClosed : (ls : List Bytes) → IsClosed ls → IsClosed (collapse 0 ls)
collapse-IsClosed ls (inl e) = inl (rw e (unfold collapse in refl))
collapse-IsClosed ls (inr h) = inr (collapse-EndsInText 0 ls h)

-- A screen as the tools give it: its lines, joined, have no two empty ones in a row; the first and
-- the last are not empty, where there are any; and the lines with text are those of the terminal, in
-- order and with nothing lost but spaces and tabs at their ends.
pub normalize_screen-tidy :
    (s : Bytes)
    → (ls : List Bytes) × (normalize_screen s ≡ join (newline ∷ []) ls)
      × IsSpaced ls
      × StartsInText ls
      × IsClosed ls
      × (keep is_text ls ≡ keep is_text (map (trim_right is_blank) (split newline s)))
unfolding normalize_screen tidy
normalize_screen-tidy s =
    let lines : List Bytes = map (trim_right is_blank) (split newline s) in
    let front : List Bytes = drop_empty lines in
    let back : List Bytes = drop_empty (reverse front) in
    (
      collapse 0 (reverse back),
      refl,
      (collapse-IsSpaced 0 (reverse back)).0,
      collapse-StartsInText (reverse back)
          (dropped_back-StartsInText front (drop_empty-StartsInText lines)),
      collapse-IsClosed (reverse back)
          (reversed-IsClosed back (drop_empty-StartsInText (reverse front))),
      keep-collapse 0 (reverse back)
          ∙ keep-reverse is_text back
          ∙ ap reverse (keep-drop_empty (reverse front) ∙ keep-reverse is_text front)
          ∙ reverse-reverse (keep is_text front)
          ∙ keep-drop_empty lines,
    )
