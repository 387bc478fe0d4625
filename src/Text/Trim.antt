-- ===== src/Text/Trim.antt =====
-- `strings.TrimSpace`, `TrimLeft`, `TrimRight`, `TrimPrefix` and `TrimSuffix`.
use mathlib.Core.List.{reverse}
use hopskip.Base.{ℕ, zero, suc, Bool, ◌&&◌, ◌||◌, [], ◌∷◌, ◌==◌, nat_eq, leb, if◌then◌else◌}
use hopskip.Text.Defs.{Bytes}

abbrev pub ascii_space : ℕ → Bool
ascii_space c = (leb 9 c && leb c 13) || c == 32

-- U+0085 and U+00A0, from their first byte.
abbrev pub two_byte_space : ℕ → ℕ → Bool
two_byte_space c d = c == 0xc2 && (d == 0x85 || d == 0xa0)

-- U+1680, U+2000 to U+200A, U+2028, U+2029, U+202F, U+205F and U+3000, from their first byte.
abbrev pub three_byte_space : ℕ → ℕ → ℕ → Bool
three_byte_space c d e =
    (c == 0xe1 && d == 0x9a && e == 0x80)
    || (c == 0xe2 && d == 0x80 && (leb 0x80 e && leb e 0x8a || e == 0xa8 || e == 0xa9 || e == 0xaf))
    || (c == 0xe2 && d == 0x81 && e == 0x9f)
    || (c == 0xe3 && d == 0x80 && e == 0x80)

-- The bytes that white space at the front takes, 0 where there is none.
unfoldable pub front_space : Bytes → ℕ
front_space [] = 0
front_space (c ∷ []) = if ascii_space c then 1 else 0
front_space (c ∷ d ∷ []) = if ascii_space c then 1 else if two_byte_space c d then 2 else 0
front_space (c ∷ d ∷ e ∷ s) =
    if ascii_space c
    then 1
    else if two_byte_space c d
    then 2
    else if three_byte_space c d e
    then 3
    else 0

-- The same at the end of a text that is given from its last byte backwards.
unfoldable pub back_space : Bytes → ℕ
back_space [] = 0
back_space (c ∷ []) = if ascii_space c then 1 else 0
back_space (c ∷ d ∷ []) = if ascii_space c then 1 else if two_byte_space d c then 2 else 0
back_space (c ∷ d ∷ e ∷ s) =
    if ascii_space c
    then 1
    else if two_byte_space d c
    then 2
    else if three_byte_space e d c
    then 3
    else 0

-- The number is how many bytes of the current white space are still to be dropped.
unfoldable pub skip : (Bytes → ℕ) → ℕ → Bytes → Bytes
skip width n [] = []
skip width (suc n) (c ∷ s) = skip width n s
skip width zero (c ∷ s) = elim (width (c ∷ s)) [ zero ↦ c ∷ s | suc n ↦ skip width n s ]

unfoldable pub trim_space : Bytes → Bytes
unfolding skip front_space back_space
trim_space s = reverse (skip back_space 0 (reverse (skip front_space 0 s)))

unfoldable pub drop_while : (ℕ → Bool) → Bytes → Bytes
drop_while p [] = []
drop_while p (c ∷ s) = let rest = drop_while p s in if p c then rest else c ∷ s

unfoldable pub trim_left : (ℕ → Bool) → Bytes → Bytes
unfolding drop_while
trim_left p s = drop_while p s

unfoldable pub trim_right : (ℕ → Bool) → Bytes → Bytes
unfolding drop_while
trim_right p s = reverse (drop_while p (reverse s))
