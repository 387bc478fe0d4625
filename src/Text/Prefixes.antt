-- ===== src/Text/Prefixes.antt =====
-- What `has_prefix` of Text.Search decides.
use hopskip.Base.{
  ◌≡◌, refl, ap, true, [], ◌∷◌, ◌++◌, drop, length, arith, nat_eq, bytes_eq, pair_eq, int_eq,
}
use hopskip.Text.Defs.{Bytes}
use hopskip.Text.Search.{has_prefix}

-- A text with a prefix is the prefix and the rest.
pub has_prefix-drop : (s p : Bytes) → has_prefix s p ≡ true → s ≡ p ++ drop (length p) s
unfolding has_prefix
has_prefix-drop s [] h = refl
has_prefix-drop [] (p ∷ ps) h = absurd (cc)
has_prefix-drop (c ∷ s) (p ∷ ps) h =
    let same : c ≡ p = ground (arith, h) in
    let tail : has_prefix s ps ≡ true = ground (arith, h) in
    rw same (ap (◌∷◌ p) (has_prefix-drop s ps tail))

pub has_prefix-append : (p s : Bytes) → has_prefix (p ++ s) p ≡ true
unfolding has_prefix
has_prefix-append [] [] = refl
has_prefix-append [] (c ∷ s) = refl
has_prefix-append (c ∷ p) s = let rest = has_prefix-append p s in ground (arith, rest)
