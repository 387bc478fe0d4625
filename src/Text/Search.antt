-- ===== src/Text/Search.antt =====
-- `strings.HasPrefix`, `HasSuffix`, `Contains` and `ToLower` of ASCII letters.
use mathlib.Core.List.{reverse}
use hopskip.Base.{
  ◌+◌, Bool, true, false, ◌&&◌, ◌||◌, [], ◌∷◌, map, ◌==◌, nat_eq, leb, if◌then◌else◌,
}
use hopskip.Text.Defs.{Bytes}

unfoldable pub has_prefix : Bytes → Bytes → Bool
has_prefix s [] = true
has_prefix [] (p ∷ ps) = false
has_prefix (c ∷ s) (p ∷ ps) = c == p && has_prefix s ps

unfoldable pub has_suffix : Bytes → Bytes → Bool
unfolding has_prefix
has_suffix s p = has_prefix (reverse s) (reverse p)

unfoldable pub contains : Bytes → Bytes → Bool
unfolding has_prefix
contains [] sub = has_prefix [] sub
contains (c ∷ s) sub = has_prefix (c ∷ s) sub || contains s sub

-- Bytes outside A to Z stay as they are.
unfoldable pub to_lower : Bytes → Bytes
to_lower = map (λ c. if leb b'A' c && leb c b'Z' then c + 32 else c)
