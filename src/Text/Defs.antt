-- ===== src/Text/Defs.antt =====
-- Byte strings and literals.
use Prim.Native.Char.{code}
use Prim.Native.String.{String}
use hopskip.Base.{ℕ, List, [], ◌∷◌, map, ◌==◌, nat_eq, if◌then◌else◌}

abbrev pub Bytes : Type 0
Bytes = List ℕ

-- The code points of a literal: its bytes, where it is ASCII.
abbrev pub codes : String → Bytes
codes String.[] = []
codes (String.◌∷◌ c s) = code c ∷ codes s

-- `strings.ReplaceAll` of one byte by another.
unfoldable pub replace : ℕ → ℕ → Bytes → Bytes
replace old new = map (λ c. if c == old then new else c)

-- The UTF-8 bytes of "…".
abbrev pub ellipsis : Bytes
ellipsis = 0xe2 ∷ 0x80 ∷ 0xa6 ∷ []
