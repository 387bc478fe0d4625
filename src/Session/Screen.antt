-- ===== src/Session/Screen.antt =====
-- internal/session/manager.go: the rendered screen as the tools give it.
pub mod Tidy
pub mod Edges
use mathlib.Core.List.{reverse}
use hopskip.Base.{
  ℕ, zero, suc, ◌+◌, ◌-◌, ◌*◌, ◌≤◌, ◌<◌, ◌≡◌, refl, sym, ap, ◌∙◌, ◌≢◌, ◌↔◌, ◌⊎◌, inl, inr, Bool,
  true, false, not, ◌&&◌, ◌||◌, Option, none, some, List, [], ◌∷◌, ◌++◌, map, append-nil,
  append_assoc, arith, ltb, leb, if◌then◌else◌, Bool-cases, Option-cases, Eq, ◌==◌, eq_iff, eq_refl,
  nat_eq, bytes_eq, bytes_beq, bytes_beq_iff, pair_eq, bytes_leb, ℤ, pos, negsuc, int_eq, int_leb,
  int_beq_iff, length, take, drop, min, keep, find, any, all, All,
}
use hopskip.Text.{Bytes, codes}
use hopskip.Text.{replace}
use hopskip.Text.Trim.{trim_right}
use hopskip.Text.Parts.{split, join}
use hopskip.Text.Search.{contains}

abbrev pub newline : ℕ
newline = 10

abbrev pub is_blank : ℕ → Bool
is_blank c = c == 32 || c == 9

-- The lines behind the empty ones at the front.
unfoldable pub drop_empty : List Bytes → List Bytes
drop_empty [] = []
drop_empty (l ∷ ls) = let rest = drop_empty ls in if l == [] then rest else l ∷ ls

-- `blank` empty lines stand directly before; of a run of them the first is kept.
unfoldable pub collapse : ℕ → List Bytes → List Bytes
collapse blank [] = []
collapse blank (l ∷ ls) =
    let count = if l == [] then blank + 1 else 0 in
    let rest = collapse count ls in if ltb 1 count then rest else l ∷ rest

unfoldable pub tidy : List Bytes → List Bytes
unfolding drop_empty collapse
tidy ls = collapse 0 (reverse (drop_empty (reverse (drop_empty (map (trim_right is_blank) ls)))))

-- `normalizeScreen`
unfoldable pub normalize_screen : Bytes → Bytes
unfolding tidy
normalize_screen s = join (newline ∷ []) (tidy (split newline s))

-- The end of `Capture`: the last lines, where their number is given.
unfoldable pub last_lines : ℤ → Bytes → Bytes
last_lines (pos n) screen =
    let ll = split newline screen in
    if ltb 0 n && ltb n (length ll) then join (newline ∷ []) (drop (length ll - n) ll) else screen
last_lines (negsuc n) screen = screen

abbrev pub sentinel : Bytes
sentinel = codes "__HOPSKIP_DONE_"

-- `stripSentinel`
unfoldable pub strip_sentinel : Bytes → Bytes
unfolding contains
strip_sentinel screen =
    join (newline ∷ []) (keep (λ l. not (contains l sentinel)) (split newline screen))

-- `toCR`
unfoldable pub to_cr : Bytes → Bytes
unfolding replace
to_cr = replace newline 13
