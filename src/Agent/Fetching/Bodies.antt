-- ===== src/Agent/Fetching/Bodies.antt =====
-- internal/agent/tools.go: `capWriter` and `looksTextual`, with utf8.Valid.
use hopskip.Base.{
  ℕ, ◌-◌, ◌*◌, ◌||◌, ◌&&◌, Bool, true, false, Option, none, some, List, [], ◌∷◌, ◌++◌, any, keep,
  take, length, leb, ltb, if◌then◌else◌, ◌==◌, nat_eq, bytes_eq, pair_eq, int_eq,
}
use hopskip.Text.{Bytes, codes}
use hopskip.Text.Search.{contains, to_lower}

unfoldable pub concat : List Bytes → Bytes
concat [] = []
concat (p ∷ ps) = p ++ concat ps

-- `capWriter.Write`
unfoldable pub cap_write : (max : ℕ) (buf p : Bytes) → Bytes
cap_write max buf p = if ltb (length buf) max then buf ++ take (max - length buf) p else buf

unfoldable pub cap_all : (max : ℕ) (buf : Bytes) → List Bytes → Bytes
unfolding cap_write
cap_all max buf [] = buf
cap_all max buf (p ∷ ps) = cap_all max (cap_write max buf p) ps

-- The ranges of the bytes that follow a first byte of UTF-8; none where it begins no character.
abbrev pub continuation : ℕ × ℕ
continuation = (0x80, 0xbf)

unfoldable pub followers : ℕ → Option (List (ℕ × ℕ))
followers c =
    if ltb c 0x80
    then some []
    else if leb 0xc2 c && leb c 0xdf
    then some (continuation ∷ [])
    else if c == 0xe0
    then some ((0xa0, 0xbf) ∷ continuation ∷ [])
    else if c == 0xed
    then some ((0x80, 0x9f) ∷ continuation ∷ [])
    else if leb 0xe1 c && leb c 0xef
    then some (continuation ∷ continuation ∷ [])
    else if c == 0xf0
    then some ((0x90, 0xbf) ∷ continuation ∷ continuation ∷ [])
    else if leb 0xf1 c && leb c 0xf3
    then some (continuation ∷ continuation ∷ continuation ∷ [])
    else if c == 0xf4
    then some ((0x80, 0x8f) ∷ continuation ∷ continuation ∷ [])
    else none

-- `utf8.Valid`, with the bytes that the last character still wants.
unfoldable pub valid_from : List (ℕ × ℕ) → Bytes → Bool
unfolding followers
valid_from [] [] = true
valid_from (_ ∷ _) [] = false
valid_from ((lo, hi) ∷ wanted) (c ∷ s) = (leb lo c && leb c hi) && valid_from wanted s
valid_from [] (c ∷ s) = elim (followers c) [ none ↦ false | some wanted ↦ valid_from wanted s ]

abbrev pub is_control : ℕ → Bool
is_control b = ltb b 9 || (ltb 13 b && ltb b 32) || b == 127

abbrev textual_types : List Bytes
textual_types =
    codes "text/"
    ∷ codes "json"
    ∷ codes "xml"
    ∷ codes "yaml"
    ∷ codes "yml"
    ∷ codes "javascript"
    ∷ codes "ecmascript"
    ∷ codes "shell"
    ∷ codes "x-sh"
    ∷ codes "csv"
    ∷ codes "x-www-form"
    ∷ codes "toml"
    ∷ []

unfoldable pub looks_textual : (content_type sample : Bytes) → Bool
unfolding valid_from
looks_textual content_type sample =
    let c = to_lower content_type in
    if any (contains c) textual_types
    then true
    else if c == [] || contains c (codes "octet-stream")
    then valid_from [] sample
      && (sample == [] || ltb (length (keep is_control sample) * 20) (length sample))
    else false
