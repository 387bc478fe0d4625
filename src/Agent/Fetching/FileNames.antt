-- ===== src/Agent/Fetching/FileNames.antt =====
-- internal/agent/tools.go: `safeName` and `filenameFromURL`, with path.Base.
use hopskip.Base.{
  ℕ, ◌||◌, Option, none, some, List, [], ◌∷◌, if◌then◌else◌, ◌==◌, nat_eq, bytes_eq, pair_eq,
  int_eq,
}
use hopskip.Text.{Bytes, codes}
use hopskip.Text.{replace}
use hopskip.Text.Trim.{trim_right}
use hopskip.Text.Parts.{split}

abbrev pub slash : ℕ
slash = b'/'

abbrev pub download : Bytes
download = codes "download"

abbrev pub last_part : List Bytes → Bytes
last_part [] = []
last_part (p ∷ []) = p
last_part (p ∷ q ∷ ps) = last_part (q ∷ ps)

-- `path.Base`
unfoldable pub path_base : Bytes → Bytes
path_base s =
    let base = last_part (split slash (trim_right (λ c. c == slash) s)) in
    if s == [] then b'.' ∷ [] else if base == [] then slash ∷ [] else base

unfoldable pub safe_name : Bytes → Bytes
unfolding path_base
safe_name name =
    let base = replace b' ' b'_' (path_base (replace b'\\' slash name)) in
    if base == [] || base == b'.' ∷ [] || base == b'.' ∷ b'.' ∷ [] then download else base

abbrev base_or_download : Bytes → Bytes
base_or_download base =
    if base == [] || base == slash ∷ [] || base == b'.' ∷ [] then download else base

-- The path of the URL, none where net/url does not parse it.
unfoldable pub filename_from_url : Option Bytes → Bytes
unfolding path_base
filename_from_url none = download
filename_from_url (some path) = base_or_download (path_base path)
