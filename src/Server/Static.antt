-- ===== src/Server/Static.antt =====
-- internal/server/server.go: the files of the frontend. A file of the disk is found by its absolute
-- path. `absolute` is `filepath.Abs`, `join_path` is `path.Join`, and `embedded` reads a file of
-- the base shell, none where there is none or it is a directory.
pub mod Names
use mathlib.Core.List.{reverse}
use hopskip.Base.{
  ◌||◌, Bool, true, false, Option, none, some, List, [], ◌∷◌, if◌then◌else◌, ◌==◌, nat_eq, bytes_eq,
  pair_eq, int_eq, lookup,
}
use hopskip.Text.{Bytes, codes}
use hopskip.Text.Search.{has_suffix}
use hopskip.Text.Parts.{split, join}
use hopskip.Store.Db.{M, pure, ◌>>=◌}
use hopskip.Store.Web.{slash, dot_dot, get_web_file}
use hopskip.Store.Web.Paths.{dot}
use hopskip.Server.Settings.{web_export_dir}

abbrev pub popped : List Bytes → List Bytes
popped [] = []
popped (seg ∷ segs) = segs

-- The segments so far, the last one first; ".." at the root stays there.
abbrev pub pushed : Bytes → List Bytes → List Bytes
pushed seg stack =
    if seg == [] || seg == dot then stack else if seg == dot_dot then popped stack else seg ∷ stack

unfoldable pub clean_onto : List Bytes → List Bytes → List Bytes
clean_onto stack [] = reverse stack
clean_onto stack (seg ∷ segs) = clean_onto (pushed seg stack) segs

abbrev pub index_html : Bytes
index_html = codes "index.html"

abbrev pub name_of : List Bytes → Bytes
name_of [] = index_html
name_of (seg ∷ segs) = join (slash ∷ []) (seg ∷ segs)

-- `strings.TrimPrefix(path.Clean("/"+name), "/")`, and what stands for the root.
unfoldable pub web_name : Bytes → Bytes
unfolding clean_onto
web_name name = name_of (clean_onto [] (split slash name))

-- The files of the disk, the one written last first.
abbrev pub Disk : Type 0
Disk = List (Bytes × Bytes)

abbrev pub content_only : Option (Bytes × Bytes) → Option Bytes
content_only none = none
content_only (some (content, _)) = some content

abbrev without_slash : Bytes → Bytes
without_slash [] = []
without_slash (c ∷ s) = if c == slash then s else c ∷ s

-- A page: the bytes, their type, and whether the header `Content-Security-Policy` is set.
pub record Page : Type 0 where
  pub content : Bytes
  pub content_type : Bytes
  pub has_csp : Bool

unfoldable pub content_type : Bytes → Bytes
content_type name =
    if has_suffix name (codes ".html")
    then codes "text/html; charset=utf-8"
    else if has_suffix name (codes ".js") || has_suffix name (codes ".mjs")
    then codes "text/javascript; charset=utf-8"
    else if has_suffix name (codes ".css")
    then codes "text/css; charset=utf-8"
    else if has_suffix name (codes ".json")
    then codes "application/json"
    else if has_suffix name (codes ".svg")
    then codes "image/svg+xml"
    else codes "application/octet-stream"

-- The next layer is asked where this one has no such file.
abbrev pub unless_found : Option Bytes → M (Option Bytes) → M (Option Bytes)
unless_found none other = other
unless_found (some b) other = pure (some b)

module _ (absolute : Bytes → Option Bytes) (join_path : Bytes → Bytes → Bytes)
    (embedded : Bytes → Option Bytes) (web_dir : Bytes) where
  abbrev pub file_at : Option Bytes → Bytes → Disk → Option Bytes
  file_at none name disk = none
  file_at (some dir) name disk = lookup (join_path dir name) disk

  -- A file below a directory, where a directory is set.
  abbrev pub file_below : Bytes → Bytes → Disk → Option Bytes
  file_below dir name disk = if dir == [] then none else file_at (absolute dir) name disk

  -- The file at a clean name, from the first of the four layers that has it.
  unfoldable pub read_layers : Bytes → Disk → M (Option Bytes)
  read_layers name disk = unless_found (file_below web_dir name disk) (
      get_web_file name >>= λ authored.
      unless_found (content_only authored)
        (web_export_dir >>= λ dir. unless_found (file_below dir name disk) (pure (embedded name))))

  unfoldable pub read_static : Bytes → Disk → M (Option Bytes)
  unfolding web_name
  read_static name disk = read_layers (web_name name) disk

  page_or : Bytes → Option Bytes → M (Option Page) → M (Option Page)
  page_or upath none other = other
  page_or upath (some b) other = pure (
      some
        (record { content = b; content_type = content_type upath; has_csp = upath == index_html }))

  -- `handleStatic`: none is the reply 404.
  unfoldable pub handle_static : Bytes → Disk → M (Option Page)
  unfolding read_static page_or
  handle_static url_path disk =
      let trimmed = without_slash url_path in
      let upath = if trimmed == [] then index_html else trimmed in
      read_static upath disk >>= λ found.
      page_or upath found
        (read_static index_html disk >>= λ index. page_or index_html index (pure none))
