-- ===== src/Store/Web.antt =====
-- internal/store/web.go: the authored frontend files, their paths, and the extension manifest.
pub mod Paths
pub mod Reading
use hopskip.Base.{
  ℕ, zero, suc, ◌+◌, ◌-◌, ◌≤◌, ◌<◌, ◌≡◌, refl, sym, ap, ◌∙◌, ◌≢◌, ◌↔◌, ◌⊎◌, inl, inr, Bool, true,
  false, not, ◌&&◌, ◌||◌, Option, none, some, List, [], ◌∷◌, ◌++◌, map, append-nil, append_assoc,
  arith, ltb, leb, if◌then◌else◌, Bool-cases, Option-cases, Eq, ◌==◌, eq_iff, eq_refl, nat_eq,
  bytes_eq, bytes_beq_iff, pair_eq, bytes_leb, ℤ, pos, negsuc, int_eq, int_leb, int_beq_iff, length,
  take, drop, keep, find, any, all, All,
}
use hopskip.Text.{Bytes, codes}
use hopskip.Text.{replace}
use hopskip.Text.Trim.{trim_space, trim_left}
use hopskip.Text.Parts.{split, join}
use hopskip.Store.Tables.{Tables, WebFileRow, Extension, Error}
use hopskip.Store.Rows.{
  update_where, delete_where, order_by, next_id, at_key, has, row, upsert, Keyed,
}
use hopskip.Store.Db.{
  Result, ok, err, Db, M, calm, pure, fail, exec, query, catch, ◌>>=◌, ◌>>◌, transaction, result_or,
}

pub record WebFile : Type 0 where
  pub path : Bytes
  pub content_type : Bytes
  pub size : ℕ
  pub created_by : Bytes
  pub updated_at : Bytes

abbrev pub slash : ℕ
slash = b'/'

abbrev pub dot_dot : Bytes
dot_dot = b'.' ∷ b'.' ∷ []

-- The loop over the segments: none where one of them is "..".
unfoldable pub clean_segments : List Bytes → Option (List Bytes)
clean_segments [] = some []
clean_segments (seg ∷ segs) =
    let rest = clean_segments segs in
    if seg == [] || seg == b'.' ∷ []
    then rest
    else if seg == dot_dot
    then none
    else elim rest [ none ↦ none | some out ↦ some (seg ∷ out) ]

joined : Option (List Bytes) → Option Bytes
joined none = none
joined (some []) = none
joined (some (seg ∷ segs)) = some (join (slash ∷ []) (seg ∷ segs))

unfoldable pub normalize_web_path : Bytes → Option Bytes
unfolding clean_segments joined
normalize_web_path p =
    let q = trim_left (λ c. c == slash) (replace b'\\' slash (trim_space p)) in
    if q == [] then none else joined (clean_segments (split slash q))

abbrev pub web_path : WebFileRow → Bytes
web_path f = f.path

abbrev pub agent : Bytes
agent = codes "agent"

abbrev pub or_agent : Bytes → Bytes
or_agent created_by = if created_by == [] then agent else created_by

unfoldable pub put_web_file : Bytes → Bytes → Bytes → Bytes → Bytes → M Unit
put_web_file now path content content_type created_by = exec λ t.
    let new : WebFileRow = record {
      path = path;
      content = content;
      content_type = content_type;
      created_by = or_agent created_by;
      updated_at = now;
    } in
    let fresh = λ (f : WebFileRow). record f {
      content = content;
      content_type = content_type;
      created_by = or_agent created_by;
      updated_at = now;
    } in
    ok (tt, record t { web_files = upsert web_path path fresh new t.web_files })

abbrev pub content_of : Option WebFileRow → Option (Bytes × Bytes)
content_of none = none
content_of (some f) = some (f.content, f.content_type)

-- Any error reads as a file that is absent.
unfoldable pub get_web_file : Bytes → M (Option (Bytes × Bytes))
get_web_file path = do
  found ← catch (query (λ t. content_of (row web_path path t.web_files)))
  pure (result_or found none)

abbrev pub listed : WebFileRow → WebFile
listed f = record {
  path = f.path;
  content_type = f.content_type;
  size = length f.content;
  created_by = f.created_by;
  updated_at = f.updated_at;
}

unfoldable pub list_web_files : M (List WebFile)
list_web_files = query (λ t. map listed (order_by (λ a b. bytes_leb a.path b.path) t.web_files))

unfoldable pub delete_web_file : Bytes → M Unit
delete_web_file path =
    exec λ t. ok (tt, record t { web_files = delete_where (at_key web_path path) t.web_files })

abbrev pub extension_slug : Extension → Bytes
extension_slug e = e.slug

abbrev pub extension_id : Extension → ℤ
extension_id e = e.id

-- ON CONFLICT(slug): `created_by` and `created_at` stay as they were.
abbrev pub revise : Bytes → Extension → Extension → Extension
revise now e old = record old {
  kind = e.kind;
  mount = e.mount;
  entry = e.entry;
  title = e.title;
  sdk_range = e.sdk_range;
  enabled = e.enabled;
  updated_at = now;
  content_hash = e.content_hash;
  notes = e.notes;
}

unfoldable pub upsert_extension : Bytes → Extension → M Unit
upsert_extension now e = exec λ t.
    let new : Extension = record e {
      id = next_id extension_id t.web_extensions;
      created_by = or_agent e.created_by;
      created_at = now;
      updated_at = now;
    } in
    ok (
      tt,
      record t {
        web_extensions = upsert extension_slug e.slug (revise now e) new t.web_extensions;
      },
    )

abbrev pub is_enabled : Extension → Bool
is_enabled e = e.enabled

unfoldable pub list_extensions : Bool → M (List Extension)
list_extensions enabled_only = query λ t.
    order_by (λ a b. bytes_leb a.slug b.slug)
      (if enabled_only then keep is_enabled t.web_extensions else t.web_extensions)

pub set_extension_enabled : Bytes → Bytes → Bool → M Unit
set_extension_enabled now slug enabled = exec λ t.
    let toggle = λ (e : Extension). record e { enabled = enabled; updated_at = now } in
    ok (
      tt,
      record t {
        web_extensions = update_where (at_key extension_slug slug) toggle t.web_extensions;
      },
    )

unfoldable pub delete_extension : Bytes → M Unit
delete_extension slug = exec λ t.
    ok
      (tt, record t { web_extensions = delete_where (at_key extension_slug slug) t.web_extensions })
