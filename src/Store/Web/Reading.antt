-- ===== src/Store/Web/Reading.antt =====
-- A file that is stored and read, and an extension that is registered again.
use hopskip.Base.{
  ◌≡◌, refl, ap, ◌∙◌, Bool, true, false, Option, none, some, if◌then◌else◌, ◌==◌, nat_eq, bytes_eq,
  pair_eq, int_eq,
}
use hopskip.Text.{Bytes}
use hopskip.Store.Rows.{next_id, row, upsert}
use hopskip.Store.Db.{ok, calm, ◌>>=◌}
use hopskip.Store.Tables.{Tables, WebFileRow, Extension}
use hopskip.Store.Rows.Laws.{row-upsert}
use hopskip.Store.Web.{
  web_path, content_of, or_agent, put_web_file, get_web_file, extension_slug, extension_id, revise,
  upsert_extension,
}

abbrev pub content_at : Bytes → Tables → Option (Bytes × Bytes)
content_at path t = content_of (row web_path path t.web_files)

abbrev written : (now path content content_type created_by : Bytes) → WebFileRow
written now path content content_type created_by = record {
  path = path;
  content = content;
  content_type = content_type;
  created_by = or_agent created_by;
  updated_at = now;
}

abbrev rewritten : (now content content_type created_by : Bytes) → WebFileRow → WebFileRow
rewritten now content content_type created_by f = record f {
  content = content;
  content_type = content_type;
  created_by = or_agent created_by;
  updated_at = now;
}

content_of-if :
    (b : Bool) (now path content content_type created_by : Bytes) (o other : Option WebFileRow)
    → content_of (
        if b
        then some (elim o [
          | none ↦ written now path content content_type created_by
          | some old ↦ rewritten now content content_type created_by old
        ])
        else other)
      ≡ (if b then some (content, content_type) else content_of other)
content_of-if true now path content content_type created_by none other = refl
content_of-if true now path content content_type created_by (some old) other = refl
content_of-if false now path content content_type created_by o other = refl

get_web_file_lem :
    (path : Bytes) (t : Tables) → get_web_file path (calm t) ≡ (ok (content_at path t), calm t)
unfolding get_web_file ◌>>=◌
get_web_file_lem path t = refl

-- With a driver that fails nothing, a file that is stored is read back at its path, in place of any
-- older content, and every other path reads as before.
pub put_web_file-get_web_file :
    (now path content content_type created_by : Bytes) (t : Tables)
    → (u : Tables) × (put_web_file now path content content_type created_by (calm t)
        ≡ (ok tt, calm u))
      × ((p : Bytes)
          → get_web_file p (calm u)
            ≡ (ok (if p == path then some (content, content_type) else content_at p t), calm u))
unfolding put_web_file ◌>>=◌
put_web_file-get_web_file now path content content_type created_by t =
    let new = written now path content content_type created_by in
    let fresh = rewritten now content content_type created_by in
    let u : Tables = record t { web_files = upsert web_path path fresh new t.web_files } in
    (
      u,
      refl,
      λ p.
          get_web_file_lem p u
          ∙ ap (λ o. (ok o, calm u))
              (ap content_of (row-upsert web_path fresh (λ f. refl) p path new t.web_files refl)
                ∙ content_of-if (p == path) now path content content_type created_by
                    (row web_path path t.web_files) (row web_path p t.web_files)),
    )

abbrev pub inserted : Bytes → Tables → Extension → Extension
inserted now t e = record e {
  id = next_id extension_id t.web_extensions;
  created_by = or_agent e.created_by;
  created_at = now;
  updated_at = now;
}

-- With a driver that fails nothing, an extension that is registered again keeps its id, its author
-- and the time of its first registration, and takes everything else from the new registration; one
-- that is new is inserted; and the extensions of other slugs stay.
pub upsert_extension_lem :
    (now : Bytes) (e : Extension) (t : Tables)
    → (u : Tables) × (upsert_extension now e (calm t) ≡ (ok tt, calm u))
      × ((slug : Bytes)
          → row extension_slug slug u.web_extensions ≡ (
              if slug == e.slug
              then some (elim (row extension_slug e.slug t.web_extensions) [
                | none ↦ inserted now t e
                | some old ↦ record e {
                  id = old.id;
                  slug = old.slug;
                  created_by = old.created_by;
                  created_at = old.created_at;
                  updated_at = now;
                }
              ])
              else row extension_slug slug t.web_extensions))
unfolding upsert_extension ◌>>=◌
upsert_extension_lem now e t =
    let u : Tables = record t {
      web_extensions =
          upsert extension_slug e.slug (revise now e) (inserted now t e) t.web_extensions;
    } in
    (
      u,
      refl,
      λ slug.
          row-upsert extension_slug (revise now e) (λ x. refl) slug e.slug (inserted now t e)
            t.web_extensions refl,
    )
