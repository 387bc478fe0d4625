-- ===== src/Agent/Tools/Files.antt =====
-- A file that a model writes and reads again.
use hopskip.Base.{
  ◌≡◌, refl, ap, ◌∙◌, true, Option, some, if◌then◌else◌, ◌==◌, eq_refl, nat_eq, bytes_eq, pair_eq,
  int_eq, length,
}
use hopskip.Text.{Bytes, codes}
use hopskip.Store.Db.{ok, Db, M, calm, pure, ◌>>=◌}
use hopskip.Text.Trim.{trim_space}
use hopskip.Store.Tables.{Tables}
use hopskip.Store.Web.{agent, normalize_web_path, put_web_file, get_web_file}
use hopskip.Store.Web.Reading.{content_at, put_web_file-get_web_file}
use hopskip.Agent.Tools.{
  Args, Answer, overlay_file, written, with_path, found_file, read_web_file_tool,
  write_web_file_tool,
}

bind_lem :
    {A B : Type 0} (m : M A) (f : A → M B) (db db1 : Db) (a : A)
    → m db ≡ (ok a, db1)
    → (m >>= f) db ≡ f a db1
unfolding ◌>>=◌
bind_lem m f db db1 a h = rw h refl

with_path_lem :
    (refusal path norm : Bytes) (f : Bytes → M Answer)
    → normalize_web_path path ≡ some norm
    → with_path refusal path f ≡ f norm
with_path_lem refusal path norm f h = rw (with_path, h) refl

found_lem :
    (embedded : Bytes → Option Bytes) (norm : Bytes) (o : Option (Bytes × Bytes))
    (content content_type : Bytes) (db : Db)
    → o ≡ some (content, content_type)
    → found_file embedded norm o db ≡ (ok (overlay_file norm content content_type), db)
unfolding ◌>>=◌
found_lem embedded norm o content content_type db h = rw h refl

-- With a driver that fails nothing: a file that `write_web_file` writes at a path that is accepted is
-- what `read_web_file` then reads, in place of a file of the embedded shell, at every path with the
-- same normalised form, with the content type that was given, less the blanks around it.
pub write_web_file_tool-read_web_file_tool :
    (now norm : Bytes) (args : Args) (t : Tables)
    → normalize_web_path args.path ≡ some norm
    → (u : Tables) × (write_web_file_tool now args (calm t)
        ≡ (ok (written norm (length args.content)), calm u))
      × ((embedded : Bytes → Option Bytes) (other : Args)
          → normalize_web_path other.path ≡ some norm
          → read_web_file_tool embedded other (calm u)
            ≡ (ok (overlay_file norm args.content (trim_space args.content_type)), calm u))
unfolding write_web_file_tool read_web_file_tool ◌>>=◌
write_web_file_tool-read_web_file_tool now norm args t h =
    let (u, ran, reads) =
      put_web_file-get_web_file now norm args.content (trim_space args.content_type) agent t in
    let same : (norm == norm) ≡ true = eq_refl norm in
    (
      u,
      ap (λ m. m (calm t))
            (with_path_lem (codes "invalid path (no leading slash, no '..' allowed)") args.path norm
              _ h)
          ∙ bind_lem (put_web_file now norm args.content (trim_space args.content_type) agent)
              (λ _. pure (written norm (length args.content))) (calm t) (calm u) tt ran,
      λ embedded other k.
          ap (λ m. m (calm u)) (with_path_lem (codes "invalid path") other.path norm _ k)
          ∙ bind_lem (get_web_file norm) (λ found. found_file embedded norm found) (calm u) (calm u)
              _ (reads norm)
          ∙ found_lem embedded norm
              (if norm == norm
                then some (args.content, trim_space args.content_type)
                else content_at norm t)
              args.content (trim_space args.content_type) (calm u) (rw same refl),
    )
