-- ===== src/Server/Web.antt =====
-- internal/server/web.go: what has been authored over the base shell, and its export to the disk. The
-- outcomes of the system calls of an export are given ahead, one for each file.
pub mod Serving
pub mod Exporting
use hopskip.Base.{
  ℕ, ◌+◌, ◌++◌, ◌||◌, ◌&&◌, not, Bool, true, false, Option, none, some, List, [], ◌∷◌, map, keep,
  any, length, if◌then◌else◌, ◌==◌, nat_eq, bytes_eq, pair_eq, int_eq,
}
use hopskip.Text.{Bytes, codes}
use hopskip.Text.Search.{has_prefix}
use hopskip.Store.Tables.{Extension}
use hopskip.Store.Db.{Result, ok, err, Db, M, pure, catch, ◌>>=◌, ◌>>◌}
use hopskip.Store.Web.{
  WebFile, slash, normalize_web_path, list_web_files, get_web_file, delete_web_file,
  list_extensions,
}
use hopskip.Server.Api.{Reply, Body, FileChange, write_json, write_err, internal_error, attempt}
use hopskip.Server.Hosts.{quietly}
use hopskip.Server.Settings.{web_export_dir}
use hopskip.Server.Static.{Disk}

unfoldable pub handle_list_extensions : M Reply
handle_list_extensions =
    attempt (list_extensions true) internal_error λ es. write_json 200 (Body.extensions es)

abbrev size_of : Option Bytes → Option ℕ
size_of none = none
size_of (some b) = some (length b)

-- The code of an extension is among the authored files.
abbrev pub is_pending : List WebFile → Option Bytes → Bool
is_pending files none = false
is_pending files (some entry) = any (λ f. f.path == entry) files

abbrev pub shown_extensions : List WebFile → List Extension → List Extension
shown_extensions files = keep (λ e. is_pending files (normalize_web_path e.entry))

abbrev pub base_content : Bytes → Option Bytes → M Reply
base_content norm none = write_json 200 (Body.web_content norm (codes "base") [] true)
base_content norm (some b) = write_json 200 (Body.web_content norm (codes "base") b false)

abbrev pub overlay_content : Bytes → Option (Bytes × Bytes) → M Reply
overlay_content norm none = write_err 404 (codes "no such overlay file")
overlay_content norm (some (b, _)) =
    write_json 200 (Body.web_content norm (codes "overlay") b false)

module _ (embedded : Bytes → Option Bytes) where
  abbrev pub change_of : WebFile → FileChange
  change_of f = record { file = f; base_size = size_of (embedded f.path) }

  unfoldable pub handle_web_changes : M Reply
  handle_web_changes = attempt list_web_files internal_error λ files.
      attempt (list_extensions false) internal_error
        λ es. write_json 200 (Body.web_changes (map change_of files) (shown_extensions files es))

  abbrev pub content_at_key : Option Bytes → Bytes → M Reply
  content_at_key none layer = write_err 400 (codes "bad path")
  content_at_key (some norm) layer =
      if layer == codes "base"
      then base_content norm (embedded norm)
      else get_web_file norm >>= overlay_content norm

  -- The parameters "path" and "layer" of the query.
  unfoldable pub handle_web_content : (path layer : Bytes) → M Reply
  handle_web_content path layer = content_at_key (normalize_web_path path) layer

-- `MkdirAll` and `WriteFile` for a file: both succeed, or the directory cannot be made, or the file
-- cannot be written, and then holds what is left there if it has changed.
pub data Write : Type 0 where
  written unmade : Write
  torn : Option Bytes → Write

pub record World : Type 0 where
  pub db : Db
  pub disk : Disk
  pub writes : List Write

pub data Outcome : Type 0 where
  passed saved stopped : Outcome

abbrev pub left_on : Option Bytes → Bytes → Disk → Disk
left_on none full disk = disk
left_on (some b) full disk = (full, b) ∷ disk

-- `_ = s.store.DeleteWebFile(f.Path)`
abbrev pub dropped_from : Bytes → Db → Db
dropped_from path db = (quietly (delete_web_file path) db).1

-- The write of a file whose content is read.
abbrev pub write_out : (full path content : Bytes) → Disk → Db → List Write → Outcome × World
write_out full path content disk db [] =
    (saved, record { db = dropped_from path db; disk = (full, content) ∷ disk; writes = [] })
write_out full path content disk db (written ∷ ws) =
    (saved, record { db = dropped_from path db; disk = (full, content) ∷ disk; writes = ws })
write_out full path content disk db (unmade ∷ ws) =
    (stopped, record { db = db; disk = disk; writes = ws })
write_out full path content disk db (torn left ∷ ws) =
    (stopped, record { db = db; disk = left_on left full disk; writes = ws })

-- The check of containment that is made although no path needs it.
abbrev pub is_below : (dir full : Bytes) → Bool
is_below dir full = full == dir || has_prefix full (dir ++ slash ∷ [])

module _ (join_path : Bytes → Bytes → Bytes) (dir : Bytes) where
  -- The file is read from the tables again.
  abbrev pub save_read :
      Bytes → Result (Option (Bytes × Bytes)) × Db → Disk → List Write → Outcome × World
  save_read path (err e, db) disk ws = (passed, record { db = db; disk = disk; writes = ws })
  save_read path (ok none, db) disk ws = (passed, record { db = db; disk = disk; writes = ws })
  save_read path (ok (some (content, _)), db) disk ws =
      if is_below dir (join_path dir path)
      then write_out (join_path dir path) path content disk db ws
      else (passed, record { db = db; disk = disk; writes = ws })

  unfoldable pub export_file : Bytes → World → Outcome × World
  export_file path w = save_read path (get_web_file path w.db) w.disk w.writes

  -- The rest of the loop, unless a write has failed.
  abbrev pub behind : Outcome × World → ℕ → (ℕ → World → Option ℕ × World) → Option ℕ × World
  behind (passed, w) n rest = rest n w
  behind (saved, w) n rest = rest (n + 1) w
  behind (stopped, w) n rest = (none, w)

  -- The number of the files that were saved; none where a write fails.
  unfoldable pub export_files : List WebFile → ℕ → World → Option ℕ × World
  unfolding export_file
  export_files [] n w = (some n, w)
  export_files (f ∷ fs) n w = behind (export_file f.path w) n (export_files fs)

abbrev pub export_reply : Bytes → Option ℕ → Reply
export_reply dir none = record { code = 500; body = Body.os_failure }
export_reply dir (some n) = record { code = 200; body = Body.exported dir n }

module _ (absolute : Bytes → Option Bytes) (join_path : Bytes → Bytes → Bytes) where
  abbrev pub export_to : List WebFile → Option Bytes → World → Reply × World
  export_to files none w = (record { code = 500; body = Body.os_failure }, w)
  export_to files (some dir) w =
      let (n, w1) = export_files join_path dir files 0 w in (export_reply dir n, w1)

  abbrev pub export_dir_read : List WebFile → Result Bytes × Db → World → Reply × World
  export_dir_read files (err e, db) w =
      (record { code = 500; body = Body.failure e }, record w { db = db })
  export_dir_read files (ok dir, db) w = export_to files (absolute dir) (record w { db = db })

  abbrev pub export_listed : Result (List WebFile) × Db → World → Reply × World
  export_listed (err e, db) w = (record { code = 500; body = Body.failure e }, record w { db = db })
  export_listed (ok files, db) w = export_dir_read files (web_export_dir db) (record w { db = db })

  unfoldable pub handle_web_export : World → Reply × World
  unfolding export_files
  handle_web_export w = export_listed (list_web_files w.db) w
