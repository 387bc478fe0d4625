-- ===== src/Server/Web/Serving.antt =====
-- What the frontend serves while its files are saved to the disk.
use hopskip.Base.{
  ℕ, ◌+◌, ◌≡◌, refl, ap, sym, ◌∙◌, ◌⊎◌, inl, inr, Bool, true, false, Option, none, some, List, [],
  ◌∷◌, lookup, find, arith, All-keep, if◌then◌else◌, Bool-cases, ◌==◌, eq_refl, nat_eq, bytes_eq,
  bytes_beq_iff, pair_eq, int_eq,
}
use hopskip.Text.{Bytes}
use hopskip.Store.Tables.{Tables, WebFileRow, Setting}
use hopskip.Store.Rows.{row, at_key, delete_where}
use hopskip.Store.Rows.Laws.{row-delete}
use hopskip.Store.Db.{ok, Db, exec, catch, caught, query, settle, strike, continue, ◌>>=◌, pure}
use hopskip.Store.Web.{WebFile, web_path, content_of, get_web_file, delete_web_file}
use hopskip.Store.Web.Reading.{content_at}
use hopskip.Agent.Tools.Calls.{HasKeys}
use hopskip.Server.Static.{Disk, content_only}
use hopskip.Server.Static.Names.{IsName, IsKey-IsName}
use hopskip.Server.Web.{
  World, Write, written, unmade, torn, Outcome, passed, saved, stopped, left_on, dropped_from,
  write_out, is_below, save_read, export_file, behind, export_files,
}

abbrev pub or_else : Option Bytes → Option Bytes → Option Bytes
or_else none other = other
or_else (some b) other = some b

-- An authored file at a key stands at a name.
rows-IsName :
    (path : Bytes) (rs : List WebFileRow) {c : Bytes × Bytes}
    → HasKeys rs
    → content_of (row web_path path rs) ≡ some c
    → IsName path
unfolding find
rows-IsName path [] _ e = absurd (cc)
rows-IsName path (r ∷ rs) {c} (k, ks) e = elim (Bool-cases (r.path == path)) [
  | inl d ↦ rw (sym ((bytes_beq_iff r.path path).0 d)) (IsKey-IsName k)
  | inr d ↦ rows-IsName path rs {c = c} ks (ground (arith, e, d))
]

-- The rows without the file at a path.
abbrev without_file : Bytes → Tables → Tables
without_file path t = record t { web_files = delete_where (at_key web_path path) t.web_files }

content_at-without :
    (p path : Bytes) (t : Tables)
    → content_at p (without_file path t) ≡ (if p == path then none else content_at p t)
content_at-without p path t =
    ap content_of (row-delete web_path p path t.web_files)
    ∙ split (p == path) (row web_path p t.web_files)
  where
    split :
        (b : Bool) (o : Option WebFileRow)
        → content_of (if b then none else o) ≡ (if b then none else content_of o)
    split true o = refl
    split false o = refl

-- A file is read as it is, or not at all where the driver fails.
record Read (path : Bytes) (db : Db) : Type 0 where
  pub found : Option (Bytes × Bytes)
  pub rest : List Bool
  pub result : get_web_file path db ≡ (ok found, record { tables = db.tables; faults = rest })
  pub right : (found ≡ none) ⊎ (found ≡ content_at path db.tables)

get_web_file-Read :
    (path : Bytes) (t : Tables) (faults : List Bool)
    → Read path (record { tables = t; faults = faults })
unfolding get_web_file ◌>>=◌ catch caught query exec strike settle continue pure
get_web_file-Read path t [] = record {
  found = content_at path t;
  rest = [];
  result = refl;
  right = inr refl;
}
get_web_file-Read path t (true ∷ rest) = record {
  found = none;
  rest = rest;
  result = refl;
  right = inl refl;
}
get_web_file-Read path t (false ∷ rest) = record {
  found = content_at path t;
  rest = rest;
  result = refl;
  right = inr refl;
}

-- A file is dropped, or stays where the driver fails.
dropped_or_not :
    (path : Bytes) (t : Tables) (faults : List Bool)
    → let u = (dropped_from path (record { tables = t; faults = faults })).tables in
      (u ≡ t) ⊎ (u ≡ without_file path t)
unfolding delete_web_file ◌>>=◌ catch caught exec strike settle continue pure
dropped_or_not path t [] = inr refl
dropped_or_not path t (true ∷ rest) = inl refl
dropped_or_not path t (false ∷ rest) = inr refl

module _ (join_path : Bytes → Bytes → Bytes) (embedded : Bytes → Option Bytes) (dir : Bytes)
    (apart : (p q : Bytes) → IsName p → IsName q → join_path dir p ≡ join_path dir q → p ≡ q) where
  -- What is served at a name: the authored file, else the saved one, else that of the base shell.
  abbrev pub served : Bytes → Tables → Disk → Option Bytes
  served p t disk =
      or_else (content_only (content_at p t)) (or_else (lookup (join_path dir p) disk) (embedded p))

  -- What the disk holds at the path of an authored file is not served.
  served-write :
      (p f b : Bytes) (t : Tables) (disk : Disk) {c : Bytes × Bytes}
      → IsName p
      → HasKeys t.web_files
      → content_at f t ≡ some c
      → served p t ((join_path dir f, b) ∷ disk) ≡ served p t disk
  unfolding lookup
  served-write p f b t disk {c} name keys e =
      elim (Bool-cases (join_path dir f == join_path dir p)) [
        | inr d ↦ rw d refl
        | inl d ↦
            let same : f ≡ p =
              apart f p (rows-IsName f t.web_files keys e) name
                ((bytes_beq_iff (join_path dir f) (join_path dir p)).0 d) in
            rw (sym same, e) refl
      ]

  -- A file whose content is saved can be dropped.
  served-drop :
      (p f b m : Bytes) (t : Tables) (disk : Disk)
      → content_at f t ≡ some (b, m)
      → served p (without_file f t) ((join_path dir f, b) ∷ disk)
        ≡ served p t ((join_path dir f, b) ∷ disk)
  unfolding lookup
  served-drop p f b m t disk e = elim (Bool-cases (p == f)) [
    | inr d ↦ rw (content_at-without p f t, d) refl
    | inl d ↦
        let same : p ≡ f = (bytes_beq_iff p f).0 d in
        rw (content_at-without p f t, d, same, e, eq_refl (join_path dir f)) refl
  ]

  -- The name is served as before, with the same settings, and the files still stand at keys.
  pub record IsServing (p : Bytes) (settings : List Setting) (page : Option Bytes) (w : World)
      : Type 0 where
    pub keys : HasKeys w.db.tables.web_files
    pub settings_same : w.db.tables.app_settings ≡ settings
    pub page_same : served p w.db.tables w.disk ≡ page

  module _ (p : Bytes) (name : IsName p) (settings : List Setting) (page : Option Bytes) where
    abbrev Serving : World → Type 0
    Serving w = IsServing p settings page w

    -- A file whose content is read is written whole and dropped, or stays among the authored ones.
    dropped-Serving :
        (f b m : Bytes) (t : Tables) (rest : List Bool) (disk : Disk) (ws : List Write)
        → content_at f t ≡ some (b, m)
        → Serving (record { db = record { tables = t; faults = rest }; disk = disk; writes = ws })
        → Serving (record {
          db = dropped_from f (record { tables = t; faults = rest });
          disk = (join_path dir f, b) ∷ disk;
          writes = ws;
        })
    dropped-Serving f b m t rest disk ws e v = elim (dropped_or_not f t rest) [
      | inl same ↦ record {
        keys = rw same v.keys;
        settings_same = rw same v.settings_same;
        page_same = rw same (served-write p f b t disk name v.keys e ∙ v.page_same);
      }
      | inr gone ↦ record {
        keys = rw gone (unfold delete_where in All-keep _ _ t.web_files v.keys);
        settings_same = rw gone v.settings_same;
        page_same =
            rw gone (
              served-drop p f b m t disk e ∙ served-write p f b t disk name v.keys e ∙ v.page_same);
      }
    ]

    torn-Serving :
        (f b m : Bytes) (t : Tables) (rest : List Bool) (left : Option Bytes) (disk : Disk)
        (ws us : List Write)
        → content_at f t ≡ some (b, m)
        → Serving (record { db = record { tables = t; faults = rest }; disk = disk; writes = ws })
        → Serving (record {
          db = record { tables = t; faults = rest };
          disk = left_on left (join_path dir f) disk;
          writes = us;
        })
    torn-Serving f b m t rest none disk ws us e v = record {
      keys = v.keys;
      settings_same = v.settings_same;
      page_same = v.page_same;
    }
    torn-Serving f b m t rest (some x) disk ws us e v = record {
      keys = v.keys;
      settings_same = v.settings_same;
      page_same = served-write p f x t disk name v.keys e ∙ v.page_same;
    }

    -- The outcomes that are left do not bear on what is served.
    with_writes :
        (db : Db) (disk : Disk) (ws us : List Write)
        → Serving (record { db = db; disk = disk; writes = ws })
        → Serving (record { db = db; disk = disk; writes = us })
    with_writes db disk ws us v = record {
      keys = v.keys;
      settings_same = v.settings_same;
      page_same = v.page_same;
    }

    write_out-Serving :
        (f b m : Bytes) (t : Tables) (rest : List Bool) (disk : Disk) (ws : List Write)
        → content_at f t ≡ some (b, m)
        → Serving (record { db = record { tables = t; faults = rest }; disk = disk; writes = ws })
        → Serving (write_out (join_path dir f) f b disk (record { tables = t; faults = rest }) ws).1
    write_out-Serving f b m t rest disk [] e v = dropped-Serving f b m t rest disk [] e v
    write_out-Serving f b m t rest disk (written ∷ ws) e v =
        dropped-Serving f b m t rest disk ws e (with_writes _ disk (written ∷ ws) ws v)
    write_out-Serving f b m t rest disk (unmade ∷ ws) e v = with_writes _ disk (unmade ∷ ws) ws v
    write_out-Serving f b m t rest disk (torn left ∷ ws) e v =
        torn-Serving f b m t rest left disk (torn left ∷ ws) ws e v

    -- The content that is read is the one of the tables.
    save_read-Serving :
        (f : Bytes) (found : Option (Bytes × Bytes)) (t : Tables) (rest : List Bool) (disk : Disk)
        (ws : List Write)
        → (found ≡ none) ⊎ (found ≡ content_at f t)
        → Serving (record { db = record { tables = t; faults = rest }; disk = disk; writes = ws })
        → Serving
            (save_read join_path dir f (ok found, record { tables = t; faults = rest }) disk ws).1
    save_read-Serving f none t rest disk ws right v = v
    save_read-Serving f (some (b, m)) t rest disk ws (inl absent) v = absurd (cc)
    save_read-Serving f (some (b, m)) t rest disk ws (inr e) v =
        elim (Bool-cases (is_below dir (join_path dir f))) [
          | inl d ↦ rw d (write_out-Serving f b m t rest disk ws (sym e) v)
          | inr d ↦ rw d v
        ]

    export_file-Serving :
        (f : Bytes) (w : World) → Serving w → Serving (export_file join_path dir f w).1
    unfolding export_file
    export_file-Serving f w v =
        let r = get_web_file-Read f w.db.tables w.db.faults in
        rw r.result (
          save_read-Serving f r.found w.db.tables r.rest w.disk w.writes r.right
            (record { keys = v.keys; settings_same = v.settings_same; page_same = v.page_same }))

    behind-Serving :
        (o : Outcome × World) (n : ℕ) (rest : ℕ → World → Option ℕ × World)
        → Serving o.1
        → ((k : ℕ) (w : World) → Serving w → Serving (rest k w).1)
        → Serving (behind join_path dir o n rest).1
    behind-Serving (passed, w) n rest v k = k n w v
    behind-Serving (saved, w) n rest v k = k (n + 1) w v
    behind-Serving (stopped, w) n rest v k = v

    pub export_files-IsServing :
        (fs : List WebFile) (n : ℕ) (w : World)
        → Serving w
        → Serving (export_files join_path dir fs n w).1
    unfolding export_files
    export_files-IsServing [] n w v = v
    export_files-IsServing (f ∷ fs) n w v =
        behind-Serving (export_file join_path dir f.path w) n (export_files join_path dir fs)
          (export_file-Serving f.path w v) (export_files-IsServing fs)
