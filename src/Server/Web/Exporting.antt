-- ===== src/Server/Web/Exporting.antt =====
-- The reply to "Save to disk" and what is served after it.
use hopskip.Base.{
  ◌≡◌, ◌≢◌, refl, ap, sym, ◌∙◌, inl, inr, Bool, false, Option, none, some, List, [], ◌∷◌, lookup,
  find, arith, Bool-cases, Option-cases, ◌==◌, nat_eq, bytes_eq, bytes_beq_iff, pair_eq, int_eq,
}
use hopskip.Base.{bytes_beq}
use hopskip.Text.{Bytes}
use hopskip.Text.Trim.{trim_space}
use hopskip.Store.Tables.{Tables, Setting}
use hopskip.Store.Rows.{row}
use hopskip.Store.Db.{ok, calm, exec, catch, caught, query, settle, strike, continue, ◌>>=◌, pure}
use hopskip.Store.Settings.{setting_key, value_of, get_setting}
use hopskip.Store.Web.{WebFile, get_web_file, list_web_files}
use hopskip.Store.Web.Reading.{content_at}
use hopskip.Agent.Tools.Calls.{HasKeys}
use hopskip.Server.Settings.{
  trimmed_unless_blank, default_web_export_dir, export_dir_setting, web_export_dir,
}
use hopskip.Server.Static.{
  Disk, content_only, unless_found, file_below, read_layers, read_static, web_name,
}
use hopskip.Server.Static.Names.{IsName, web_name-IsName}
use hopskip.Server.Web.{World, Write, export_files, export_to, handle_web_export}
use hopskip.Server.Web.Serving.{or_else, IsServing, export_files-IsServing}

-- The directory of the setting "web_export_dir".
abbrev pub dir_of : List Setting → Bytes
dir_of settings =
    trimmed_unless_blank default_web_export_dir
      (value_of (row setting_key export_dir_setting settings))

trimmed-ne-nil :
    (default : Bytes) (o : Option Bytes) → default ≢ [] → trimmed_unless_blank default o ≢ []
trimmed-ne-nil default none h = h
trimmed-ne-nil default (some v) h = elim (Bool-cases (trim_space v == [])) [
  | inl e ↦ rw e h
  | inr e ↦ rw e (ground (arith, bytes_beq_iff (trim_space v) []))
]

dir_of-ne-nil : (settings : List Setting) → (dir_of settings == []) ≡ false
dir_of-ne-nil settings =
    let filled : dir_of settings ≢ [] =
      trimmed-ne-nil default_web_export_dir (value_of (row setting_key export_dir_setting settings))
        cc in
    ground (arith, filled, bytes_beq_iff (dir_of settings) [])

module _ (absolute : Bytes → Option Bytes) (join_path : Bytes → Bytes → Bytes)
    (embedded : Bytes → Option Bytes) where
  abbrev below : Bytes → Tables → Disk → Option Bytes
  below n t disk = file_below absolute join_path embedded [] (dir_of t.app_settings) n disk

  -- What a page reads at a clean name from tables that no statement fails on.
  abbrev page_at : Bytes → Tables → Disk → Option Bytes
  page_at n t disk = or_else (content_only (content_at n t)) (or_else (below n t disk) (embedded n))

  unless_found_lem :
      (o other : Option Bytes) (t : Tables)
      → (unless_found o (pure other) (calm t)).0 ≡ ok (or_else o other)
  unfolding pure
  unless_found_lem none other t = refl
  unless_found_lem (some b) other t = refl

  read_layers_lem :
      (n : Bytes) (t : Tables) (disk : Disk)
      → (read_layers absolute join_path embedded [] n disk (calm t)).0 ≡ ok (page_at n t disk)
  unfolding read_layers get_web_file web_export_dir get_setting ◌>>=◌ catch caught query exec strike
      settle continue pure find bytes_beq
  read_layers_lem n t disk = elim (Option-cases (content_only (content_at n t))) [
    | inl e ↦ rw e (unless_found_lem (below n t disk) (embedded n) t)
    | inr (b, e) ↦ rw e refl
  ]

  below_dir :
      (n dir : Bytes) (t : Tables) (disk : Disk)
      → absolute (dir_of t.app_settings) ≡ some dir
      → below n t disk ≡ lookup (join_path dir n) disk
  below_dir n dir t disk e = rw (dir_of-ne-nil t.app_settings, e) refl

  module _
      (apart : (dir p q : Bytes)
        → IsName p
        → IsName q
        → join_path dir p ≡ join_path dir q
        → p ≡ q) where
    -- The loop over the files, in the directory that is served.
    exported-page :
        (n dir : Bytes) (w w1 : World)
        → absolute (dir_of w.db.tables.app_settings) ≡ some dir
        → IsServing join_path embedded dir
            (apart dir)
            n
            w.db.tables.app_settings
            (page_at n w.db.tables w.disk)
            w1
        → page_at n w1.db.tables w1.disk ≡ page_at n w.db.tables w.disk
    exported-page n dir w w1 e v =
        ap (λ o. or_else (content_only (content_at n w1.db.tables)) (or_else o (embedded n)))
          (below_dir n dir w1.db.tables w1.disk
            (ap (λ ss. absolute (dir_of ss)) v.settings_same ∙ e))
        ∙ v.page_same

    export_to-page :
        (files : List WebFile) (n : Bytes) (o : Option Bytes) (w : World)
        → IsName n
        → HasKeys w.db.tables.web_files
        → absolute (dir_of w.db.tables.app_settings) ≡ o
        → let w1 = (export_to absolute join_path files o w).1 in
          page_at n w1.db.tables w1.disk ≡ page_at n w.db.tables w.disk
    export_to-page files n none w name keys e = refl
    export_to-page files n (some dir) w name keys e =
        exported-page n dir w (export_files join_path dir files 0 w).1 e (
          export_files-IsServing join_path embedded dir (apart dir) n name w.db.tables.app_settings
            (page_at n w.db.tables w.disk) files 0 w
            (record {
              keys = keys;
              settings_same = refl;
              page_same =
                  ap
                    (λ x.
                      or_else (content_only (content_at n w.db.tables)) (or_else x (embedded n)))
                    (sym (below_dir n dir w.db.tables w.disk e));
            }))

    -- Saving the authored files to the disk does not change what is served, whichever writes fail and
    -- wherever the export stops, and whatever the driver does once the list of files and the setting
    -- of the directory are read: where the authored files stand at keys, no development overlay is
    -- set, and distinct clean names are distinct files of a directory, every path of the site is
    -- read from a store that fails nothing as it was read before.
    pub handle_web_export-read_static :
        (path : Bytes) (t : Tables) (rest : List Bool) (disk : Disk) (writes : List Write)
        → HasKeys t.web_files
        → let w : World = record {
          db = record { tables = t; faults = false ∷ false ∷ rest };
          disk = disk;
          writes = writes;
        } in
          let w1 = (handle_web_export absolute join_path w).1 in
          (read_static absolute join_path embedded [] path w1.disk (calm w1.db.tables)).0
          ≡ (read_static absolute join_path embedded [] path disk (calm t)).0
    unfolding handle_web_export read_static list_web_files web_export_dir get_setting ◌>>=◌ catch
        caught query exec strike settle continue pure
    handle_web_export-read_static path t rest disk writes keys =
        let w : World = record {
          db = record { tables = t; faults = rest };
          disk = disk;
          writes = writes;
        } in
        let w1 = (export_to absolute join_path _ (absolute (dir_of t.app_settings)) w).1 in
        read_layers_lem (web_name path) w1.db.tables w1.disk
        ∙ ap ok (
            export_to-page _ (web_name path) (absolute (dir_of t.app_settings)) w
              (web_name-IsName path) keys refl)
        ∙ sym (read_layers_lem (web_name path) t disk)
