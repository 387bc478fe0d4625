-- ===== src/Server/Routes/Keeping.antt =====
-- The tables through the requests of the API.
use hopskip.Base.{
  ℕ, ◌+◌, Bool, Option, none, some, List, [], ◌∷◌, ℤ, nat_eq, bytes_eq, pair_eq, int_eq, Bool-cases,
  inl, inr,
}
use hopskip.Text.{Bytes}
use hopskip.Store.Tables.{Tables, Session}
use hopskip.Store.Rows.{has}
use hopskip.Store.Db.{Result, ok, err, Db}
use hopskip.Store.Db.Keeps.{Keeps, Keeps-query}
use hopskip.Store.Sessions.{get_session}
use hopskip.Store.Sessions.Reads.{get_session-Keeps}
use hopskip.Store.Chats.{delete_chat}
use hopskip.Store.Web.{WebFile, list_web_files, get_web_file}
use hopskip.Session.Stream.{LiveSession}
use hopskip.Session.Manager.{
  Manager, Spawn, unstarted, lives, exits, live_id, label_of, recorded, start_shell, record_shell,
  open_shell, end_session, close,
}
use hopskip.Server.Api.{Reply}
use hopskip.Server.Chats.{handle_delete_chat, deleted_chat}
use hopskip.Server.Sessions.{
  handle_list_sessions, handle_open_session, handle_close_session, handle_session_state,
  opened_reply, closed_reply, state_reply,
}
use hopskip.Server.Hosts.{handle_list_hosts}
use hopskip.Store.Sessions.{list_sessions}
use hopskip.Store.Hosts.Reads.{list_hosts-Keeps}
use hopskip.Server.Settings.{web_export_dir}
use hopskip.Server.Static.{Disk}
use hopskip.Server.Web.{
  World, Write, written, unmade, torn, Outcome, passed, saved, stopped, dropped_from, write_out,
  is_below, save_read, export_file, behind, export_files, export_to, export_dir_read, export_listed,
  handle_web_export,
}
use hopskip.Server.Keeping.{
  Methods, attempt_or_500-Keeps, handle_add_host-Keeps, handle_get_host-Keeps,
  handle_update_host-Keeps, handle_delete_host-Keeps, quietly-Keeps,
}
use hopskip.Server.Keeping.Others
use hopskip.Server.Routes.{
  Request, Call, Daemon, asks, open_session, session_state, web_export, replied, with_manager,
  with_chats, handler, serve, serve_all,
}

-- The tables of the daemon have the property.
abbrev Has : (Tables → Type 0) → Daemon → Type 0
Has P d = P d.manager.db.tables

module _ (P : Tables → Type 0) where
  replied-Has : (d : Daemon) (p : Result Reply × Db) → P p.1.tables → Has P (replied p d).1
  replied-Has d (ok r, db) h = h
  replied-Has d (err e, db) h = h

  opened-Has :
      (d : Daemon) (p : Result Session × Manager)
      → P p.1.db.tables
      → Has P (with_manager (opened_reply p) d).1
  opened-Has d (ok s, m) h = h
  opened-Has d (err e, m) h = h

  closed-Has :
      (d : Daemon) (id : Bytes) (p : Result {0} Unit × Manager)
      → P p.1.db.tables
      → Has P (with_manager (closed_reply id p) d).1
  closed-Has d id (ok u, m) h = h
  closed-Has d id (err e, m) h = h

  state-Has :
      (d : Daemon) (id : Bytes) (in_ssh : Bool) (p : Result Session × Db)
      → P p.1.tables
      → Has P (with_manager (state_reply id in_ssh d.manager p) d).1
  state-Has d id in_ssh (ok s, db) h = h
  state-Has d id in_ssh (err e, db) h = h

  deleted-Has :
      (d : Daemon) (id : Bytes) (p : Result {0} Unit × Db)
      → P p.1.tables
      → Has P (with_chats (deleted_chat id d.chats p) d).1
  deleted-Has d id (ok u, db) h = h
  deleted-Has d id (err e, db) h = h

list_web_files-Keeps : (P : Tables → Type 0) → Keeps P list_web_files
unfolding list_web_files
list_web_files-Keeps P = Keeps-query _

module _ {P : Tables → Type 0} (o : Methods P) where
  recorded_has :
      (id : Bytes) (live : List LiveSession) (p : Result {0} Unit × Db)
      → P p.1.tables
      → P (recorded id live p).1.db.tables
  recorded_has id live (ok u, db) h = (get_session-Keeps {P = P} id).at db h
  recorded_has id live (err e, db) h = h

  recorded_shell_has :
      (now id name label : Bytes) (host_id : Option ℤ) (m : Manager)
      → P m.db.tables
      → P (record_shell now id name label host_id m).1.db.tables
  unfolding record_shell
  recorded_shell_has now id name label host_id m h =
      recorded_has id m.live _ ((o.opens now id host_id name (label_of id label)).at m.db h)

  end_session_has :
      (now id : Bytes) (m : Manager) → P m.db.tables → P (end_session now id m).db.tables
  unfolding end_session
  end_session_has now id m h = elim (Bool-cases (has live_id id m.live)) [
    | inl e ↦ rw e ((o.ends now id).at m.db h)
    | inr e ↦ rw e h
  ]

  open_shell_has :
      (now id : Bytes) (started : Spawn) (name label : Bytes) (host_id : Option ℤ) (m : Manager)
      → P m.db.tables
      → P (open_shell now id started name label host_id m).1.db.tables
  unfolding open_shell
  open_shell_has now id unstarted name label host_id m h = h
  open_shell_has now id lives name label host_id m h =
      recorded_shell_has now id name label host_id (start_shell id m) h
  open_shell_has now id exits name label host_id m h =
      recorded_shell_has now id name label host_id _ (end_session_has now id (start_shell id m) h)

  close_has : (now id : Bytes) (m : Manager) → P m.db.tables → P (close now id m).1.db.tables
  unfolding close end_session
  close_has now id m h = elim (Bool-cases (has live_id id m.live)) [
    | inl e ↦ rw e ((o.ends now id).at m.db h)
    | inr e ↦ rw e ((o.ends now id).at m.db h)
  ]

  dropped_has : (path : Bytes) (db : Db) → P db.tables → P (dropped_from path db).tables
  dropped_has path db h = (quietly-Keeps _ (o.drops path)).at db h

  write_out_has :
      (full path content : Bytes) (disk : Disk) (db : Db) (ws : List Write)
      → P db.tables
      → P (write_out full path content disk db ws).1.db.tables
  write_out_has full path content disk db [] h = dropped_has path db h
  write_out_has full path content disk db (written ∷ ws) h = dropped_has path db h
  write_out_has full path content disk db (unmade ∷ ws) h = h
  write_out_has full path content disk db (torn left ∷ ws) h = h

  module _ (join_path : Bytes → Bytes → Bytes) (dir : Bytes) where
    save_read_has :
        (path : Bytes) (p : Result (Option (Bytes × Bytes)) × Db) (disk : Disk) (ws : List Write)
        → P p.1.tables
        → P (save_read join_path dir path p disk ws).1.db.tables
    save_read_has path (err e, db) disk ws h = h
    save_read_has path (ok none, db) disk ws h = h
    save_read_has path (ok (some (content, t)), db) disk ws h =
        elim (Bool-cases (is_below dir (join_path dir path))) [
          | inl e ↦ rw e (write_out_has (join_path dir path) path content disk db ws h)
          | inr e ↦ rw e h
        ]

    export_file_has :
        (path : Bytes) (w : World)
        → P w.db.tables
        → P (export_file join_path dir path w).1.db.tables
    unfolding export_file
    export_file_has path w h =
        save_read_has path (get_web_file path w.db) w.disk w.writes
          ((Others.get_web_file-Keeps {P = P} path).at w.db h)

    behind_has :
        (p : Outcome × World) (n : ℕ) (rest : ℕ → World → Option ℕ × World)
        → P p.1.db.tables
        → ((k : ℕ) (w : World) → P w.db.tables → P (rest k w).1.db.tables)
        → P (behind join_path dir p n rest).1.db.tables
    behind_has (passed, w) n rest h k = k n w h
    behind_has (saved, w) n rest h k = k (n + 1) w h
    behind_has (stopped, w) n rest h k = h

    export_files_has :
        (fs : List WebFile) (n : ℕ) (w : World)
        → P w.db.tables
        → P (export_files join_path dir fs n w).1.db.tables
    unfolding export_files
    export_files_has [] n w h = h
    export_files_has (f ∷ fs) n w h =
        behind_has (export_file join_path dir f.path w) n (export_files join_path dir fs)
          (export_file_has f.path w h) (export_files_has fs)

  export_to_has :
      (absolute : Bytes → Option Bytes) (join_path : Bytes → Bytes → Bytes) (files : List WebFile)
      (dir : Option Bytes) (w : World)
      → P w.db.tables
      → P (export_to absolute join_path files dir w).1.db.tables
  export_to_has absolute join_path files none w h = h
  export_to_has absolute join_path files (some dir) w h = export_files_has join_path dir files 0 w h

  export_dir_read_has :
      (absolute : Bytes → Option Bytes) (join_path : Bytes → Bytes → Bytes) (files : List WebFile)
      (p : Result Bytes × Db) (w : World)
      → P p.1.tables
      → P (export_dir_read absolute join_path files p w).1.db.tables
  export_dir_read_has absolute join_path files (ok dir, db) w h =
      export_to_has absolute join_path files (absolute dir) (record w { db = db }) h
  export_dir_read_has absolute join_path files (err e, db) w h = h

  export_listed_has :
      (absolute : Bytes → Option Bytes) (join_path : Bytes → Bytes → Bytes)
      (p : Result (List WebFile) × Db) (w : World)
      → P p.1.tables
      → P (export_listed absolute join_path p w).1.db.tables
  export_listed_has absolute join_path (ok files, db) w h =
      export_dir_read_has absolute join_path files (web_export_dir db) (record w { db = db })
        ((Others.web_export_dir-Keeps {P = P}).at db h)
  export_listed_has absolute join_path (err e, db) w h = h

  handler-Keeps : (embedded : Bytes → Option Bytes) (q : Request) → Keeps P (handler embedded q)
  unfolding handler handle_list_hosts handle_list_sessions list_sessions
  handler-Keeps embedded Request.list_hosts = attempt_or_500-Keeps _ _ _ list_hosts-Keeps
  handler-Keeps embedded (Request.add_host now body) = handle_add_host-Keeps o now body
  handler-Keeps embedded (Request.get_host id) = handle_get_host-Keeps o id
  handler-Keeps embedded (Request.update_host id body) = handle_update_host-Keeps o id body
  handler-Keeps embedded (Request.delete_host id) = handle_delete_host-Keeps o id
  handler-Keeps embedded Request.list_sessions = attempt_or_500-Keeps _ _ _ (Keeps-query _)
  handler-Keeps embedded Request.list_creds = Others.handle_list_creds-Keeps
  handler-Keeps embedded (Request.add_cred now body) = Others.handle_add_cred-Keeps o now body
  handler-Keeps embedded (Request.update_cred id body) = Others.handle_update_cred-Keeps o id body
  handler-Keeps embedded (Request.delete_cred id) = Others.handle_delete_cred-Keeps o id
  handler-Keeps embedded (Request.activate_cred id) = Others.handle_activate_cred-Keeps o id
  handler-Keeps embedded Request.list_chats = Others.handle_list_chats-Keeps
  handler-Keeps embedded (Request.create_chat now id) = Others.handle_create_chat-Keeps o now id
  handler-Keeps embedded (Request.rename_chat id body) = Others.handle_rename_chat-Keeps o id body
  handler-Keeps embedded (Request.chat_messages id) = Others.handle_chat_messages-Keeps id
  handler-Keeps embedded Request.list_settings = Others.handle_list_settings-Keeps
  handler-Keeps embedded (Request.set_setting key body) = Others.handle_set_setting-Keeps o key body
  handler-Keeps embedded Request.providers = Others.handle_providers-Keeps
  handler-Keeps embedded Request.list_knowledge = Others.handle_list_knowledge-Keeps
  handler-Keeps embedded (Request.add_knowledge now body) =
      Others.handle_add_knowledge-Keeps o now body
  handler-Keeps embedded (Request.delete_knowledge id) = Others.handle_delete_knowledge-Keeps o id
  handler-Keeps embedded Request.status = Others.handle_status-Keeps
  handler-Keeps embedded Request.list_extensions = Others.handle_list_extensions-Keeps
  handler-Keeps embedded Request.web_changes = Others.handle_web_changes-Keeps embedded
  handler-Keeps embedded (Request.web_content path layer) =
      Others.handle_web_content-Keeps embedded path layer

  module _ (absolute : Bytes → Option Bytes) (join_path : Bytes → Bytes → Bytes)
      (embedded : Bytes → Option Bytes) where
    pub serve-Has :
        (c : Call) (d : Daemon) → Has P d → Has P (serve absolute join_path embedded c d).1
    unfolding serve handle_open_session handle_close_session handle_session_state handle_delete_chat
        handle_web_export
    serve-Has (asks q) d h =
        replied-Has P d (handler embedded q d.manager.db)
          ((handler-Keeps embedded q).at d.manager.db h)
    serve-Has (open_session now id started name label host_id) d h =
        opened-Has P d (open_shell now id started name label host_id d.manager)
          (open_shell_has now id started name label host_id d.manager h)
    serve-Has (Call.close_session now id) d h =
        closed-Has P d id (close now id d.manager) (close_has now id d.manager h)
    serve-Has (session_state id in_ssh) d h =
        state-Has P d id in_ssh (get_session id d.manager.db)
          ((get_session-Keeps {P = P} id).at d.manager.db h)
    serve-Has (Call.delete_chat id) d h =
        deleted-Has P d id (delete_chat id d.manager.db) ((o.deletes_chat id).at d.manager.db h)
    serve-Has web_export d h =
        export_listed_has absolute join_path (list_web_files d.manager.db) _
          ((list_web_files-Keeps P).at d.manager.db h)

    pub serve_all-Has :
        (cs : List Call) (d : Daemon) → Has P d → Has P (serve_all absolute join_path embedded cs d)
    unfolding serve_all
    serve_all-Has [] d h = h
    serve_all-Has (c ∷ cs) d h =
        serve_all-Has cs (serve absolute join_path embedded c d).1 (serve-Has c d h)
