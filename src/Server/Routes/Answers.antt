-- ===== src/Server/Routes/Answers.antt =====
-- The replies to the requests of the API.
use hopskip.Base.{ℕ, ◌≡◌, refl, ◌||◌, true, false, Option, none, some, List, nat_eq, Bool}
use hopskip.Text.{Bytes}
use hopskip.Store.Tables.{Session}
use hopskip.Store.Db.{Result, ok, err, Db}
use hopskip.Store.Sessions.{get_session}
use hopskip.Store.Sessions.Reads.{get_session-Keeps}
use hopskip.Store.Chats.{delete_chat}
use hopskip.Store.Web.{WebFile}
use hopskip.Session.Manager.{Manager, open_shell, close}
use hopskip.Agent.Conversations.{Memory}
use hopskip.Server.Api.{Reply}
use hopskip.Server.Chats.{handle_delete_chat, deleted_chat}
use hopskip.Server.Sessions.{
  handle_open_session, handle_close_session, handle_session_state, opened_reply, closed_reply,
  state_reply,
}
use hopskip.Server.Web.{
  World, handle_web_export, export_reply, export_to, export_dir_read, export_listed, export_files,
}
use hopskip.Server.Settings.{web_export_dir}
use hopskip.Store.Web.{list_web_files}
use hopskip.Server.Replies.{is_accepted, is_refused, Settled, Settles}
use hopskip.Server.Replies.Inventory
use hopskip.Server.Replies.Settings
use hopskip.Server.Replies.Others
use hopskip.Server.Routes.{
  Request, Call, Daemon, asks, open_session, close_session, session_state, web_export, replied,
  with_manager, with_chats, with_world, handler, serve,
}

-- Neither a row nor a shell nor a conversation nor a file is another than before.
pub record IsUnmoved (old new : Daemon) : Type 0 where
  pub tables : new.manager.db.tables ≡ old.manager.db.tables
  pub live : new.manager.live ≡ old.manager.live
  pub chats : new.chats ≡ old.chats
  pub disk : new.disk ≡ old.disk

-- A reply, and if it refuses the request nothing has moved.
pub record Answered (old : Daemon) (p : Option Reply × Daemon) : Type 0 where
  pub reply : Reply
  pub given : p.0 ≡ some reply
  pub status : (is_accepted reply.code || is_refused reply.code) ≡ true
  pub unmoved : is_refused reply.code ≡ true → IsUnmoved old p.1

replied-Answered :
    (d : Daemon) (p : Result Reply × Db) → Settled d.manager.db.tables p → Answered d (replied p d)
replied-Answered d (ok r, db) (status, same) = record {
  reply = r;
  given = refl;
  status = status;
  unmoved = λ k. record { tables = same k; live = refl; chats = refl; disk = refl };
}
replied-Answered d (err e, db) h = absurd (cc)

-- A request that was not refused.
carried_out :
    (d new : Daemon) (r : Reply)
    → is_accepted r.code ≡ true
    → is_refused r.code ≡ false
    → Answered d (some r, new)
carried_out d new r yes_sir no_sir = record {
  reply = r;
  given = refl;
  status = rw yes_sir refl;
  unmoved = λ k. absurd (cc);
}

opened-Answered :
    (d : Daemon) (p : Result Session × Manager) → Answered d (with_manager (opened_reply p) d)
opened-Answered d (ok s, m) = carried_out d _ _ refl refl
opened-Answered d (err e, m) = carried_out d _ _ refl refl

closed-Answered :
    (d : Daemon) (id : Bytes) (p : Result {0} Unit × Manager)
    → Answered d (with_manager (closed_reply id p) d)
closed-Answered d id (ok u, m) = carried_out d _ _ refl refl
closed-Answered d id (err e, m) = carried_out d _ _ refl refl

state-Answered :
    (d : Daemon) (id : Bytes) (in_ssh : Bool) (p : Result Session × Db)
    → p.1.tables ≡ d.manager.db.tables
    → Answered d (with_manager (state_reply id in_ssh d.manager p) d)
state-Answered d id in_ssh (ok s, db) same = carried_out d _ _ refl refl
state-Answered d id in_ssh (err e, db) same = record {
  reply = _;
  given = refl;
  status = refl;
  unmoved = λ k. record { tables = same; live = refl; chats = refl; disk = refl };
}

get_session_same : (id : Bytes) (db : Db) → (get_session id db).1.tables ≡ db.tables
get_session_same id db = (get_session-Keeps {P = λ t. t ≡ db.tables} id).at db refl

deleted-Answered :
    (d : Daemon) (id : Bytes) (memory : Memory) (p : Result {0} Unit × Db)
    → Answered d (with_chats (deleted_chat id memory p) d)
deleted-Answered d id memory (ok u, db) = carried_out d _ _ refl refl
deleted-Answered d id memory (err e, db) = carried_out d _ _ refl refl

module _ (absolute : Bytes → Option Bytes) (join_path : Bytes → Bytes → Bytes) where
  exported-Answered :
      (d : Daemon) (dir : Bytes) (p : Option ℕ × World)
      → Answered d (with_world (export_reply dir p.0, p.1) d)
  exported-Answered d dir (some n, w) = carried_out d _ _ refl refl
  exported-Answered d dir (none, w) = carried_out d _ _ refl refl

  export_to-Answered :
      (d : Daemon) (files : List WebFile) (o : Option Bytes) (w : World)
      → Answered d (with_world (export_to absolute join_path files o w) d)
  export_to-Answered d files none w = carried_out d _ _ refl refl
  export_to-Answered d files (some dir) w =
      exported-Answered d dir (export_files join_path dir files 0 w)

  export_dir_read-Answered :
      (d : Daemon) (files : List WebFile) (p : Result Bytes × Db) (w : World)
      → Answered d (with_world (export_dir_read absolute join_path files p w) d)
  export_dir_read-Answered d files (ok dir, db) w =
      export_to-Answered d files (absolute dir) (record w { db = db })
  export_dir_read-Answered d files (err e, db) w = carried_out d _ _ refl refl

  export_listed-Answered :
      (d : Daemon) (p : Result (List WebFile) × Db) (w : World)
      → Answered d (with_world (export_listed absolute join_path p w) d)
  export_listed-Answered d (ok files, db) w =
      export_dir_read-Answered d files (web_export_dir db) (record w { db = db })
  export_listed-Answered d (err e, db) w = carried_out d _ _ refl refl

module _ (embedded : Bytes → Option Bytes) where
  handler-Settles : (q : Request) → Settles (handler embedded q)
  unfolding handler
  handler-Settles Request.list_hosts = Inventory.handle_list_hosts-Settles
  handler-Settles (Request.add_host now body) = Inventory.handle_add_host-Settles now body
  handler-Settles (Request.get_host id) = Inventory.handle_get_host-Settles id
  handler-Settles (Request.update_host id body) = Inventory.handle_update_host-Settles id body
  handler-Settles (Request.delete_host id) = Inventory.handle_delete_host-Settles id
  handler-Settles Request.list_sessions = Inventory.handle_list_sessions-Settles
  handler-Settles Request.list_creds = Others.handle_list_creds-Settles
  handler-Settles (Request.add_cred now body) = Others.handle_add_cred-Settles now body
  handler-Settles (Request.update_cred id body) = Others.handle_update_cred-Settles id body
  handler-Settles (Request.delete_cred id) = Others.handle_delete_cred-Settles id
  handler-Settles (Request.activate_cred id) = Others.handle_activate_cred-Settles id
  handler-Settles Request.list_chats = Others.handle_list_chats-Settles
  handler-Settles (Request.create_chat now id) = Others.handle_create_chat-Settles now id
  handler-Settles (Request.rename_chat id body) = Others.handle_rename_chat-Settles id body
  handler-Settles (Request.chat_messages id) = Others.handle_chat_messages-Settles id
  handler-Settles Request.list_settings = Settings.handle_list_settings-Settles
  handler-Settles (Request.set_setting key body) = Settings.handle_set_setting-Settles key body
  handler-Settles Request.providers = Settings.handle_providers-Settles
  handler-Settles Request.list_knowledge = Others.handle_list_knowledge-Settles
  handler-Settles (Request.add_knowledge now body) = Others.handle_add_knowledge-Settles now body
  handler-Settles (Request.delete_knowledge id) = Others.handle_delete_knowledge-Settles id
  handler-Settles Request.status = Settings.handle_status-Settles
  handler-Settles Request.list_extensions = Others.handle_list_extensions-Settles
  handler-Settles Request.web_changes = Others.handle_web_changes-Settles embedded
  handler-Settles (Request.web_content path layer) =
      Others.handle_web_content-Settles embedded path layer

-- Every request of the API but the one that types keys is answered, whatever it carries and
-- whichever statements the driver and writes the disk fails: with status 200, 201 or 500, or with
-- 400, 404 or 409, and then every row of the tables, every shell, every conversation in memory and
-- every file of the disk is as it was.
pub serve-Answered :
    (absolute : Bytes → Option Bytes) (join_path : Bytes → Bytes → Bytes)
    (embedded : Bytes → Option Bytes) (c : Call) (d : Daemon)
    → Answered d (serve absolute join_path embedded c d)
unfolding serve handle_open_session handle_close_session handle_session_state handle_delete_chat
    handle_web_export
serve-Answered absolute join_path embedded (asks q) d =
    replied-Answered d (handler embedded q d.manager.db)
      ((handler-Settles embedded q).at d.manager.db)
serve-Answered absolute join_path embedded (open_session now id started name label host_id) d =
    opened-Answered d (open_shell now id started name label host_id d.manager)
serve-Answered absolute join_path embedded (close_session now id) d =
    closed-Answered d id (close now id d.manager)
serve-Answered absolute join_path embedded (session_state id in_ssh) d =
    state-Answered d id in_ssh (get_session id d.manager.db) (get_session_same id d.manager.db)
serve-Answered absolute join_path embedded (Call.delete_chat id) d =
    deleted-Answered d id d.chats (delete_chat id d.manager.db)
serve-Answered absolute join_path embedded web_export d =
    export_listed-Answered absolute join_path d (list_web_files d.manager.db) _
