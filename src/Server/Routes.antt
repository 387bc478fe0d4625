-- ===== src/Server/Routes.antt =====
-- internal/server/server.go: the routes of the API, each with what the request carries, over the
-- state of the daemon. `POST /api/sessions/{id}/keys` and the two sockets are not among them.
pub mod Answers
pub mod Keeping
pub mod Admitted
use hopskip.Base.{ℤ, Bool, Option, none, some, List, [], ◌∷◌}
use hopskip.Text.{Bytes}
use hopskip.Store.Db.{Result, ok, err, Db, M}
use hopskip.Session.Manager.{Manager, Spawn}
use hopskip.Agent.Conversations.{Memory}
use hopskip.Server.Api.{Reply}
use hopskip.Server.Static.{Disk}
use hopskip.Server.Hosts.{
  AddHostReq, UpdateHostReq, handle_list_hosts, handle_add_host, handle_get_host,
  handle_update_host, handle_delete_host,
}
use hopskip.Server.Sessions.{
  handle_list_sessions, handle_open_session, handle_session_state, handle_close_session,
}
use hopskip.Server.Credentials.{
  CredReq, handle_list_creds, handle_add_cred, handle_update_cred, handle_delete_cred,
  handle_activate_cred,
}
use hopskip.Server.Chats.{
  handle_list_chats, handle_create_chat, handle_rename_chat, handle_delete_chat,
  handle_chat_messages, handle_list_knowledge, handle_add_knowledge, handle_delete_knowledge,
}
use hopskip.Server.Settings.{
  handle_list_settings, handle_set_setting, handle_providers, handle_status,
}
use hopskip.Server.Web.{
  Write, World, handle_list_extensions, handle_web_changes, handle_web_content, handle_web_export,
}

-- What a request to the store alone carries: an id and a key are segments of the path, and a body is
-- what it decodes to.
pub data Request : Type 0 where
  list_hosts list_sessions list_creds list_chats list_settings : Request
  list_knowledge list_extensions providers status web_changes : Request
  get_host delete_host delete_cred activate_cred chat_messages delete_knowledge : Bytes → Request
  add_host : (now : Bytes) → Option AddHostReq → Request
  update_host : (id : Bytes) → Option UpdateHostReq → Request
  add_cred : (now : Bytes) → Option CredReq → Request
  update_cred : (id : Bytes) → Option CredReq → Request
  create_chat : (now random_id : Bytes) → Request
  rename_chat : (id : Bytes) → Option Bytes → Request
  set_setting : (key : Bytes) → Option Bytes → Request
  add_knowledge : (now : Bytes) → Option Bytes → Request
  web_content : (path layer : Bytes) → Request

-- A request, or one that also changes what is in memory or on the disk: the shells, the
-- conversations, the files.
pub data Call : Type 0 where
  asks : Request → Call
  open_session :
      (now id : Bytes) (started : Spawn) (name label : Bytes) → (host_id : Option ℤ) → Call
  close_session : (now id : Bytes) → Call
  session_state : (id : Bytes) (in_ssh : Bool) → Call
  delete_chat : Bytes → Call
  web_export : Call

-- What the handlers share.
pub record Daemon : Type 0 where
  pub manager : Manager
  pub chats : Memory
  pub disk : Disk
  pub writes : List Write

-- The reply of a handler of the store; none where it fails.
abbrev pub replied : Result Reply × Db → Daemon → Option Reply × Daemon
replied (err e, db) d = (none, record d { manager = record d.manager { db = db } })
replied (ok r, db) d = (some r, record d { manager = record d.manager { db = db } })

abbrev pub with_manager : Reply × Manager → Daemon → Option Reply × Daemon
with_manager (r, m) d = (some r, record d { manager = m })

abbrev pub with_chats : Reply × Memory × Db → Daemon → Option Reply × Daemon
with_chats (r, chats, db) d =
    (some r, record d { manager = record d.manager { db = db }; chats = chats })

abbrev pub with_world : Reply × World → Daemon → Option Reply × Daemon
with_world (r, w) d = (
  some r,
  record d { manager = record d.manager { db = w.db }; disk = w.disk; writes = w.writes },
)

module _ (embedded : Bytes → Option Bytes) where
  -- The handler that `Handler` routes the request to.
  unfoldable pub handler : Request → M Reply
  handler Request.list_hosts = handle_list_hosts
  handler (Request.add_host now body) = handle_add_host now body
  handler (Request.get_host id) = handle_get_host id
  handler (Request.update_host id body) = handle_update_host id body
  handler (Request.delete_host id) = handle_delete_host id
  handler Request.list_sessions = handle_list_sessions
  handler Request.list_creds = handle_list_creds
  handler (Request.add_cred now body) = handle_add_cred now body
  handler (Request.update_cred id body) = handle_update_cred id body
  handler (Request.delete_cred id) = handle_delete_cred id
  handler (Request.activate_cred id) = handle_activate_cred id
  handler Request.list_chats = handle_list_chats
  handler (Request.create_chat now random_id) = handle_create_chat now random_id
  handler (Request.rename_chat id body) = handle_rename_chat id body
  handler (Request.chat_messages id) = handle_chat_messages id
  handler Request.list_settings = handle_list_settings
  handler (Request.set_setting key body) = handle_set_setting key body
  handler Request.providers = handle_providers
  handler Request.list_knowledge = handle_list_knowledge
  handler (Request.add_knowledge now body) = handle_add_knowledge now body
  handler (Request.delete_knowledge id) = handle_delete_knowledge id
  handler Request.status = handle_status
  handler Request.list_extensions = handle_list_extensions
  handler Request.web_changes = handle_web_changes embedded
  handler (Request.web_content path layer) = handle_web_content embedded path layer

module _ (absolute : Bytes → Option Bytes) (join_path : Bytes → Bytes → Bytes)
    (embedded : Bytes → Option Bytes) where
  -- The request served, and the daemon after it.
  unfoldable pub serve : Call → Daemon → Option Reply × Daemon
  unfolding handler
  serve (asks q) d = replied (handler embedded q d.manager.db) d
  serve (open_session now id started name label host_id) d =
      with_manager (handle_open_session now id started name label host_id d.manager) d
  serve (close_session now id) d = with_manager (handle_close_session now id d.manager) d
  serve (session_state id in_ssh) d = with_manager (handle_session_state id in_ssh d.manager) d
  serve (delete_chat id) d = with_chats (handle_delete_chat id d.chats d.manager.db) d
  serve web_export d =
      with_world
        (handle_web_export absolute join_path
          (record { db = d.manager.db; disk = d.disk; writes = d.writes }))
        d

  unfoldable pub serve_all : List Call → Daemon → Daemon
  unfolding serve
  serve_all [] d = d
  serve_all (c ∷ cs) d = serve_all cs (serve c d).1
