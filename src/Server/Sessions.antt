-- ===== src/Server/Sessions.antt =====
-- internal/server/server.go: the handlers of the sessions. How the shell starts, the id
-- that it gets, and whether a process of it is ssh are arguments.
use hopskip.Base.{Bool, true, false, Option, none, some, if◌then◌else◌, ℤ}
use hopskip.Text.{Bytes, codes}
use hopskip.Store.Tables.{Session, Status}
use hopskip.Store.Db.{Result, ok, err, Db, M}
use hopskip.Store.Sessions.{list_sessions, get_session}
use hopskip.Session.Manager.{Manager, Spawn, live_id, open_shell, close}
use hopskip.Session.Sending.{Shell, Sent, send_keys}
use hopskip.Store.Rows.{has}
use hopskip.Base.{bytes_eq, nat_eq}
use hopskip.Server.Api.{Reply, Body, write_json, internal_error, attempt}

unfoldable pub handle_list_sessions : M Reply
handle_list_sessions = attempt list_sessions internal_error λ ss. write_json 200 (Body.sessions ss)

abbrev pub opened_reply : Result Session × Manager → Reply × Manager
opened_reply (ok s, m) = (record { code = 201; body = Body.session s }, m)
opened_reply (err e, m) = (record { code = 500; body = Body.failure e }, m)

-- The label and the host are what is left of a body that may not decode.
unfoldable pub handle_open_session :
    (now id : Bytes) (started : Spawn) (name label : Bytes) → Option ℤ → Manager → Reply × Manager
handle_open_session now id started name label host_id m =
    opened_reply (open_shell now id started name label host_id m)

abbrev pub closed_reply : Bytes → Result {0} Unit × Manager → Reply × Manager
closed_reply id (ok _, m) = (record { code = 200; body = Body.session_closed id }, m)
closed_reply id (err e, m) = (record { code = 500; body = Body.failure e }, m)

unfoldable pub handle_close_session : (now id : Bytes) → Manager → Reply × Manager
handle_close_session now id m = closed_reply id (close now id m)

abbrev is_opened : Status → Bool
is_opened Status.opened = true
is_opened Status.closed = false

-- `Remote`, which fails where the session is not live: then the answer is false.
abbrev pub remote : Bytes → Bool → Manager → Bool
remote id in_ssh m = if has live_id id m.live then in_ssh else false

abbrev pub state_reply : Bytes → Bool → Manager → Result Session × Db → Reply × Manager
state_reply id in_ssh m (err e, db) =
    (record { code = 404; body = Body.refusal (codes "no such session") }, record m { db = db })
state_reply id in_ssh m (ok s, db) =
    let is_open = is_opened s.status in
    let is_remote = if is_open then remote id in_ssh m else false in
    (record { code = 200; body = Body.session_state id is_open is_remote }, record m { db = db })

unfoldable pub handle_session_state : Bytes → Bool → Manager → Reply × Manager
handle_session_state id in_ssh m = state_reply id in_ssh m (get_session id m.db)

pub record SendKeysReq : Type 0 where
  pub keys : Bytes
  pub await_done : Option Bool
  pub timeout_ms : ℤ

abbrev pub awaited : Option Bool → Bool
awaited none = true
awaited (some b) = b

-- Behind `SendKeys`; none where it gave no result.
abbrev pub keys_reply : Bytes → Option (Result Sent) → Option Reply
keys_reply id none = none
keys_reply id (some (err e)) = some (record { code = 500; body = Body.failure e })
keys_reply id (some (ok s)) = some (record { code = 200; body = Body.keys_sent id s })

-- What is written to the PTY, and the reply.
unfoldable pub handle_send_keys :
    (nonce id : Bytes) → Option SendKeysReq → Shell → Manager → Option Bytes × Option Reply
unfolding send_keys
handle_send_keys nonce id none shell m =
    (none, some (record { code = 400; body = Body.refusal (codes "bad json") }))
handle_send_keys nonce id (some req) shell m =
    let (written, result) =
      send_keys nonce req.keys (awaited req.await_done) req.timeout_ms
        (record shell { is_live = has live_id id m.live }) in
    (written, keys_reply id result)
