-- ===== src/Session/Manager.antt =====
-- internal/session/manager.go: the live sessions and their rows. How the shell starts, and the id
-- and the process name that it gets, are arguments; the end of a shell is an event of its own.
pub mod Live
use hopskip.Base.{
  ℕ, zero, suc, ◌+◌, ◌-◌, ◌*◌, ◌≤◌, ◌<◌, ◌≡◌, refl, sym, ap, ◌∙◌, ◌≢◌, ◌↔◌, ◌⊎◌, inl, inr, Bool,
  true, false, not, ◌&&◌, ◌||◌, Option, none, some, List, [], ◌∷◌, ◌++◌, map, append-nil,
  append_assoc, arith, ltb, leb, if◌then◌else◌, Bool-cases, Option-cases, Eq, ◌==◌, eq_iff, eq_refl,
  nat_eq, bytes_eq, bytes_beq, bytes_beq_iff, pair_eq, bytes_leb, ℤ, pos, negsuc, int_eq, int_leb,
  int_beq_iff, length, take, drop, min, keep, find, any, all, All,
}
use hopskip.Text.{Bytes, codes}
use hopskip.Store.Rows.{
  update_where, delete_where, order_by, insert_by, next_id, at_key, has, row, upsert, Keyed,
}
use hopskip.Store.Db.{
  Result, ok, err, Db, M, calm, pure, fail, exec, query, catch, ◌>>=◌, ◌>>◌, transaction, result_or,
}
use hopskip.Store.Tables.{Tables, Session, Error, message}
use hopskip.Store.Sessions.{create_session, get_session, close_session, mark_stale_sessions_closed}
use hopskip.Session.Stream.{LiveSession, new_session}

pub record Manager : Type 0 where
  pub live : List LiveSession
  pub db : Db

abbrev pub live_id : LiveSession → Bytes
live_id ls = ls.id

-- `m.live[id] = ls`
abbrev pub put_live : Bytes → List LiveSession → List LiveSession
put_live id live = new_session id ∷ delete_where (at_key live_id id) live

abbrev pub label_of : (id label : Bytes) → Bytes
label_of id label = if label == [] then codes "session-" ++ take 6 id else label

-- Behind `CreateSession`: where it fails the shell is killed, and the session is live until its end.
abbrev pub recorded :
    (id : Bytes) → List LiveSession → Result {0} Unit × Db → Result Session × Manager
recorded id live (err e, db) = (err e, record { live = live; db = db })
recorded id live (ok _, db) =
    let (r, db1) = get_session id db in (r, record { live = live; db = db1 })

-- `teardown` of the live session with the id, as `pump` calls it at the end of the shell.
unfoldable pub end_session : (now id : Bytes) → Manager → Manager
end_session now id m =
    if has live_id id m.live
    then record {
      live = delete_where (at_key live_id id) m.live;
      db = (close_session now id m.db).1;
    }
    else m

-- How a shell starts: not at all; so that it lives on; or so that it exits at once, and `pump`, which
-- runs beside `Open`, tears the session down before its row is written.
pub data Spawn : Type 0 where
  unstarted lives exits : Spawn

-- `Open` up to `go m.pump(ls)`.
abbrev pub start_shell : (id : Bytes) → Manager → Manager
start_shell id m = record m { live = put_live id m.live }

-- `Open` from `CreateSession` on.
unfoldable pub record_shell :
    (now id name label : Bytes) → Option ℤ → Manager → Result Session × Manager
record_shell now id name label host_id m =
    recorded id m.live (create_session now id host_id name (label_of id label) m.db)

-- `Open`
unfoldable pub open_shell :
    (now id : Bytes) → Spawn → (name label : Bytes) → Option ℤ → Manager → Result Session × Manager
unfolding end_session record_shell
open_shell now id unstarted name label host_id m = (err (message (codes "start shell")), m)
open_shell now id lives name label host_id m =
    record_shell now id name label host_id (start_shell id m)
open_shell now id exits name label host_id m =
    record_shell now id name label host_id (end_session now id (start_shell id m))

-- `Close`
unfoldable pub close : (now id : Bytes) → Manager → Result {0} Unit × Manager
unfolding end_session
close now id m =
    let (r, db) = close_session now id m.db in
    if has live_id id m.live then (ok tt, end_session now id m) else (r, record m { db = db })

-- `CloseAllInDB`, when the daemon starts.
unfoldable pub close_all_in_db : (now : Bytes) → Db → Manager
close_all_in_db now db = record {
  live = [];
  db = (mark_stale_sessions_closed now (λ _. false) db).1;
}
