-- ===== src/Store/Sessions.antt =====
-- internal/store/store.go: terminal sessions and the audit log.
pub mod Stale
pub mod Reads
use hopskip.Base.{
  Bool, true, false, not, ◌&&◌, Option, none, some, List, [], ◌∷◌, ◌++◌, map, if◌then◌else◌, ◌==◌,
  nat_eq, bytes_eq, pair_eq, bytes_leb, ℤ, int_eq, keep,
}
use hopskip.Text.{Bytes}
use hopskip.Store.Tables.{
  Tables, HostRow, Session, Status, Audit, not_found, unique_violation, foreign_key_violation,
}
use hopskip.Store.Rows.{update_where, order_by, next_id, has, row}
use hopskip.Store.Db.{ok, err, M, pure, fail, exec, query, ◌>>=◌, ◌>>◌}

abbrev pub session_id : Session → Bytes
session_id s = s.id

abbrev pub is_open : Session → Bool
is_open s = elim s.status [ Status.opened ↦ true | Status.closed ↦ false ]

-- A host_id that is no host's, where one is given.
unfoldable pub dangling : Option ℤ → Tables → Bool
dangling none t = false
dangling (some h) t = not (has (λ (r : HostRow). r.id) h t.hosts)

unfoldable pub create_session : Bytes → Bytes → Option ℤ → Bytes → Bytes → M Unit
unfolding dangling
create_session now id host_id tmux_name label = exec λ t.
    let new : Session = record {
      id = id;
      host_id = host_id;
      tmux_name = tmux_name;
      label = label;
      status = Status.opened;
      opened_at = now;
      closed_at = none;
    } in
    if has session_id id t.sessions
    then err unique_violation
    else if dangling host_id t
    then err foreign_key_violation
    else ok (tt, record t { sessions = t.sessions ++ new ∷ [] })

abbrev or_not_found : {A : Type 0} → Option A → M A
or_not_found none = fail not_found
or_not_found (some a) = pure a

unfoldable pub get_session : Bytes → M Session
get_session id = do found ← query (λ t. row session_id id t.sessions); or_not_found found

unfoldable pub list_sessions : M (List Session)
list_sessions = query (λ t. order_by (λ a b. bytes_leb b.opened_at a.opened_at) t.sessions)

abbrev pub close_row : Bytes → Session → Session
close_row now s = record s { status = Status.closed; closed_at = some now }

-- UPDATE sessions … WHERE id = ? AND status = 'open'
abbrev pub close_in : Bytes → Bytes → Tables → Tables
close_in now id t = record t {
  sessions = update_where (λ s. s.id == id && is_open s) (close_row now) t.sessions;
}

unfoldable pub close_session : Bytes → Bytes → M Unit
close_session now id = exec λ t. ok (tt, close_in now id t)

-- The ids of the open sessions whose terminal is gone.
abbrev pub stale : (Bytes → Bool) → List Session → List Bytes
stale alive ss = map session_id (keep (λ s. not (alive s.tmux_name)) (keep is_open ss))

pub close_each : Bytes → List Bytes → M Unit
close_each now [] = pure tt
close_each now (id ∷ ids) = close_session now id >> close_each now ids

pub mark_stale_sessions_closed : Bytes → (Bytes → Bool) → M Unit
unfolding close_each
mark_stale_sessions_closed now alive = do
  ids ← query (λ t. stale alive t.sessions)
  close_each now ids

abbrev audit_id : Audit → ℤ
audit_id a = a.id

pub insert_audit : Bytes → Bytes → Bytes → Bytes → Bytes → Bytes → M Unit
insert_audit now direction provider conversation body_path meta = exec λ t.
    let new : Audit = record {
      id = next_id audit_id t.audit_log;
      ts = now;
      direction = direction;
      provider = provider;
      conversation = conversation;
      body_path = body_path;
      meta = meta;
    } in
    ok (tt, record t { audit_log = t.audit_log ++ new ∷ [] })
