-- ===== src/Session/Manager/Live.antt =====
-- The rows of sessions against the live terminals.
use hopskip.Base.{
  ◌≡◌, refl, ap, inl, inr, Bool, true, false, ◌&&◌, ◌||◌, Option, none, List, [], ◌∷◌, ◌++◌, map,
  arith, if◌then◌else◌, Bool-cases, ◌==◌, eq_refl, nat_eq, bytes_eq, bytes_beq_iff, pair_eq, ℤ,
  int_eq, any, All,
}
use hopskip.Text.{Bytes}
use hopskip.Store.Rows.{update_where, delete_where, at_key, has, Keyed}
use hopskip.Store.Db.{Db, calm, ◌>>=◌}
use hopskip.Base.{All-append, All-mono}
use hopskip.Store.Tables.{Tables, Session, Status}
use hopskip.Store.Rows.Laws.{has-delete}
use hopskip.Store.Sessions.{
  session_id, is_open, dangling, create_session, close_session, close_in, close_row,
}
use hopskip.Store.Sessions.Reads.{get_session_lem}
use hopskip.Store.Sessions.Stale.{is_stale, mark_stale_sessions_closed_lem}
use hopskip.Session.Stream.{LiveSession}
use hopskip.Session.Manager.{
  Manager, live_id, put_live, label_of, recorded, start_shell, record_shell, end_session, close,
  close_all_in_db,
}

-- What happens to the manager: `Open` puts a session into the live map and then writes its row, the
-- calls of `Close`, and shells that end, also between the two halves of an `Open`.
pub data Event : Type 0 where
  starts : (id : Bytes) → Event
  records : (now id name label : Bytes) → Option ℤ → Event
  closes ends : (now id : Bytes) → Event

pub step : Event → Manager → Manager
step (starts id) m = start_shell id m
step (records now id name label host_id) m = (record_shell now id name label host_id m).1
step (closes now id) m = (close now id m).1
step (ends now id) m = end_session now id m

pub run : List Event → Manager → Manager
run [] m = m
run (e ∷ es) m = run es (step e m)

-- The session whose row is written although its shell has ended.
abbrev pub orphan_at : Event → Manager → List Bytes
orphan_at (starts id) m = []
orphan_at (records now id name label host_id) m = if has live_id id m.live then [] else id ∷ []
orphan_at (closes now id) m = []
orphan_at (ends now id) m = []

-- Those of a run, with the ones known before.
pub orphans : List Event → List Bytes → Manager → List Bytes
orphans [] os m = os
orphans (e ∷ es) os m = orphans es (orphan_at e m ++ os) (step e m)

abbrev pub is_known : List LiveSession → List Bytes → Bytes → Bool
is_known live os id = has live_id id live || any (λ o. o == id) os

abbrev IsLiveIn : List LiveSession → List Bytes → Session → Type 0
IsLiveIn live os s = is_open s ≡ true → is_known live os s.id ≡ true

-- The driver fails nothing, and every session whose row is open is live, but for those of the list.
pub record IsLive (os : List Bytes) (m : Manager) : Type 0 where
  pub quiet : m.db.faults ≡ []
  pub rows : All (IsLiveIn m.live os) m.db.tables.sessions

has-put_live :
    (id j : Bytes) (live : List LiveSession)
    → has live_id j (put_live id live) ≡ (if j == id then true else has live_id j live)
unfolding any
has-put_live id j live =
    ground (arith, has-delete live_id j id live, bytes_beq_iff id j, bytes_beq_iff j id)

put_live_mono :
    (id j : Bytes) (live : List LiveSession)
    → has live_id j live ≡ true
    → has live_id j (put_live id live) ≡ true
put_live_mono id j live h =
    rw (has-put_live id j live, h)
      (elim (Bool-cases (j == id)) [ inl e ↦ rw e refl | inr e ↦ rw e refl ])

rows_mono :
    (live more : List LiveSession) (os ps : List Bytes) (ss : List Session)
    → ((j : Bytes) → is_known live os j ≡ true → is_known more ps j ≡ true)
    → All (IsLiveIn live os) ss
    → All (IsLiveIn more ps) ss
rows_mono live more os ps ss k = All-mono (λ s h o. k s.id (h o)) ss

-- After the row of the id is closed, the id need not be live.
closed-rows :
    (now id : Bytes) (live : List LiveSession) (os : List Bytes) (ss : List Session)
    → All (IsLiveIn live os) ss
    → All
        (IsLiveIn (delete_where (at_key live_id id) live) os)
        (update_where (λ s. s.id == id && is_open s) (close_row now) ss)
unfolding update_where
closed-rows now id live os [] _ = tt
closed-rows now id live os (s ∷ ss) (h, hs) = elim (Bool-cases (s.id == id && is_open s)) [
  | inl e ↦ rw e (λ o. cc o, closed-rows now id live os ss hs)
  | inr e ↦ rw e (
    λ o.
        let rest = has-delete live_id s.id id live in
        let known = h o in ground (arith, o, e, known, rest),
    closed-rows now id live os ss hs,
  )
]

closed-rows_same :
    (now id : Bytes) (live : List LiveSession) (os : List Bytes) (ss : List Session)
    → All (IsLiveIn live os) ss
    → All (IsLiveIn live os) (update_where (λ s. s.id == id && is_open s) (close_row now) ss)
unfolding update_where
closed-rows_same now id live os [] _ = tt
closed-rows_same now id live os (s ∷ ss) (h, hs) = elim (Bool-cases (s.id == id && is_open s)) [
  | inl e ↦ rw e (λ o. cc o, closed-rows_same now id live os ss hs)
  | inr e ↦ rw e (h, closed-rows_same now id live os ss hs)
]

calm_lem : (db : Db) → db.faults ≡ [] → db ≡ calm db.tables
calm_lem db h = ap (λ f. record db { faults = f }) h

close_session_lem :
    (now id : Bytes) (db : Db)
    → db.faults ≡ []
    → (close_session now id db).1 ≡ calm (close_in now id db.tables)
unfolding close_session ◌>>=◌
close_session_lem now id db h = ap (λ d. (close_session now id d).1) (calm_lem db h)

end_session-IsLive :
    (now id : Bytes) (os : List Bytes) (m : Manager)
    → IsLive os m
    → IsLive os (end_session now id m)
unfolding end_session
end_session-IsLive now id os m v = elim (Bool-cases (has live_id id m.live)) [
  | inl e ↦
      rw (e, close_session_lem now id m.db v.quiet)
        (record { quiet = refl; rows = closed-rows now id m.live os m.db.tables.sessions v.rows })
  | inr e ↦ rw e v
]

close-IsLive :
    (now id : Bytes) (os : List Bytes) (m : Manager) → IsLive os m → IsLive os (close now id m).1
unfolding close end_session
close-IsLive now id os m v = elim (Bool-cases (has live_id id m.live)) [
  | inl e ↦
      rw (e, close_session_lem now id m.db v.quiet)
        (record { quiet = refl; rows = closed-rows now id m.live os m.db.tables.sessions v.rows })
  | inr e ↦
      rw (e, close_session_lem now id m.db v.quiet)
        (record {
          quiet = refl;
          rows = closed-rows_same now id m.live os m.db.tables.sessions v.rows;
        })
]

abbrev new_row : (now id name label : Bytes) → Option ℤ → Session
new_row now id name label host_id = record {
  id = id;
  host_id = host_id;
  tmux_name = name;
  label = label;
  status = Status.opened;
  opened_at = now;
  closed_at = none;
}

-- What `recorded` leaves, in either case of the INSERT.
recorded-IsLive :
    (now id name label : Bytes) (host_id : Option ℤ) (live : List LiveSession) (os : List Bytes)
    (t : Tables)
    → All (IsLiveIn live os) t.sessions
    → is_known live os id ≡ true
    → IsLive os (recorded id live (create_session now id host_id name label (calm t))).1
unfolding create_session ◌>>=◌
recorded-IsLive now id name label host_id live os t v there =
    elim (Bool-cases (has session_id id t.sessions)) [
      | inl e ↦ rw e (record { quiet = refl; rows = v })
      | inr e ↦ elim (Bool-cases (dangling host_id t)) [
        | inl d ↦ rw (e, d) (record { quiet = refl; rows = v })
        | inr d ↦
            let row = new_row now id name label host_id in
            let u : Tables = record t { sessions = t.sessions ++ row ∷ [] } in
            rw (e, d, get_session_lem id u)
              (record {
                quiet = refl;
                rows = All-append (IsLiveIn live os) t.sessions (row ∷ []) v (λ _. there, tt);
              })
      ]
    ]

-- An id that is live, or is among the ones that are not.
self_known :
    (id : Bytes) (live : List LiveSession) (os : List Bytes)
    → is_known live ((if has live_id id live then [] else id ∷ []) ++ os) id ≡ true
unfolding any
self_known id live os = elim (Bool-cases (has live_id id live)) [
  | inl e ↦ rw e refl
  | inr e ↦ rw (e, eq_refl id) refl
]

more_known :
    (live : List LiveSession) (b : Bool) (id j : Bytes) (os : List Bytes)
    → is_known live os j ≡ true
    → is_known live ((if b then [] else id ∷ []) ++ os) j ≡ true
unfolding any
more_known live true id j os h = h
more_known live false id j os h = ground (arith, h)

start_known :
    (live : List LiveSession) (id : Bytes) (os : List Bytes) (j : Bytes)
    → is_known live os j ≡ true
    → is_known (put_live id live) os j ≡ true
start_known live id os j h = let more = has-put_live id j live in ground (arith, h, more)

step-IsLive :
    (e : Event) (os : List Bytes) (m : Manager)
    → IsLive os m
    → IsLive (orphan_at e m ++ os) (step e m)
unfolding step record_shell
step-IsLive (starts id) os m v = record {
  quiet = v.quiet;
  rows =
      rows_mono m.live (put_live id m.live) os os m.db.tables.sessions (start_known m.live id os)
        v.rows;
}
step-IsLive (records now id name label host_id) os m v =
    let ps = orphan_at (records now id name label host_id) m ++ os in
    rw (calm_lem m.db v.quiet) (
      recorded-IsLive now id name (label_of id label) host_id m.live ps m.db.tables
        (rows_mono m.live m.live os ps m.db.tables.sessions
          (λ j. more_known m.live (has live_id id m.live) id j os) v.rows)
        (self_known id m.live os))
step-IsLive (closes now id) os m v = close-IsLive now id os m v
step-IsLive (ends now id) os m v = end_session-IsLive now id os m v

run-IsLive_from :
    (es : List Event) (os : List Bytes) (m : Manager)
    → IsLive os m
    → IsLive (orphans es os m) (run es m)
unfolding run orphans
run-IsLive_from [] os m v = v
run-IsLive_from (e ∷ es) os m v =
    run-IsLive_from es (orphan_at e m ++ os) (step e m) (step-IsLive e os m v)

All-closed :
    (now : Bytes) (ss : List Session)
    → All (IsLiveIn [] []) (map (λ s. if is_stale (λ _. false) s then close_row now s else s) ss)
unfolding any
All-closed now [] = tt
All-closed now (s ∷ ss) = elim (Bool-cases (is_stale (λ _. false) s)) [
  | inl e ↦ rw e (λ o. cc o, All-closed now ss)
  | inr e ↦ rw e (λ o. ground (arith, o, e), All-closed now ss)
]

close_all_in_db-IsLive :
    (now : Bytes) (t : Tables)
    → Keyed session_id t.sessions
    → IsLive [] (close_all_in_db now (calm t))
unfolding close_all_in_db
close_all_in_db-IsLive now t k =
    rw (mark_stale_sessions_closed_lem now (λ _. false) t k)
      (record { quiet = refl; rows = All-closed now t.sessions })

-- From the start of the daemon, on a driver that fails nothing and whatever rows the last run of
-- the daemon left, with distinct ids: through any starts of shells, writes of their rows, calls of
-- `Close` and ends of shells, in any order, each session whose row is open has a live terminal, but
-- for those that were not live when `Open` wrote their rows.
pub run-IsLive :
    (now : Bytes) (es : List Event) (t : Tables)
    → Keyed session_id t.sessions
    → IsLive (orphans es [] (close_all_in_db now (calm t))) (run es (close_all_in_db now (calm t)))
run-IsLive now es t k = run-IsLive_from es [] _ (close_all_in_db-IsLive now t k)
