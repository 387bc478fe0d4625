-- ===== src/Store/Sessions/Stale.antt =====
-- The sessions that are closed when the daemon starts.
use hopskip.Base.{
  ◌≡◌, refl, sym, ap, ◌∙◌, inl, inr, Bool, false, not, ◌&&◌, List, [], ◌∷◌, map, arith,
  if◌then◌else◌, Bool-cases, ◌==◌, eq_refl, nat_eq, bytes_eq, bytes_beq_iff, pair_eq, int_eq, keep,
  any,
}
use hopskip.Text.{Bytes}
use hopskip.Store.Rows.{update_where, has, Keyed}
use hopskip.Store.Db.{ok, calm, ◌>>=◌}
use hopskip.Store.Tables.{Tables, Session}
use hopskip.Store.Sessions.{
  session_id, is_open, close_row, close_in, close_session, stale, close_each,
  mark_stale_sessions_closed,
}

-- The ids closed one after another.
shut : Bytes → List Bytes → List Session → List Session
shut now [] ss = ss
shut now (id ∷ ids) ss =
    shut now ids (update_where (λ s. s.id == id && is_open s) (close_row now) ss)

close_each_lem :
    (now : Bytes) (ids : List Bytes) (t : Tables)
    → close_each now ids (calm t) ≡ (ok tt, calm (record t { sessions = shut now ids t.sessions }))
unfolding close_each close_session shut ◌>>=◌
close_each_lem now [] t = refl
close_each_lem now (id ∷ ids) t = close_each_lem now ids (close_in now id t)

abbrev among : List Bytes → Session → Bool
among ids s = any (λ id. id == s.id) ids

-- The open sessions among the ids, all closed at once.
abbrev closing : Bytes → List Bytes → List Session → List Session
closing now ids = map (λ s. if among ids s && is_open s then close_row now s else s)

closing-update :
    (now id : Bytes) (ids : List Bytes) (ss : List Session)
    → closing now ids (update_where (λ s. s.id == id && is_open s) (close_row now) ss)
      ≡ closing now (id ∷ ids) ss
unfolding update_where any
closing-update now id ids [] = refl
closing-update now id ids (s ∷ ss) =
    ground (arith, closing-update now id ids ss, bytes_beq_iff s.id id, bytes_beq_iff id s.id)

closing-nil : (now : Bytes) (ss : List Session) → closing now [] ss ≡ ss
unfolding any
closing-nil now [] = refl
closing-nil now (s ∷ ss) = ap (◌∷◌ s) (closing-nil now ss)

shut-closing :
    (now : Bytes) (ids : List Bytes) (ss : List Session) → shut now ids ss ≡ closing now ids ss
unfolding shut
shut-closing now [] ss = sym (closing-nil now ss)
shut-closing now (id ∷ ids) ss = shut-closing now ids _ ∙ closing-update now id ids ss

module _ (alive : Bytes → Bool) where
  abbrev pub is_stale : Session → Bool
  is_stale s = is_open s && not (alive s.tmux_name)

  stale-cons :
      (s : Session) (ss : List Session)
      → stale alive (s ∷ ss) ≡ (if is_stale s then s.id ∷ stale alive ss else stale alive ss)
  unfolding keep
  stale-cons s ss = ground arith

  -- An id that no session has is no stale one's.
  any-stale :
      (id : Bytes) (ss : List Session)
      → has session_id id ss ≡ false
      → any (λ j. j == id) (stale alive ss) ≡ false
  unfolding any keep
  any-stale id [] h = refl
  any-stale id (s ∷ ss) h = ground (arith, any-stale id ss)

  closing_more :
      (now id : Bytes) (ids : List Bytes) (ss : List Session)
      → has session_id id ss ≡ false
      → closing now (id ∷ ids) ss ≡ closing now ids ss
  unfolding any
  closing_more now id ids [] h = refl
  closing_more now id ids (s ∷ ss) h =
      ground (arith, closing_more now id ids ss, bytes_beq_iff s.id id, bytes_beq_iff id s.id)

  closing_cons :
      (now : Bytes) (ids : List Bytes) (s : Session) (ss : List Session)
      → (among ids s && is_open s) ≡ is_stale s
      → closing now ids ss ≡ map (λ x. if is_stale x then close_row now x else x) ss
      → closing now ids (s ∷ ss) ≡ map (λ x. if is_stale x then close_row now x else x) (s ∷ ss)
  closing_cons now ids s ss h k =
      ap (λ b. (if b then close_row now s else s) ∷ closing now ids ss) h
      ∙ ap (◌∷◌ (if is_stale s then close_row now s else s)) k

  closing-stale :
      (now : Bytes) (ss : List Session)
      → Keyed session_id ss
      → closing now (stale alive ss) ss ≡ map (λ s. if is_stale s then close_row now s else s) ss
  unfolding any
  closing-stale now [] _ = refl
  closing-stale now (s ∷ ss) (fresh, k) = elim (Bool-cases (is_stale s)) [
    | inl e ↦
        let st : stale alive (s ∷ ss) ≡ s.id ∷ stale alive ss = stale-cons s ss ∙ rw e refl in
        ap (λ ids. closing now ids (s ∷ ss)) st
        ∙ closing_cons now (s.id ∷ stale alive ss) s ss (ground (arith, eq_refl s.id, e))
            (closing_more now s.id (stale alive ss) ss fresh ∙ closing-stale now ss k)
    | inr e ↦
        let st : stale alive (s ∷ ss) ≡ stale alive ss = stale-cons s ss ∙ rw e refl in
        ap (λ ids. closing now ids (s ∷ ss)) st
        ∙ closing_cons now (stale alive ss) s ss (rw (any-stale s.id ss fresh) (sym e))
            (closing-stale now ss k)
  ]

-- With a driver that fails nothing and distinct ids, exactly the sessions that are open and whose
-- terminal is not alive are closed, at the given time; every other session stays as it was.
pub mark_stale_sessions_closed_lem :
    (now : Bytes) (alive : Bytes → Bool) (t : Tables)
    → Keyed session_id t.sessions
    → mark_stale_sessions_closed now alive (calm t) ≡ (
      ok tt,
      calm (record t {
        sessions = map (λ s. if is_stale alive s then close_row now s else s) t.sessions;
      }),
    )
unfolding mark_stale_sessions_closed ◌>>=◌
mark_stale_sessions_closed_lem now alive t k =
    close_each_lem now (stale alive t.sessions) t
    ∙ ap (λ ss. (ok tt, calm (record t { sessions = ss })))
        (shut-closing now (stale alive t.sessions) t.sessions
          ∙ closing-stale alive now t.sessions k)
