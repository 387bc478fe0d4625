-- ===== src/Store/Hosts/Pinned.antt =====
-- Hosts that a session was once recorded for, through every call.
use hopskip.Base.{
  ℕ, ◌≡◌, refl, ap, sym, ◌∙◌, inl, inr, Bool, Bool-cases, true, false, not, ◌&&◌, ◌||◌, Option,
  some, List, [], ◌∷◌, ◌++◌, arith, if◌then◌else◌, ◌==◌, eq_refl, nat_eq, bytes_eq, pair_eq, ℤ,
  int_eq, int_beq_iff, any,
}
use hopskip.Text.{Bytes}
use hopskip.Store.Rows.{update_where, has}
use hopskip.Store.Rows.Laws.{has-append, has-delete, has-update}
use hopskip.Store.Tables.{Tables, Session, Error, unique_violation, foreign_key_violation}
use hopskip.Store.Db.{Result, ok, err, Db, strike, settle, exec, continue, ◌>>=◌}
use hopskip.Store.Db.Keeps.{Keeps, Keeps-exec, Keeps-bind, Keeps-if, Keeps-pure, Keeps-fail}
use hopskip.Store.Sessions.{session_id, create_session, close_session, close_row, dangling}
use hopskip.Store.Hosts.{
  host_id, host_name, tag_key, fact_key, refers_to, name_taken, without_host, affected, add_host,
  delete_host, tag_host, delete_tag, update_host, record_fact, delete_fact,
}
use hopskip.Store.Hosts.Integrity.{
  Leaves-if, Call, adds, deletes, tags, untags, updates, records, forgets, opens, closes, call,
  calls,
}

any-append-last :
    (p : Session → Bool) (ss : List Session) (s : Session)
    → any p ss ≡ true
    → any p (ss ++ s ∷ []) ≡ true
unfolding any
any-append-last p [] s h = absurd cc
any-append-last p (x ∷ ss) s h = let rest = any-append-last p ss s in ground (arith, h, rest)

any-last :
    (p : Session → Bool) (ss : List Session) (s : Session)
    → p s ≡ true
    → any p (ss ++ s ∷ []) ≡ true
unfolding any
any-last p [] s h = rw h refl
any-last p (x ∷ ss) s h = let rest = any-last p ss s h in ground (arith, rest)

refers-closed :
    (id : ℤ) (now : Bytes) (q : Session → Bool) (ss : List Session)
    → any (refers_to id) (update_where q (close_row now) ss) ≡ any (refers_to id) ss
unfolding any update_where
refers-closed id now q [] = refl
refers-closed id now q (s ∷ ss) = elim (Bool-cases (q s)) [
  | inl e ↦ rw e (ap (λ b. refers_to id s || b) (refers-closed id now q ss))
  | inr e ↦ rw e (ap (λ b. refers_to id s || b) (refers-closed id now q ss))
]

module _ (id : ℤ) where
  -- The host is there, and a session refers to it, open or closed.
  pub record IsPinned (t : Tables) : Type 0 where
    pub there : has host_id id t.hosts ≡ true
    pub used : any (refers_to id) t.sessions ≡ true

  unmoved : (t u : Tables) → u.hosts ≡ t.hosts → u.sessions ≡ t.sessions → IsPinned t → IsPinned u
  unmoved t u h s v = record { there = rw h v.there; used = rw s v.used }

  add_host-IsPinned : (now name notes : Bytes) → Keeps IsPinned (add_host now name notes)
  unfolding add_host
  add_host-IsPinned now name notes = Keeps-exec _ λ t v.
      Leaves-if IsPinned (has host_name name t.hosts) _ _ (λ _. tt)
        λ free. record { there = rw (has-append host_id id t.hosts _, v.there) refl; used = v.used }

  affected-IsPinned : (n : ℕ) → Keeps IsPinned (affected n)
  unfolding affected
  affected-IsPinned n = Keeps-if (n == 0) _ _ (λ _. Keeps-fail _) (λ _. Keeps-pure _)

  -- Another host than this one is deleted.
  kept-there :
      (j : ℤ) (t : Tables) → any (refers_to j) t.sessions ≡ false → IsPinned t → (id == j) ≡ false
  kept-there j t free v = elim (Bool-cases (id == j)) [
    | inl e ↦
        let same : id ≡ j = (int_beq_iff id j).0 e in
        let used : any (refers_to j) t.sessions ≡ true = rw (sym same) v.used in absurd cc
    | inr e ↦ e
  ]

  delete_host-IsPinned : (j : ℤ) → Keeps IsPinned (delete_host j)
  unfolding delete_host
  delete_host-IsPinned j =
      Keeps-bind _ _
        (Keeps-exec _ λ t v.
          Leaves-if IsPinned (not (has host_id j t.hosts)) _ _ (λ _. v)
            λ _.
              Leaves-if IsPinned (any (refers_to j) t.sessions) _ _ (λ _. tt)
                λ free. record {
                  there = rw (has-delete host_id id j t.hosts, kept-there j t free v) v.there;
                  used = v.used;
                })
        affected-IsPinned

  update_host-IsPinned : (j : ℤ) (name notes : Bytes) → Keeps IsPinned (update_host j name notes)
  unfolding update_host
  update_host-IsPinned j name notes =
      Keeps-bind _ _
        (Keeps-exec _ λ t v.
          Leaves-if IsPinned (not (has host_id j t.hosts)) _ _ (λ _. v)
            λ _.
              Leaves-if IsPinned (name_taken j name t) _ _ (λ _. tt)
                λ free. record {
                  there = has-update host_id _ (λ r. refl) _ id t.hosts ∙ v.there;
                  used = v.used;
                })
        affected-IsPinned

  create_session-IsPinned :
      (now sid : Bytes) (host : Option ℤ) (tmux_name label : Bytes)
      → Keeps IsPinned (create_session now sid host tmux_name label)
  unfolding create_session
  create_session-IsPinned now sid host tmux_name label = Keeps-exec _ λ t v.
      Leaves-if IsPinned (has session_id sid t.sessions) _ _ (λ _. tt)
        λ _.
          Leaves-if IsPinned (dangling host t) _ _ (λ _. tt)
            λ _. record {
              there = v.there;
              used = any-append-last (refers_to id) t.sessions _ v.used;
            }

  tag_host-IsPinned : (j : ℤ) (key value : Bytes) → Keeps IsPinned (tag_host j key value)
  unfolding tag_host
  tag_host-IsPinned j key value = Keeps-exec _ λ t v.
      Leaves-if IsPinned (not (has host_id j t.hosts) && not (has tag_key (j, key) t.host_tags)) _ _
        (λ _. tt) (λ _. unmoved t _ refl refl v)

  record_fact-IsPinned :
      (now : Bytes) (j : ℤ) (key value : Bytes) → Keeps IsPinned (record_fact now j key value)
  unfolding record_fact
  record_fact-IsPinned now j key value = Keeps-exec _ λ t v.
      Leaves-if IsPinned (not (has host_id j t.hosts) && not (has fact_key (j, key) t.host_facts)) _
        _ (λ _. tt) (λ _. unmoved t _ refl refl v)

  delete_tag-IsPinned : (j : ℤ) (key : Bytes) → Keeps IsPinned (delete_tag j key)
  unfolding delete_tag
  delete_tag-IsPinned j key = Keeps-exec _ λ t v. unmoved t _ refl refl v

  delete_fact-IsPinned : (j : ℤ) (key : Bytes) → Keeps IsPinned (delete_fact j key)
  unfolding delete_fact
  delete_fact-IsPinned j key = Keeps-exec _ λ t v. unmoved t _ refl refl v

  close_session-IsPinned : (now sid : Bytes) → Keeps IsPinned (close_session now sid)
  unfolding close_session
  close_session-IsPinned now sid =
      Keeps-exec _
        λ t v. record { there = v.there; used = refers-closed id now _ t.sessions ∙ v.used }

  call-IsPinned : (c : Call) (db : Db) → IsPinned db.tables → IsPinned (call c db).tables
  unfolding call
  call-IsPinned (adds now name notes) = (add_host-IsPinned now name notes).at
  call-IsPinned (deletes j) = (delete_host-IsPinned j).at
  call-IsPinned (tags j key value) = (tag_host-IsPinned j key value).at
  call-IsPinned (untags j key) = (delete_tag-IsPinned j key).at
  call-IsPinned (updates j name notes) = (update_host-IsPinned j name notes).at
  call-IsPinned (records now j key value) = (record_fact-IsPinned now j key value).at
  call-IsPinned (forgets j key) = (delete_fact-IsPinned j key).at
  call-IsPinned (opens now sid host tmux_name label) =
      (create_session-IsPinned now sid host tmux_name label).at
  call-IsPinned (closes now sid) = (close_session-IsPinned now sid).at

  calls-IsPinned : (cs : List Call) (db : Db) → IsPinned db.tables → IsPinned (calls cs db).tables
  unfolding calls
  calls-IsPinned [] db v = v
  calls-IsPinned (c ∷ cs) db v = calls-IsPinned cs (call c db) (call-IsPinned c db v)

-- A statement that succeeded did what it does to the rows.
settle-ok :
    (rest : List Bool) (t : Tables) (r : Result (Unit × Tables)) (db : Db)
    → settle rest t r ≡ (ok tt, db)
    → r ≡ ok (tt, db.tables)
unfolding settle
settle-ok rest t (ok (_, u)) db e = ap (λ p. ok (tt, p.1.tables)) e
settle-ok rest t (err f) db e = absurd cc

strike-ok :
    (faults : List Bool) (t : Tables) (q : Tables → Result (Unit × Tables)) (db : Db)
    → strike faults t q ≡ (ok tt, db)
    → q t ≡ ok (tt, db.tables)
unfolding strike
strike-ok [] t q db e = settle-ok [] t (q t) db e
strike-ok (true ∷ rest) t q db e = absurd cc
strike-ok (false ∷ rest) t q db e = settle-ok rest t (q t) db e

-- An error, and the rows as they were.
abbrev pub Fails : {A : Type 0} → Tables → Result A × Db → Type 0
Fails t p = (e : Error) × (p.0 ≡ err e) × (p.1.tables ≡ t)

strike-Fails :
    {A : Type 0} (faults : List Bool) (t : Tables) (q : Tables → Result (A × Tables)) (e : Error)
    → q t ≡ err e
    → Fails t (strike faults t q)
unfolding strike settle
strike-Fails [] t q e h = rw h (_, refl, refl)
strike-Fails (true ∷ rest) t q e h = (_, refl, refl)
strike-Fails (false ∷ rest) t q e h = rw h (_, refl, refl)

continue-Fails :
    {A B : Type 0} (t : Tables) (p : Result A × Db) (f : A → Db → Result B × Db)
    → Fails t p
    → Fails t (continue p f)
unfolding continue
continue-Fails t (ok a, db) f (e, h, k) = absurd cc
continue-Fails t (err d, db) f (e, h, k) = (d, refl, k)

abbrev inserts : (taken missing : Bool) → Session → Tables → Result (Unit {0} × Tables)
inserts taken missing row t =
    if taken
    then err unique_violation
    else if missing
    then err foreign_key_violation
    else ok (tt, record t { sessions = t.sessions ++ row ∷ [] })

abbrev tables_or : Tables → Result (Unit {0} × Tables) → Tables
tables_or t (ok (_, u)) = u
tables_or t (err e) = t

-- What the INSERT did, where it succeeded.
inserted-IsPinned :
    (id : ℤ) (t u : Tables) (row : Session) (taken missing : Bool)
    → missing ≡ not (has host_id id t.hosts)
    → refers_to id row ≡ true
    → inserts taken missing row t ≡ ok (tt, u)
    → IsPinned id u
inserted-IsPinned id t u row true missing e r h = absurd cc
inserted-IsPinned id t u row false true e r h = absurd cc
inserted-IsPinned id t u row false false e r h =
    let same : record t { sessions = t.sessions ++ row ∷ [] } ≡ u = ap (tables_or t) h in
    rw (sym same)
      (record { there = ground (arith, e); used = any-last (refers_to id) t.sessions row r })

recorded-IsPinned :
    (now sid : Bytes) (id : ℤ) (tmux_name label : Bytes) (db db1 : Db)
    → create_session now sid (some id) tmux_name label db ≡ (ok tt, db1)
    → IsPinned id db1.tables
unfolding create_session exec dangling
recorded-IsPinned now sid id tmux_name label db db1 e =
    inserted-IsPinned id db.tables db1.tables _ _ _ refl (eq_refl id)
      (strike-ok db.faults db.tables _ db1 e)

delete_host-Fails : (id : ℤ) (db : Db) → IsPinned id db.tables → Fails db.tables (delete_host id db)
unfolding delete_host ◌>>=◌ exec
delete_host-Fails id db v =
    let q : Tables → Result (ℕ × Tables) = λ t.
      if not (has host_id id t.hosts)
      then ok (0, t)
      else if any (refers_to id) t.sessions
      then err foreign_key_violation
      else ok (1, without_host id t) in
    let blocked : q db.tables ≡ err foreign_key_violation = rw (v.there, v.used) refl in
    continue-Fails db.tables (strike db.faults db.tables q) affected
      (strike-Fails db.faults db.tables q foreign_key_violation blocked)

-- Once a session was recorded for a host, the host can never be deleted again: whatever calls
-- follow, the end of the session among them, and whichever of their statements the driver fails,
-- deleting the host reports an error and changes no row, and the host is still there.
pub delete_host_blocked :
    (now sid : Bytes) (id : ℤ) (tmux_name label : Bytes) (db db1 : Db) (cs : List Call)
    → create_session now sid (some id) tmux_name label db ≡ (ok tt, db1)
    → Fails (calls cs db1).tables (delete_host id (calls cs db1))
      × (has host_id id (calls cs db1).tables.hosts ≡ true)
delete_host_blocked now sid id tmux_name label db db1 cs e =
    let pinned = calls-IsPinned id cs db1 (recorded-IsPinned now sid id tmux_name label db db1 e) in
    (delete_host-Fails id (calls cs db1) pinned, pinned.there)
