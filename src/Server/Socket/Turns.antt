-- ===== src/Server/Socket/Turns.antt =====
-- The turns of the messages of a chat socket.
use hopskip.Base.{
  suc, ◌≤◌, ◌≡◌, refl, ap, sym, ◌∙◌, true, false, Bool-cases, inl, inr, Option, none, some, List,
  [], ◌∷◌, ◌++◌, append-nil, append_assoc, length, length-append, ltb, if◌then◌else◌, arith, ◌==◌,
  nat_eq, bytes_eq,
}
use hopskip.Text.{Bytes}
use hopskip.Store.Db.{Db}
use hopskip.Server.Socket.{
  Job, Message, stop, other, user_message, Worker, idle, holding, running, Socket, jobs_cap,
  new_socket, cancelled_worker, cancel_now, send_job, waits, is_free, persisted, handle_message,
  Event, comes, breaks, receives, begins, ends, unblocked, received, started, ended, step, run,
}

abbrev pub in_hand : Worker → List Job
in_hand idle = []
in_hand (holding j) = j ∷ []
in_hand (running j c) = []

-- The jobs that wait for their runs, the next one first.
abbrev pub waiting : Socket → List Job
waiting s = in_hand s.worker ++ (s.jobs ++ unblocked s.blocked)

-- The job that a message asks for.
abbrev pub asked_in : Message → List Job
asked_in stop = []
asked_in other = []
asked_in (user_message chat_id text) =
    if chat_id == [] then [] else record { chat_id = chat_id; text = text } ∷ []

abbrev pub asked_at : Event → Socket → List Job
asked_at (comes now m) s = if is_free s then asked_in m else []
asked_at breaks s = []
asked_at receives s = []
asked_at begins s = []
asked_at ends s = []

-- The jobs that the messages which are read ask for.
unfoldable pub asked : List Event → Socket → List Job
asked [] s = []
asked (e ∷ es) s = asked_at e s ++ asked es (step e s)

-- The read loop waits only where the channel is full.
pub record IsBounded (s : Socket) : Type 0 where
  pub bounded : length s.jobs ≤ jobs_cap
  pub full : waits s.blocked ≡ true → length s.jobs ≡ jobs_cap

-- All jobs in their order: those whose runs began, and those that wait.
abbrev pub lined : Socket → List Job
lined s = s.begun ++ waiting s

record Steps (s t : Socket) (more : List Job) : Type 0 where
  kept : IsBounded t
  lines : lined t ≡ lined s ++ more

unmoved : (s : Socket) → IsBounded s → Steps s s []
unmoved s v = record { kept = v; lines = sym (append-nil (lined s)) }

-- The worker's part in the order of the jobs is that of another one.
reworked :
    (s : Socket) (w : Worker)
    → in_hand w ≡ in_hand s.worker
    → IsBounded s
    → Steps s (record s { worker = w }) []
reworked s w e v = record {
  kept = record { bounded = v.bounded; full = v.full };
  lines =
      ap (λ h. s.begun ++ (h ++ (s.jobs ++ unblocked s.blocked))) e ∙ sym (append-nil (lined s));
}

cancelled-in_hand : (w : Worker) → in_hand (cancelled_worker w) ≡ in_hand w
cancelled-in_hand idle = refl
cancelled-in_hand (holding j) = refl
cancelled-in_hand (running j c) = refl

ended-in_hand : (w : Worker) → in_hand (ended w) ≡ in_hand w
ended-in_hand idle = refl
ended-in_hand (holding j) = refl
ended-in_hand (running j c) = refl

send_job-Steps :
    (j : Job) (s : Socket) → s.blocked ≡ none → IsBounded s → Steps s (send_job j s) (j ∷ [])
unfolding send_job
send_job-Steps j s e v =
    let none_waits : unblocked s.blocked ≡ [] = ap unblocked e in
    let free : waits s.blocked ≡ false = ap waits e in
    elim (Bool-cases (ltb (length s.jobs) jobs_cap)) [
      | inl room ↦ rw room (record {
        kept = record { bounded = rw length-append (ground (arith, room)); full = λ k. absurd cc };
        lines = simp (none_waits, append-nil, append_assoc) refl;
      })
      | inr crowded ↦ rw crowded (record {
        kept = record { bounded = v.bounded; full = λ _. ground (arith, crowded, v.bounded) };
        lines = simp (none_waits, append-nil, append_assoc) refl;
      })
    ]

unblocked-le : (o : Option Job) → length (unblocked o) ≤ 1
unblocked-le none = omega arith
unblocked-le (some j) = omega arith

received-Steps :
    (w : Worker) (js : List Job) (s : Socket)
    → w ≡ s.worker
    → js ≡ s.jobs
    → IsBounded s
    → Steps s (received w js s) []
received-Steps idle [] s _ _ v = unmoved s v
received-Steps idle (j ∷ js) s at_w at_js v =
    let rest = unblocked s.blocked in
    let size : suc (length js) ≤ jobs_cap = rw (ap length at_js) v.bounded in
    record {
      kept = record {
        bounded = rw length-append (omega (arith, size, unblocked-le s.blocked));
        full = λ k. absurd cc;
      };
      lines =
          ap (λ l. s.begun ++ (j ∷ l)) (append-nil (js ++ rest))
          ∙ ap (λ h. s.begun ++ (in_hand h ++ ((j ∷ js) ++ rest))) at_w
          ∙ ap (λ q. s.begun ++ (in_hand s.worker ++ (q ++ rest))) at_js
          ∙ sym (append-nil (lined s));
    }
received-Steps (holding j) js s _ _ v = unmoved s v
received-Steps (running j c) js s _ _ v = unmoved s v

started-Steps : (w : Worker) (s : Socket) → w ≡ s.worker → IsBounded s → Steps s (started w s) []
started-Steps idle s _ v = unmoved s v
started-Steps (holding j) s at_w v =
    let rest = s.jobs ++ unblocked s.blocked in
    record {
      kept = record { bounded = v.bounded; full = v.full };
      lines =
          append_assoc s.begun (j ∷ []) rest
          ∙ ap (λ h. s.begun ++ (in_hand h ++ rest)) at_w
          ∙ sym (append-nil (lined s));
    }
started-Steps (running j c) s _ v = unmoved s v

handle_message-Steps :
    (now : Bytes) (m : Message) (s : Socket)
    → s.blocked ≡ none
    → IsBounded s
    → Steps s (handle_message now m s) (asked_in m)
unfolding handle_message cancel_now
handle_message-Steps now stop s _ v =
    reworked s (cancelled_worker s.worker) (cancelled-in_hand s.worker) v
handle_message-Steps now other s _ v = unmoved s v
handle_message-Steps now (user_message chat_id text) s e v =
    let j : Job = record { chat_id = chat_id; text = text } in
    let t = record s { db = (persisted now j s.db).1 } in
    elim (Bool-cases (chat_id == [])) [
      | inl nameless ↦ rw nameless (unmoved s v)
      | inr named ↦
          let sent = send_job-Steps j t e (record { bounded = v.bounded; full = v.full }) in
          rw named (record { kept = sent.kept; lines = sent.lines })
    ]

unblocked_when : (s : Socket) → is_free s ≡ true → s.blocked ≡ none
unblocked_when s h = ground (arith, h)

step-Steps : (e : Event) (s : Socket) → IsBounded s → Steps s (step e s) (asked_at e s)
unfolding step cancel_now
step-Steps (comes now m) s v = elim (Bool-cases (is_free s)) [
  | inl free ↦ rw free (handle_message-Steps now m s (unblocked_when s free) v)
  | inr busy ↦ rw busy (unmoved s v)
]
step-Steps breaks s v = elim (Bool-cases (is_free s)) [
  | inl free ↦
      let r = reworked s (cancelled_worker s.worker) (cancelled-in_hand s.worker) v in
      rw free (record { kept = record { bounded = v.bounded; full = v.full }; lines = r.lines })
  | inr busy ↦ rw busy (unmoved s v)
]
step-Steps receives s v = received-Steps s.worker s.jobs s refl refl v
step-Steps begins s v = started-Steps s.worker s refl v
step-Steps ends s v = reworked s (ended s.worker) (ended-in_hand s.worker) v

run-Steps : (es : List Event) (s : Socket) → IsBounded s → Steps s (run es s) (asked es s)
unfolding run asked
run-Steps [] s v = unmoved s v
run-Steps (e ∷ es) s v =
    let first = step-Steps e s v in
    let later = run-Steps es (step e s) first.kept in
    record {
      kept = later.kept;
      lines =
          later.lines
          ∙ ap (λ l. l ++ asked es (step e s)) first.lines
          ∙ append_assoc (lined s) (asked_at e s) (asked es (step e s));
    }

-- Over any frames, breaks and steps of the worker from the start of a chat socket on: the runs that
-- began, followed by the jobs that wait, are those that the messages read so far ask for, each once
-- and in the order of the messages; at most eight of them stand in the channel; and the read loop
-- waits with a ninth only while there are eight.
pub run-IsServed :
    (es : List Event) (db : Db)
    → ((run es (new_socket db)).begun ++ waiting (run es (new_socket db))
        ≡ asked es (new_socket db))
      × IsBounded (run es (new_socket db))
run-IsServed es db =
    let s =
      run-Steps es (new_socket db) (record { bounded = omega arith; full = λ k. absurd cc }) in
    (s.lines, s.kept)
