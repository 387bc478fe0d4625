-- ===== src/Server/Socket.antt =====
-- internal/server/ws.go: the read loop and the worker of `handleChatWS`, as the steps that they
-- take in turn. What a run of the agent does is in Agent.Conversations and Server.Recorder; here it
-- begins and ends. The pings are left out.
pub mod Turns
use hopskip.Base.{
  ℕ, ◌+◌, ◌*◌, not, ◌&&◌, Bool, true, false, Option, none, some, List, [], ◌∷◌, ◌++◌, length, ltb,
  if◌then◌else◌, ◌==◌, nat_eq, bytes_eq,
}
use hopskip.Text.{Bytes, codes}
use hopskip.Store.Db.{Db, M, pure, catch, ◌>>◌}
use hopskip.Store.Chats.{ensure_chat, add_chat_message}

pub record Job : Type 0 where
  pub chat_id : Bytes
  pub text : Bytes

-- A frame from the browser; `other` is one that does not decode or has another type.
pub data Message : Type 0 where
  stop other : Message
  user_message : (chat_id text : Bytes) → Message

-- The worker between two jobs; with a job whose run cannot be cancelled yet; in a run, which is
-- cancelled or not.
pub data Worker : Type 0 where
  idle : Worker
  holding : Job → Worker
  running : Job → (cancelled : Bool) → Worker

-- `blocked` is the job with which the read loop waits for the channel; `begun` are the jobs whose
-- runs began, in order.
pub record Socket : Type 0 where
  pub is_reading : Bool
  pub blocked : Option Job
  pub jobs : List Job
  pub worker : Worker
  pub begun : List Job
  pub db : Db

-- The capacity of the channel.
abbrev pub jobs_cap : ℕ
jobs_cap = 8

abbrev pub new_socket : Db → Socket
new_socket db = record {
  is_reading = true;
  blocked = none;
  jobs = [];
  worker = idle;
  begun = [];
  db = db;
}

abbrev pub cancelled_worker : Worker → Worker
cancelled_worker idle = idle
cancelled_worker (holding j) = holding j
cancelled_worker (running j c) = running j true

-- `cancelNow`
unfoldable pub cancel_now : Socket → Socket
cancel_now s = record s { worker = cancelled_worker s.worker }

-- `jobs <- j`
unfoldable pub send_job : Job → Socket → Socket
send_job j s =
    if ltb (length s.jobs) jobs_cap
    then record s { jobs = s.jobs ++ j ∷ [] }
    else record s { blocked = some j }

abbrev pub waits : Option Job → Bool
waits none = false
waits (some j) = true

-- Whether the read loop can read.
abbrev pub is_free : Socket → Bool
is_free s = s.is_reading && not (waits s.blocked)

-- The turn of the user in the store, its errors unread.
abbrev pub persisted : (now : Bytes) → Job → M Unit
persisted now j =
    catch (ensure_chat now j.chat_id)
    >> (catch (add_chat_message now j.chat_id (codes "user") j.text) >> pure tt)

-- A frame that was read.
unfoldable pub handle_message : (now : Bytes) → Message → Socket → Socket
unfolding cancel_now send_job
handle_message now stop s = cancel_now s
handle_message now other s = s
handle_message now (user_message chat_id text) s =
    let j : Job = record { chat_id = chat_id; text = text } in
    if chat_id == [] then s else send_job j (record s { db = (persisted now j s.db).1 })

-- A step of the read loop or of the worker, at the time `now`: a frame comes, the socket breaks; the
-- worker receives a job, sets `cancelCur` and begins the run, ends it.
pub data Event : Type 0 where
  comes : (now : Bytes) → Message → Event
  breaks receives begins ends : Event

abbrev pub unblocked : Option Job → List Job
unblocked none = []
unblocked (some j) = j ∷ []

abbrev pub received : Worker → List Job → Socket → Socket
received idle [] s = s
received idle (j ∷ js) s = record s {
  worker = holding j;
  jobs = js ++ unblocked s.blocked;
  blocked = none;
}
received (holding j) js s = s
received (running j c) js s = s

abbrev pub started : Worker → Socket → Socket
started idle s = s
started (holding j) s = record s { worker = running j false; begun = s.begun ++ j ∷ [] }
started (running j c) s = s

abbrev pub ended : Worker → Worker
ended idle = idle
ended (holding j) = holding j
ended (running j c) = idle

-- A step that cannot be taken changes nothing.
unfoldable pub step : Event → Socket → Socket
unfolding handle_message
step (comes now m) s = if is_free s then handle_message now m s else s
step breaks s = if is_free s then record (cancel_now s) { is_reading = false } else s
step receives s = received s.worker s.jobs s
step begins s = started s.worker s
step ends s = record s { worker = ended s.worker }

unfoldable pub run : List Event → Socket → Socket
unfolding step
run [] s = s
run (e ∷ es) s = run es (step e s)
