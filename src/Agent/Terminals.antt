-- ===== src/Agent/Terminals.antt =====
-- internal/agent/tools.go: the tools of `Dispatch` that drive terminals, over the sessions of the
-- daemon.
use hopskip.Base.{Bool, true, false, Option, none, some, [], if◌then◌else◌, ℤ}
use hopskip.Base.{bytes_eq, nat_eq}
use hopskip.Text.{Bytes, codes}
use hopskip.Store.Rows.{has}
use hopskip.Store.Tables.{Error, Session, message}
use hopskip.Store.Db.{Result, ok, err, result_or}
use hopskip.Session.Manager.{Manager, Spawn, live_id, open_shell, close}
use hopskip.Session.Sending.{Shell, Sent, capture, send_keys}
use hopskip.Agent.Prompts.{pre_connect_reminder}

pub record KeysArgs : Type 0 where
  pub session_id : Bytes
  pub keys : Bytes
  pub await_done : Option Bool
  pub timeout_ms : ℤ

-- The JSON of an answer, by its fields; the reminder is empty where the field is left out.
pub data Answer : Type 0 where
  opened : (session_id label : Bytes) → Answer
  sent : (session_id : Bytes) → Sent → (reminder : Bytes) → Answer
  screen : (session_id text : Bytes) → Answer
  closed : Bytes → Answer
  failed : Error → Answer

-- The answer, whether it is an error, and the sessions.
abbrev pub Outcome : Type 0
Outcome = (Answer × Bool) × Manager

abbrev pub failure : Error → Manager → Outcome
failure e m = ((failed e, true), m)

abbrev pub malformed : Manager → Outcome
malformed = failure (message (codes "malformed input"))

abbrev pub opened_as : Result Session × Manager → Outcome
opened_as (err e, m) = failure e m
opened_as (ok s, m) = ((opened s.id s.label, false), m)

-- open_session; the label is empty where the input does not decode.
unfoldable pub open_session_tool :
    (now id : Bytes) (started : Spawn) (name label : Bytes) → Manager → Outcome
open_session_tool now id started name label m =
    opened_as (open_shell now id started name label none m)

abbrev pub awaited : Option Bool → Bool
awaited none = true
awaited (some b) = b

-- The session that the manager has for the id.
abbrev pub shell_of : Bytes → Shell → Manager → Shell
shell_of id shell m = record shell { is_live = has live_id id m.live }

-- Behind `SendKeys`; none where it gave no result.
abbrev pub keys_sent : KeysArgs → Manager → Option (Result Sent) → Option Outcome
keys_sent args m none = none
keys_sent args m (some (err e)) = some (failure e m)
keys_sent args m (some (ok s)) =
    let (reminder, db) = pre_connect_reminder args.keys m.db in
    some ((sent args.session_id s (result_or reminder []), false), record m { db = db })

-- send_keys: what is written to the PTY, and the outcome.
unfoldable pub send_keys_tool :
    (nonce : Bytes) → Option KeysArgs → Shell → Manager → Option Bytes × Option Outcome
unfolding send_keys pre_connect_reminder
send_keys_tool nonce none shell m = (none, some (malformed m))
send_keys_tool nonce (some args) shell m =
    let (written, result) =
      send_keys nonce args.keys (awaited args.await_done) args.timeout_ms
        (shell_of args.session_id shell m) in
    (written, keys_sent args m result)

abbrev pub screen_of : (session_id : Bytes) → Manager → Result Bytes → Outcome
screen_of id m (err e) = failure e m
screen_of id m (ok text) = ((screen id text, false), m)

-- read_screen, of the session and the number of lines; `rendered` is what the emulator shows.
unfoldable pub read_screen_tool : Option (Bytes × ℤ) → (rendered : Bytes) → Manager → Outcome
unfolding capture
read_screen_tool none rendered m = malformed m
read_screen_tool (some (id, lines)) rendered m =
    screen_of id m (capture lines (if has live_id id m.live then some rendered else none))

abbrev pub closed_as : (session_id : Bytes) → Result {0} Unit × Manager → Outcome
closed_as id (err e, m) = failure e m
closed_as id (ok _, m) = ((closed id, false), m)

-- close_session
unfoldable pub close_session_tool : (now : Bytes) → Option Bytes → Manager → Outcome
close_session_tool now none m = malformed m
close_session_tool now (some id) m = closed_as id (close now id m)

-- A tool call on terminals, with what the shell, the emulator and the input give.
pub data Call : Type 0 where
  opens : (now id : Bytes) (started : Spawn) (name label : Bytes) → Call
  types : (nonce : Bytes) → Option KeysArgs → Shell → Call
  reads : Option (Bytes × ℤ) → (rendered : Bytes) → Call
  closes : (now : Bytes) → Option Bytes → Call

-- These cases of `Dispatch`; none where `SendKeys` gave no result.
unfoldable pub dispatch_terminal : Call → Manager → Option Outcome
unfolding open_session_tool send_keys_tool read_screen_tool close_session_tool
dispatch_terminal (opens now id started name label) m =
    some (open_session_tool now id started name label m)
dispatch_terminal (types nonce args shell) m = (send_keys_tool nonce args shell m).1
dispatch_terminal (reads args rendered) m = some (read_screen_tool args rendered m)
dispatch_terminal (closes now id) m = some (close_session_tool now id m)
