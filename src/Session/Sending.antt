-- ===== src/Session/Sending.antt =====
-- internal/session/manager.go: `SendKeys` and `Capture`. The session, what its terminal shows at each
-- look and the clock, in nanoseconds since the command was typed, are arguments.
pub mod Stamps
pub mod Waiting
use hopskip.Base.{
  ℕ, zero, suc, ◌+◌, ◌-◌, ◌*◌, ◌/◌, ◌%◌, ◌^◌, not, ◌&&◌, Bool, true, false, Option, none, some,
  List, [], ◌∷◌, ◌++◌, drop, take, length, leb, ltb, if◌then◌else◌, ◌==◌, nat_eq, min, bytes_eq,
  pair_eq, int_eq, ℤ, pos, negsuc,
}
use hopskip.Text.{Bytes, codes}
use hopskip.Text.Search.{has_prefix, has_suffix}
use hopskip.Store.Db.{Result, ok, err}
use hopskip.Store.Tables.{message}
use hopskip.Agent.Limits.{is_digit, digits_value, max_int}
use hopskip.Session.Screen.{newline, sentinel, normalize_screen, last_lines, strip_sentinel, to_cr}

-- The digits at the front, and what follows them.
unfoldable pub span_digits : Bytes → Bytes × Bytes
span_digits [] = ([], [])
span_digits (c ∷ s) =
    let rest = span_digits s in if is_digit c then (c ∷ rest.0, rest.1) else ([], c ∷ s)

abbrev pub stamp_end : (nonce : Bytes) → Bytes
stamp_end nonce = b'_' ∷ (nonce ++ codes "__")

-- The digits behind the start of a stamp, where its end follows them.
abbrev pub stamped : (nonce : Bytes) (started : Bool) → Bytes × Bytes → Option Bytes
stamped nonce started span =
    if started && not (span.0 == []) && has_prefix span.1 (stamp_end nonce)
    then some span.0
    else none

-- The exit code that a stamp at the front shows.
unfoldable pub stamp_at : (nonce s : Bytes) → Option Bytes
unfolding span_digits
stamp_at nonce s = stamped nonce (has_prefix s sentinel) (span_digits (drop (length sentinel) s))

abbrev pub first_of : Option Bytes → Option Bytes → Option Bytes
first_of none later = later
first_of (some code) later = some code

-- `FindStringSubmatch` of `__HOPSKIP_DONE_(\d+)_<nonce>__`: the leftmost match.
unfoldable pub find_stamp : (nonce s : Bytes) → Option Bytes
unfolding stamp_at
find_stamp nonce [] = none
find_stamp nonce (c ∷ s) = first_of (stamp_at nonce (c ∷ s)) (find_stamp nonce s)

-- `Atoi` of digits whose error is dropped: the largest integer where they are too many.
unfoldable pub exit_code : Bytes → ℕ
exit_code digits = min (digits_value 0 digits) max_int

abbrev pub trim_newline : Bytes → Bytes
trim_newline keys = if has_suffix keys (newline ∷ []) then take (length keys - 1) keys else keys

-- The line that is typed, with the echo that shows the exit code.
unfoldable pub sent_line : (nonce keys : Bytes) → Bytes
sent_line nonce keys =
    trim_newline keys
    ++ codes "; echo \"__HOPSKIP_DONE_$?"
    ++ stamp_end nonce
    ++ codes "\""
    ++ newline ∷ []

abbrev pub default_timeout : ℕ
default_timeout = 30000

abbrev pub millisecond : ℕ
millisecond = 1000000

-- How long to wait, in nanoseconds: the product is one of 64 bits, and a negative one is over at
-- once.
unfoldable pub wait_of : (timeout_ms : ℤ) → ℕ
wait_of (negsuc n) = default_timeout * millisecond
wait_of (pos n) =
    let product = n * millisecond % 2 ^ 64 in
    if n == 0 then default_timeout * millisecond else if ltb product (2 ^ 63) then product else 0

-- The session behind an id: whether it is live and takes what is typed; the n-th look at its screen,
-- none where it has ended by then; and the time after the n-th look.
pub record Shell : Type 0 where
  pub is_live : Bool
  pub takes : Bool
  pub look : ℕ → Option Bytes
  pub clock : ℕ → ℕ

pub record Sent : Type 0 where
  pub screen : Bytes
  pub code : Option ℕ
  pub completed : Bool

abbrev pub not_live : {A : Type 0} → Result A
not_live = err (message (codes "session is not open"))

-- `Capture`
unfoldable pub capture : (lines : ℤ) → Option Bytes → Result Bytes
unfolding last_lines normalize_screen
capture lines none = not_live
capture lines (some rendered) = ok (last_lines lines (normalize_screen rendered))

abbrev pub timed_out : Bytes → Sent
timed_out screen = record { screen = screen; code = none; completed = false }

abbrev pub finished : Bytes → Bytes → Sent
finished screen digits = record {
  screen = strip_sentinel screen;
  code = some (exit_code digits);
  completed = true;
}

abbrev pub judged :
    (is_late : Bool) → Option (Result Sent) → Bytes → Option Bytes → Option (Result Sent)
judged is_late rest screen (some digits) = some (ok (finished screen digits))
judged is_late rest screen none = if is_late then some (ok (timed_out screen)) else rest

abbrev pub looked :
    (nonce : Bytes) (is_late : Bool) → Option (Result Sent) → Result Bytes → Option (Result Sent)
looked nonce is_late rest (err e) = some (err e)
looked nonce is_late rest (ok screen) = judged is_late rest screen (find_stamp nonce screen)

-- The loop; none where the fuel is out.
unfoldable pub await :
    (fuel : ℕ) → (nonce : Bytes) (wait : ℕ) → Shell → (n : ℕ) → Option (Result Sent)
unfolding capture find_stamp exit_code strip_sentinel
await zero nonce wait shell n = none
await (suc fuel) nonce wait shell n =
    looked nonce (leb wait (shell.clock n)) (await fuel nonce wait shell (suc n))
      (capture (pos 0) (shell.look n))

-- Between two looks there is a sleep of 100 ms.
abbrev pub pause : ℕ
pause = 100 * millisecond

abbrev pub enough_looks : (wait : ℕ) → ℕ
enough_looks wait = suc (suc (wait / pause))

abbrev shown : Result Bytes → Result Sent
shown (err e) = err e
shown (ok screen) = ok (timed_out screen)

-- Behind the write to the PTY.
abbrev pub typed :
    (nonce : Bytes) (wait_done : Bool) (timeout_ms : ℤ) → Shell → Option (Result Sent)
typed nonce false timeout_ms shell = some (shown (capture (pos 0) (shell.look 0)))
typed nonce true timeout_ms shell =
    let wait = wait_of timeout_ms in await (enough_looks wait) nonce wait shell 0

abbrev pub bytes_sent : (nonce keys : Bytes) (wait_done : Bool) → Bytes
bytes_sent nonce keys wait_done = to_cr (if wait_done then sent_line nonce keys else keys)

-- An error before the write, or of it, else what is written and the answer.
abbrev pub guarded :
    (is_live takes : Bool) → Bytes → Option (Result Sent) → Option Bytes × Option (Result Sent)
guarded is_live takes written answer =
    if not is_live
    then (none, some not_live)
    else if not takes
    then (none, some (err (message (codes "write"))))
    else (some written, answer)

-- `SendKeys`: what is written to the PTY and what it returns.
unfoldable pub send_keys :
    (nonce keys : Bytes) (wait_done : Bool) (timeout_ms : ℤ)
    → Shell
    → Option Bytes × Option (Result Sent)
unfolding await wait_of sent_line to_cr
send_keys nonce keys wait_done timeout_ms shell =
    guarded shell.is_live shell.takes (bytes_sent nonce keys wait_done)
      (typed nonce wait_done timeout_ms shell)
