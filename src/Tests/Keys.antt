-- ===== src/Tests/Keys.antt =====
-- Keys that are typed into a small terminal.
use hopskip.Base.{
  ◌*◌, ◌≡◌, refl, true, none, some, ◌++◌, arith, pos, if◌then◌else◌, ◌==◌, nat_eq, bytes_eq,
  bytes_beq, int_eq, pair_eq, keep,
}
use hopskip.Text.{Bytes, codes}
use hopskip.Text.{replace}
use hopskip.Text.Trim.{trim_right}
use hopskip.Text.Parts.{split, join}
use hopskip.Text.Search.{has_prefix, has_suffix}
use hopskip.Store.Db.{Result, ok}
use hopskip.Agent.Limits.{digits_value}
use hopskip.Session.Screen.{to_cr}
use hopskip.Session.Sending.{
  Shell, Sent, find_stamp, sent_line, wait_of, pause, timed_out, send_keys,
}
use hopskip.Store.Tables.{Session, Status, message}
use hopskip.Store.Db.{pure, calm, exec, ◌>>=◌}
use hopskip.Store.Sessions.{create_session, close_session, get_session}
use hopskip.Store.Rows.{update_where, delete_where}
use hopskip.Session.Stream.{new_session}
use hopskip.Session.Manager.{Manager, exits, open_shell}
use hopskip.Agent.Terminals.{Call, types, Answer, dispatch_terminal}
use hopskip.Server.Api.{Body}
use hopskip.Server.Sessions.{handle_send_keys}
use hopskip.Tests.Hosts.{empty, day}
use hopskip.Base.{any, find, false, [], ◌∷◌}
use hopskip.Session.Sending.Waiting.{Awaits, Sleeps, send_keys-Awaits}

abbrev nonce : Bytes
nonce = codes "0a1b2c"

abbrev echoed : Bytes
echoed = codes "$ false; echo \"__HOPSKIP_DONE_$?_0a1b2c__\""

abbrev resolved : Bytes
resolved = echoed ++ codes "\n__HOPSKIP_DONE_1_0a1b2c__\n$ "

-- The command ends between the first and the second look.
abbrev quick : Shell
quick = record {
  is_live = true;
  takes = true;
  look = λ n. if n == 0 then some echoed else some resolved;
  clock = λ n. n * pause;
}

abbrev stuck : Shell
stuck = record { is_live = true; takes = true; look = λ n. some echoed; clock = λ n. n * pause }

find_stamp_test : find_stamp nonce resolved ≡ some (codes "1")
unfolding find_stamp has_prefix bytes_beq
find_stamp_test = refl

echo_unstamped : find_stamp nonce echoed ≡ none
unfolding find_stamp has_prefix bytes_beq
echo_unstamped = refl

sent_line_test :
    to_cr (sent_line nonce (codes "false\n")) ≡ codes "false; echo \"__HOPSKIP_DONE_$?_0a1b2c__\"\r"
unfolding sent_line to_cr replace has_suffix has_prefix
sent_line_test = refl

-- A timeout so long that its product is negative is over at once.
wait_of_wrapped : wait_of (pos 9223372036855) ≡ 0
unfolding wait_of
wait_of_wrapped = refl

send_keys_test :
    (send_keys nonce (codes "false\n") true (pos 150) quick).1
    ≡ some (ok (record { screen = codes "$"; code = some 1; completed = true }))
unfolding send_keys has_prefix has_suffix bytes_beq join split trim_right keep digits_value
send_keys_test = refl

send_keys_late :
    (send_keys nonce (codes "false") true (pos 150) stuck).1 ≡ some (ok (timed_out echoed))
unfolding send_keys has_prefix has_suffix bytes_beq join split trim_right
send_keys_late = refl

quick-Sleeps : Sleeps quick
quick-Sleeps n = omega arith

send_keys-Awaits_example :
    (r : Result Sent) × (send_keys nonce (codes "false\n") true (pos 150) quick
      ≡ (some (to_cr (sent_line nonce (codes "false\n"))), some r))
    × Awaits nonce (wait_of (pos 150)) quick 0 r
send_keys-Awaits_example =
    send_keys-Awaits nonce (codes "false\n") (pos 150) quick quick-Sleeps refl refl

abbrev shared : Session
shared = record {
  id = codes "s1";
  host_id = none;
  tmux_name = [];
  label = codes "session-s1";
  status = Status.opened;
  opened_at = day;
  closed_at = none;
}

abbrev daemon : Manager
daemon = record {
  live = new_session (codes "s1") ∷ [];
  db = calm (record empty { sessions = shared ∷ [] });
}

abbrev false_typed : Call
false_typed =
    types nonce
      (some (record {
        session_id = codes "s1";
        keys = codes "false\n";
        await_done = none;
        timeout_ms = pos 150;
      }))
      quick

dispatch_terminal_test :
    dispatch_terminal false_typed daemon
    ≡ some (
      (
        Answer.sent
            (codes "s1")
            (record { screen = codes "$"; code = some 1; completed = true })
            [],
        false,
      ),
      daemon,
    )
unfolding dispatch_terminal any bytes_beq join split trim_right keep digits_value pure
dispatch_terminal_test = refl

handle_send_keys_gone :
    (handle_send_keys nonce
      (codes "s2")
      (some (record { keys = []; await_done = some false; timeout_ms = pos 0 }))
      quick
      daemon).1
    ≡ some (record { code = 500; body = Body.failure (message (codes "session is not open")) })
unfolding handle_send_keys any bytes_beq
handle_send_keys_gone = refl

-- A shell that exits at once leaves a row that is open, and no terminal.
orphaned :
    (open_shell day
      (codes "s4")
      exits
      (codes "pty:4")
      []
      none
      (record { live = []; db = calm empty })).1
    ≡ record {
      live = [];
      db = calm (record empty {
        sessions =
            record {
              id = codes "s4";
              host_id = none;
              tmux_name = codes "pty:4";
              label = codes "session-s4";
              status = Status.opened;
              opened_at = day;
              closed_at = none;
            }
            ∷ [];
      });
    }
unfolding open_shell create_session exec any bytes_beq close_session update_where delete_where keep
    get_session ◌>>=◌ find
orphaned = refl
