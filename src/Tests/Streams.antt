-- ===== src/Tests/Streams.antt =====
-- A session of the shell and a browser, and the processes of a shell.
use hopskip.Base.{
  ◌≡◌, refl, true, false, some, List, [], ◌∷◌, ◌++◌, nat_eq, bytes_eq, bytes_beq, pair_eq, pos,
  int_eq, keep, find, any,
}
use hopskip.Text.{Bytes, codes}
use hopskip.Text.Parts.{split, join}
use hopskip.Text.Trim.{front_space}
use hopskip.Agent.Limits.{atoi}
use hopskip.Base.{all}
use hopskip.Base.{concat}
use hopskip.Session.Processes.{Process, ssh_in_ps_output}
use hopskip.Session.Processes.Lines.{parse_lines, ssh_in_ps, ssh_in_ps-Answers}
use hopskip.Session.Processes.Search.{Answers}
use hopskip.Session.Stream.{
  ring_cap, Channel, LiveSession, Attach, attach, read, teardown, pump, new_session,
}
use hopskip.Session.Stream.Ring.{pumped, last_bytes, ring-pumped}
use hopskip.Session.Stream.Browser.{Event, run, step, mine, waiting}
use hopskip.Session.Stream.Delivery.{fresh, run-delivery}

ring-pumped_example :
    (pumped (codes "$ ls" ∷ codes "a b" ∷ []) (new_session (codes "s1"))).ring
    ≡ last_bytes ring_cap (concat (codes "$ ls" ∷ codes "a b" ∷ []))
ring-pumped_example = ring-pumped (codes "s1") (codes "$ ls" ∷ codes "a b" ∷ [])

abbrev shell : LiveSession
shell = record (new_session (codes "s1")) { ring = codes "$ " }

abbrev joined : Attach × LiveSession
joined = (
  record { sub_id = 0; replay = codes "$ "; rpos = 0; detached = false },
  record shell {
    channels = record { sub_id = 0; queue = []; is_open = true } ∷ [];
    next_id = 1;
    rows = 24;
    cols = 80;
  },
)

abbrev story : List Event
story =
    Event.reads 1
    ∷ Event.prints (codes "ls")
    ∷ Event.joins 0 0
    ∷ Event.reads 8
    ∷ Event.reads 1
    ∷ Event.ends
    ∷ Event.prints (codes "!")
    ∷ []

joined-shell : attach 24 80 shell ≡ some joined
unfolding attach
joined-shell = refl

all_fits : (run story (fresh joined)).lost ≡ false
unfolding run step find read teardown attach pump
all_fits = refl

run-delivery_example :
    (ch : Channel) × (mine (run story (fresh joined)) ≡ some ch)
    × ((run story (fresh joined)).seen ++ waiting (run story (fresh joined)).me ch
        ≡ shell.ring ++ (run story (fresh joined)).printed)
run-delivery_example = run-delivery 24 80 shell joined story joined-shell all_fits

abbrev processes : List Process
processes =
    record { pid = pos 11; ppid = pos 10; comm = codes "-zsh" }
    ∷ record { pid = pos 12; ppid = pos 11; comm = codes "/usr/bin/ssh" }
    ∷ record { pid = pos 13; ppid = pos 1; comm = codes "sshd" }
    ∷ []

abbrev ps_lines : Bytes
ps_lines = codes "  10     1 -zsh\n  11    10 sshd x\nPID PPID\n  12    10 /usr/bin/ssh\n"

ssh_in_ps-Answers_example :
    Answers (parse_lines (split 10 ps_lines)) (pos 10) (ssh_in_ps ps_lines (pos 10))
ssh_in_ps-Answers_example = ssh_in_ps-Answers ps_lines (pos 10)

ssh_in_ps_test : ssh_in_ps ps_lines (pos 10) ≡ some true
unfolding ssh_in_ps any keep bytes_beq ssh_in_ps_output split front_space atoi all join
ssh_in_ps_test = refl

-- A name with a blank is the whole of the command: its end counts.
ssh_in_ps_named : ssh_in_ps (codes "11 10 my ssh") (pos 10) ≡ some false
unfolding ssh_in_ps any keep bytes_beq ssh_in_ps_output split front_space atoi all join
ssh_in_ps_named = refl

ssh_runs : ssh_in_ps_output processes (pos 10) ≡ some true
unfolding ssh_in_ps_output any keep bytes_beq
ssh_runs = refl
