-- ===== src/Session/Processes/Lines.antt =====
-- internal/session/manager.go: the lines of ps as `sshInPsOutput` parses them.
use hopskip.Base.{
  ℕ, zero, suc, ◌-◌, not, Bool, Option, none, some, List, [], ◌∷◌, keep, if◌then◌else◌, ◌==◌,
  nat_eq, bytes_eq, ℤ,
}
use hopskip.Text.{Bytes, codes}
use hopskip.Text.Parts.{push, split, join}
use hopskip.Text.Trim.{front_space}
use hopskip.Agent.Limits.{atoi}
use hopskip.Session.Processes.{Process, ssh_in_ps_output}
use hopskip.Session.Processes.Search.{Answers, ssh_in_ps_output-Answers}

-- The parts between white space; `skip` bytes of one are still to come.
unfoldable pub split_space : (skip : ℕ) → Bytes → List Bytes
split_space skip [] = [] ∷ []
split_space (suc skip) (c ∷ s) = split_space skip s
split_space zero (c ∷ s) =
    let width = front_space (c ∷ s) in
    let plain = push c (split_space zero s) in
    let parted = [] ∷ split_space (width - 1) s in if width == 0 then plain else parted

-- `strings.Fields`
unfoldable pub fields : Bytes → List Bytes
unfolding split_space
fields s = keep (λ f. not (f == [])) (split_space 0 s)

abbrev pub process_of : Option ℤ → Option ℤ → Bytes → Option Process
process_of (some pid) (some ppid) comm = some (record { pid = pid; ppid = ppid; comm = comm })
process_of (some pid) none comm = none
process_of none ppid comm = none

-- A line of at least three fields, of which the first two are numbers.
abbrev pub of_fields : List Bytes → Option Process
of_fields [] = none
of_fields (f ∷ []) = none
of_fields (f ∷ g ∷ []) = none
of_fields (f ∷ g ∷ h ∷ hs) = process_of (atoi f) (atoi g) (join (codes " ") (h ∷ hs))

abbrev pub add_some : Option Process → List Process → List Process
add_some none rs = rs
add_some (some r) rs = r ∷ rs

unfoldable pub parse_lines : List Bytes → List Process
unfolding fields
parse_lines [] = []
parse_lines (l ∷ ls) = add_some (of_fields (fields l)) (parse_lines ls)

-- `sshInPsOutput`
unfoldable pub ssh_in_ps : (psout : Bytes) (root : ℤ) → Option Bool
unfolding parse_lines
ssh_in_ps psout root = ssh_in_ps_output (parse_lines (split 10 psout)) root

-- The search in the text of ps always ends, with cycles and repeated lines too: it answers `true`
-- where a process other than the root whose command is "ssh" runs under the root by the parents
-- that the lines of three and more fields name, and `false` where there is none.
pub ssh_in_ps-Answers :
    (psout : Bytes) (root : ℤ) → Answers (parse_lines (split 10 psout)) root (ssh_in_ps psout root)
unfolding ssh_in_ps
ssh_in_ps-Answers psout root = ssh_in_ps_output-Answers (parse_lines (split 10 psout)) root
