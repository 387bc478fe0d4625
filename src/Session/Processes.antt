-- ===== src/Session/Processes.antt =====
-- internal/session/manager.go: whether an ssh process runs under a session's shell, from the lines of
-- ps as they are parsed in Session.Processes.Lines.
pub mod Scan
pub mod Search
pub mod Lines
use hopskip.Base.{
  ℕ, zero, suc, ◌+◌, ◌-◌, ◌*◌, ◌≤◌, ◌<◌, ◌≡◌, refl, sym, ap, ◌∙◌, ◌≢◌, ◌↔◌, ◌⊎◌, inl, inr, Bool,
  true, false, not, ◌&&◌, ◌||◌, Option, none, some, List, [], ◌∷◌, ◌++◌, map, append-nil,
  append_assoc, arith, ltb, leb, if◌then◌else◌, Bool-cases, Option-cases, Eq, ◌==◌, eq_iff, eq_refl,
  nat_eq, bytes_eq, bytes_beq, bytes_beq_iff, pair_eq, bytes_leb, ℤ, pos, negsuc, int_eq, int_leb,
  int_beq_iff, length, take, drop, min, keep, find, any, all, All,
}
use hopskip.Text.{Bytes, codes}

pub record Process : Type 0 where
  pub pid : ℤ
  pub ppid : ℤ
  pub comm : Bytes

abbrev pub member : ℤ → List ℤ → Bool
member x = any (λ y. y == x)

abbrev pub process_id : Process → ℤ
process_id r = r.pid

-- `baseName`: what stands behind the last slash.
unfoldable pub base_name : Bytes → Bytes
base_name [] = []
base_name (c ∷ s) =
    let rest = base_name s in
    if any (λ d. d == b'/') s then rest else if c == b'/' then s else c ∷ s

module _ (rows : List Process) where
  -- The map `children`, in the order of the lines.
  abbrev pub children : ℤ → List ℤ
  children p = map process_id (keep (λ r. r.ppid == p) rows)

-- The map `comm`: the last line of a process counts.
unfoldable pub comm_of : List Process → ℤ → Bytes
comm_of [] pid = []
comm_of (r ∷ rows) pid =
    let later = comm_of rows pid in
    if any (λ q. q.pid == pid) rows then later else if r.pid == pid then r.comm else []

unfoldable pub is_ssh : List Process → ℤ → Bool
unfolding base_name comm_of
is_ssh rows pid = base_name (comm_of rows pid) == codes "ssh"

module _ (rows : List Process) where
  -- The loop over the children of a process: whether one is ssh, the queue, and what is seen.
  unfoldable pub scan : List ℤ → List ℤ → List ℤ → Bool × List ℤ × List ℤ
  unfolding is_ssh
  scan [] queue seen = (false, queue, seen)
  scan (c ∷ cs) queue seen =
      let old = member c seen in
      let rest =
        scan cs (if old then queue else queue ++ c ∷ []) (if old then seen else c ∷ seen) in
      if not old && is_ssh rows c then (true, queue, c ∷ seen) else rest

  -- The loop over the queue; none where the fuel does not last.
  unfoldable pub search : ℕ → List ℤ → List ℤ → Option Bool
  unfolding scan
  search zero [] seen = some false
  search zero (p ∷ queue) seen = none
  search (suc fuel) [] seen = some false
  search (suc fuel) (p ∷ queue) seen =
      let (found, queue1, seen1) = scan (children rows p) queue seen in
      let rest = search fuel queue1 seen1 in if found then some true else rest

  -- Each process enters the queue once at most, and the root once.
  unfoldable pub ssh_in_ps_output : ℤ → Option Bool
  unfolding search
  ssh_in_ps_output root = search (length rows + 1) (root ∷ []) (root ∷ [])
