-- ===== src/Store/Hosts/Failing.antt =====
-- The changes of hosts that a handler of the API reports as refused.
use hopskip.Base.{
  ℕ, ◌≡◌, refl, Bool, true, false, not, List, [], ◌∷◌, any, if◌then◌else◌, Bool-cases, inl, inr,
  ◌==◌, nat_eq, bytes_eq, pair_eq, ℤ, int_eq,
}
use hopskip.Text.{Bytes}
use hopskip.Store.Tables.{Tables}
use hopskip.Store.Rows.{has}
use hopskip.Store.Db.{Result, ok, err, pure, fail, exec, settle, strike, continue, ◌>>=◌}
use hopskip.Store.Db.Failing.{Undone, Atomic, Atomic-exec}
use hopskip.Store.Hosts.{
  host_id, refers_to, name_taken, affected, add_host, update_host, delete_host,
}

-- A statement that counts no row has changed none.
abbrev Counted : Tables → Result (ℕ × Tables) → Type 0
Counted old (ok (n, t)) = (n == 0) ≡ true → t ≡ old
Counted old (err e) = Unit

affected-Undone :
    (old t : Tables) (rest : List Bool) (n : ℕ)
    → ((n == 0) ≡ true → t ≡ old)
    → Undone old (affected n (record { tables = t; faults = rest }))
unfolding affected pure fail
affected-Undone old t rest n h = elim (Bool-cases (n == 0)) [ inl e ↦ rw e (h e) | inr e ↦ rw e tt ]

settle-affected-Undone :
    (rest : List Bool) (old : Tables) (r : Result (ℕ × Tables))
    → Counted old r
    → Undone old (continue (settle rest old r) affected)
unfolding continue settle
settle-affected-Undone rest old (ok (n, t)) h = affected-Undone old t rest n h
settle-affected-Undone rest old (err e) h = refl

strike-affected-Undone :
    (faults : List Bool) (old : Tables) (q : Tables → Result (ℕ × Tables))
    → Counted old (q old)
    → Undone old (continue (strike faults old q) affected)
unfolding strike
strike-affected-Undone [] old q h = settle-affected-Undone [] old (q old) h
strike-affected-Undone (true ∷ rest) old q h = unfold continue in refl
strike-affected-Undone (false ∷ rest) old q h = settle-affected-Undone rest old (q old) h

exec-affected-Atomic :
    (q : Tables → Result (ℕ × Tables))
    → ((t : Tables) → Counted t (q t))
    → Atomic (exec q >>= affected)
unfolding exec ◌>>=◌
exec-affected-Atomic q h = record {
  at = λ db. strike-affected-Undone db.faults db.tables q (h db.tables);
}

Counted-if :
    (old : Tables) (b : Bool) (r s : Result (ℕ × Tables))
    → Counted old r
    → Counted old s
    → Counted old (if b then r else s)
Counted-if old true r s h k = h
Counted-if old false r s h k = k

pub add_host-Atomic : (now name notes : Bytes) → Atomic (add_host now name notes)
unfolding add_host
add_host-Atomic now name notes = Atomic-exec _

pub update_host-Atomic : (id : ℤ) (name notes : Bytes) → Atomic (update_host id name notes)
unfolding update_host
update_host-Atomic id name notes = exec-affected-Atomic _ λ t.
    Counted-if t (not (has host_id id t.hosts)) _ _ (λ _. refl)
      (Counted-if t (name_taken id name t) _ _ tt λ e. absurd (cc))

pub delete_host-Atomic : (id : ℤ) → Atomic (delete_host id)
unfolding delete_host
delete_host-Atomic id = exec-affected-Atomic _ λ t.
    Counted-if t (not (has host_id id t.hosts)) _ _ (λ _. refl)
      (Counted-if t (any (refers_to id) t.sessions) _ _ tt λ e. absurd (cc))
