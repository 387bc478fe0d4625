-- ===== src/Store/Hosts/Revising.antt =====
-- What `update_host` does to the rows, with a driver that fails nothing.
use hopskip.Base.{
  ◌≡◌, refl, true, false, List, [], ◌∷◌, some, if◌then◌else◌, ◌==◌, eq_refl, find, any, arith,
  int_beq_iff, nat_eq, bytes_eq, pair_eq, ℤ, int_eq, Bool, Bool-cases, inl, inr, ◌∙◌,
}
use hopskip.Text.{Bytes}
use hopskip.Store.Tables.{Tables, HostRow}
use hopskip.Store.Rows.{update_where, at_key, has, row, Keyed}
use hopskip.Store.Rows.Laws.{row-update}
use hopskip.Store.Db.{ok, calm, ◌>>=◌}
use hopskip.Store.Hosts.{host_id, name_taken, affected, update_host}

abbrev pub revised : (name notes : Bytes) → HostRow → HostRow
revised name notes r = record r { name = name; notes = notes }

abbrev pub with_revised : (id : ℤ) (name notes : Bytes) → Tables → Tables
with_revised id name notes t = record t {
  hosts = update_where (at_key host_id id) (revised name notes) t.hosts;
}

pub update_host_lem :
    (id : ℤ) (name notes : Bytes) (t : Tables)
    → has host_id id t.hosts ≡ true
    → name_taken id name t ≡ false
    → update_host id name notes (calm t) ≡ (ok tt, calm (with_revised id name notes t))
unfolding update_host ◌>>=◌ affected
update_host_lem id name notes t there free = rw (there, free) refl

pub row-revised :
    (id : ℤ) (name notes : Bytes) (r : HostRow) (j : ℤ) (rs : List HostRow)
    → row host_id id rs ≡ some r
    → row host_id j (update_where (at_key host_id id) (revised name notes) rs)
      ≡ (if j == id then some (revised name notes r) else row host_id j rs)
row-revised id name notes r j rs h = elim (Bool-cases (j == id)) [
  | inl e ↦
      let same : j ≡ id = (int_beq_iff j id).0 e in
      row-update host_id (revised name notes) (λ r. refl) j id rs ∙ rw (e, same, h) refl
  | inr e ↦ row-update host_id (revised name notes) (λ r. refl) j id rs ∙ rw e refl
]

pub found_there :
    (p : HostRow → Bool) (rs : List HostRow) (r : HostRow)
    → find p rs ≡ some r
    → has host_id r.id rs ≡ true
unfolding find any
found_there p [] r h = absurd cc
found_there p (x ∷ rs) r h = ground (arith, found_there p rs r, eq_refl r.id)

-- A row that some test finds is the row of its id.
pub found-row :
    (p : HostRow → Bool) (rs : List HostRow) (r : HostRow)
    → Keyed host_id rs
    → find p rs ≡ some r
    → row host_id r.id rs ≡ some r
unfolding find
found-row p [] r _ h = absurd cc
found-row p (x ∷ rs) r (new, k) h =
    ground (arith, found-row p rs r k, found_there p rs r, eq_refl r.id, int_beq_iff x.id r.id)
