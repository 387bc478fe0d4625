-- ===== src/Store/Hosts/Names.antt =====
-- The names of hosts, where one of them takes another name.
use hopskip.Base.{
  ◌≡◌, refl, ◌≢◌, inl, inr, Bool, false, not, ◌&&◌, List, [], ◌∷◌, arith, Bool-cases, ◌==◌, nat_eq,
  bytes_eq, bytes_beq_iff, pair_eq, ℤ, int_eq, int_beq_iff, any,
}
use hopskip.Text.{Bytes}
use hopskip.Store.Rows.{update_where, at_key, has, Keyed}
use hopskip.Store.Tables.{HostRow}
use hopskip.Store.Hosts.{host_id, host_name}

abbrev rename : Bytes → Bytes → HostRow → HostRow
rename name notes h = record h { name = name; notes = notes }

abbrev taken : ℤ → Bytes → List HostRow → Bool
taken id name = any (λ h. not (h.id == id) && h.name == name)

-- A name that the rows have not, and that is not the new one, they have not after the renaming.
has-rename :
    (n name notes : Bytes) (id : ℤ) (hs : List HostRow)
    → n ≢ name
    → has host_name n hs ≡ false
    → has host_name n (update_where (at_key host_id id) (rename name notes) hs) ≡ false
unfolding any update_where
has-rename n name notes id [] ne h = refl
has-rename n name notes id (x ∷ hs) ne h =
    ground (arith, has-rename n name notes id hs ne, bytes_beq_iff name n)

-- Behind the row that is renamed, the new name is not in use.
has-free :
    (name notes : Bytes) (id : ℤ) (hs : List HostRow)
    → has host_id id hs ≡ false
    → taken id name hs ≡ false
    → has host_name name (update_where (at_key host_id id) (rename name notes) hs) ≡ false
unfolding any update_where
has-free name notes id [] out free = refl
has-free name notes id (x ∷ hs) out free = ground (arith, has-free name notes id hs)

-- The renamed row itself.
pub Keyed-rename :
    (name notes : Bytes) (id : ℤ) (hs : List HostRow)
    → Keyed host_id hs
    → Keyed host_name hs
    → taken id name hs ≡ false
    → Keyed host_name (update_where (at_key host_id id) (rename name notes) hs)
unfolding any update_where
Keyed-rename name notes id [] _ _ _ = tt
Keyed-rename name notes id (x ∷ hs) (di, ds) (ni, ns) free = elim (Bool-cases (x.id == id)) [
  | inl e ↦
      let out : has host_id id hs ≡ false = rw (← (int_beq_iff x.id id).0 e) di in
      rw e (
        has-free name notes id hs out (ground (arith, free)),
        Keyed-rename name notes id hs ds ns (ground (arith, free)),
      )
  | inr e ↦
      let other : x.name ≢ name = ground (arith, bytes_beq_iff x.name name) in
      rw e (
        has-rename x.name name notes id hs other ni,
        Keyed-rename name notes id hs ds ns (ground (arith, free)),
      )
]
