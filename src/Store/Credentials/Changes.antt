-- ===== src/Store/Credentials/Changes.antt =====
-- The operations on credentials, one after another.
use hopskip.Base.{
  ◌≡◌, refl, ◌∙◌, ◌⊎◌, inl, inr, Bool, true, false, List, [], ◌∷◌, map, arith, if◌then◌else◌,
  Bool-cases, ◌==◌, nat_eq, bytes_eq, pair_eq, ℤ, int_eq, length,
}
use hopskip.Text.{Bytes}
use hopskip.Store.Tables.{Tables, Credential, Error, not_found, driver_failure}
use hopskip.Store.Rows.Laws.{Keyed-update, Keyed-append, Keyed-delete, next_id-fresh}
use hopskip.Store.Rows.{update_where, delete_where, at_key, has}
use hopskip.Store.Db.{ok, err, Db, calm, ◌>>=◌, transaction}
use hopskip.Store.Credentials.{
  credential_id, set_active, promote_newest, relabel, with_credentials, add_llm_credential,
  set_active_llm_credential, update_llm_credential, delete_llm_credential, promote_if, affected,
}
use hopskip.Store.Credentials.Active.{
  actives, HasOneActive, IsDistinct, IsSound, actives-off, has-off, IsDistinct-off, actives-on,
  actives-relabel, actives-append, actives-le, actives-delete, promote-HasOneActive,
  promote-IsDistinct,
}

pub data Change : Type 0 where
  add : Bytes → Bytes → Bytes → Bytes → Bytes → Change
  activate : ℤ → Change
  update : ℤ → Bytes → Bytes → Bytes → Change
  remove : ℤ → Change

pub change : Change → Db → Db
change (add now label provider token model) db =
    (add_llm_credential now label provider token model db).1
change (activate id) db = (set_active_llm_credential id db).1
change (update id label model token) db = (update_llm_credential id label model token db).1
change (remove id) db = (delete_llm_credential id db).1

-- The operations one after another, with a driver that fails none of their statements.
pub run : List Change → Tables → Tables
run [] t = t
run (c ∷ cs) t = run cs (change c (calm t)).tables

add-IsSound :
    (now label provider token model : Bytes) (t : Tables)
    → IsSound t
    → IsSound (add_llm_credential now label provider token model (calm t)).1.tables
unfolding add_llm_credential ◌>>=◌
add-IsSound now label provider token model t v = record {
  distinct =
      Keyed-append credential_id t.llm_credentials _ v.distinct
        (next_id-fresh credential_id t.llm_credentials);
  one_active = inr (rw actives-append (ground (arith, v.one_active, actives-le t.llm_credentials)));
}

abbrev activated : ℤ → List Credential → List Credential
activated id cs =
    update_where (at_key credential_id id) (set_active true) (map (set_active false) cs)

set_active_lem :
    (id : ℤ) (t : Tables)
    → set_active_llm_credential id (calm t) ≡ (
        if has credential_id id t.llm_credentials
        then (ok tt, calm (with_credentials t (activated id t.llm_credentials)))
        else (err not_found, calm t))
unfolding set_active_llm_credential ◌>>=◌ transaction affected
set_active_lem id t = ground (arith, has-off id t.llm_credentials)

delete_lem :
    (id : ℤ) (t : Tables)
    → delete_llm_credential id (calm t) ≡ (
        let cs = delete_where (at_key credential_id id) t.llm_credentials in
        (
          ok tt,
          calm (with_credentials t (if length (actives cs) == 0 then promote_newest cs else cs)),
        ))
unfolding delete_llm_credential ◌>>=◌ promote_if
delete_lem id t = ground arith

activate-IsSound :
    (id : ℤ) (t : Tables) → IsSound t → IsSound (set_active_llm_credential id (calm t)).1.tables
activate-IsSound id t v = elim (Bool-cases (has credential_id id t.llm_credentials)) [
  | inl h ↦
      rw (set_active_lem, h)
        (record {
          distinct =
              Keyed-update credential_id (set_active true) (λ r. refl) (at_key credential_id id) _
                (IsDistinct-off _ v.distinct);
          one_active = inr (
              actives-on id _ (IsDistinct-off _ v.distinct) (actives-off t.llm_credentials)
                (has-off id t.llm_credentials ∙ h));
        })
  | inr h ↦ rw (set_active_lem, h) v
]

HasOneActive-relabel :
    (id : ℤ) (label model token : Bytes) (cs : List Credential)
    → HasOneActive cs
    → HasOneActive (update_where (at_key credential_id id) (relabel label model token) cs)
HasOneActive-relabel id label model token [] h = inl (unfold update_where in refl)
HasOneActive-relabel id label model token (c ∷ cs) h = inr (rw actives-relabel (ground arith))

relabel-id : (label model token : Bytes) (c : Credential) → (relabel label model token c).id ≡ c.id
relabel-id label model token c = ground arith

update-IsSound :
    (id : ℤ) (label model token : Bytes) (t : Tables)
    → IsSound t
    → IsSound (update_llm_credential id label model token (calm t)).1.tables
unfolding update_llm_credential ◌>>=◌
update-IsSound id label model token t v = record {
  distinct =
      Keyed-update credential_id (relabel label model token) (relabel-id label model token)
        (at_key credential_id id) t.llm_credentials v.distinct;
  one_active = HasOneActive-relabel id label model token t.llm_credentials v.one_active;
}

remaining-IsSound :
    (id : ℤ) (cs : List Credential)
    → IsDistinct cs
    → HasOneActive cs
    → HasOneActive (
        if length (actives (delete_where (at_key credential_id id) cs)) == 0
        then promote_newest (delete_where (at_key credential_id id) cs)
        else delete_where (at_key credential_id id) cs)
remaining-IsSound id cs d h =
    elim (Bool-cases (length (actives (delete_where (at_key credential_id id) cs)) == 0)) [
      | inl e ↦ rw e (
          promote-HasOneActive _ (Keyed-delete credential_id (at_key credential_id id) cs d)
            (ground arith))
      | inr e ↦
          rw e (inr (ground (arith, actives-delete (at_key credential_id id) cs, actives-le cs)))
    ]

IsDistinct-if :
    (b : Bool) (xs ys : List Credential)
    → IsDistinct xs
    → IsDistinct ys
    → IsDistinct (if b then xs else ys)
IsDistinct-if true xs ys dx dy = dx
IsDistinct-if false xs ys dx dy = dy

left :
    (id : ℤ) (t : Tables)
    → IsSound t
    → IsDistinct (delete_where (at_key credential_id id) t.llm_credentials)
left id t v = Keyed-delete credential_id (at_key credential_id id) t.llm_credentials v.distinct

remove-IsSound :
    (id : ℤ) (t : Tables) → IsSound t → IsSound (delete_llm_credential id (calm t)).1.tables
remove-IsSound id t v = rw delete_lem (record {
  distinct =
      IsDistinct-if (length (actives _) == 0) _ _ (promote-IsDistinct _ (left id t v))
        (left id t v);
  one_active = remaining-IsSound id t.llm_credentials v.distinct v.one_active;
})

change-IsSound : (c : Change) (t : Tables) → IsSound t → IsSound (change c (calm t)).tables
unfolding change
change-IsSound (add now label provider token model) t v =
    add-IsSound now label provider token model t v
change-IsSound (activate id) t v = activate-IsSound id t v
change-IsSound (update id label model token) t v = update-IsSound id label model token t v
change-IsSound (remove id) t v = remove-IsSound id t v

-- Where no two credentials share an id, and there is no credential or exactly one of them is
-- active, the same holds after any operations on a driver that fails nothing.
pub run-IsSound : (cs : List Change) (t : Tables) → IsSound t → IsSound (run cs t)
unfolding run
run-IsSound [] t v = v
run-IsSound (c ∷ cs) t v = run-IsSound cs _ (change-IsSound c t v)

abbrev pub only : ℤ → List Credential → List Credential
only id = map (λ c. set_active (c.id == id) c)

activated-only : (id : ℤ) (cs : List Credential) → activated id cs ≡ only id cs
unfolding update_where
activated-only id [] = refl
activated-only id (c ∷ cs) = ground (arith, activated-only id cs)

-- The answer of an activation and what it leaves.
abbrev pub Activates : ℤ → Db → Type 0
Activates id db =
    let cs = db.tables.llm_credentials in
    let (r, after) = set_active_llm_credential id db in
    ((r ≡ ok tt)
      × (has credential_id id cs ≡ true)
      × (after.tables ≡ with_credentials db.tables (only id cs)))
    ⊎ ((e : Error) × (r ≡ err e) × (after.tables ≡ db.tables))

atomic_at :
    (id : ℤ) (faults : List Bool) (t : Tables)
    → Activates id (record { tables = t; faults = faults })
unfolding set_active_llm_credential ◌>>=◌ transaction affected
atomic_at id (true ∷ _) t = inr (driver_failure, refl, refl)
atomic_at id (false ∷ true ∷ _) t = inr (driver_failure, refl, refl)
atomic_at id (false ∷ false ∷ true ∷ _) t = inr (driver_failure, refl, refl)
atomic_at id (false ∷ false ∷ false ∷ true ∷ _) t =
    elim (Bool-cases (has credential_id id t.llm_credentials)) [
      | inl h ↦ inr (
        driver_failure,
        ground (arith, has-off id t.llm_credentials),
        ground (arith, has-off id t.llm_credentials),
      )
      | inr h ↦ inr (
        not_found,
        ground (arith, has-off id t.llm_credentials),
        ground (arith, has-off id t.llm_credentials),
      )
    ]
atomic_at id _ t = elim (Bool-cases (has credential_id id t.llm_credentials)) [
  | inl h ↦ inl (
    ground (arith, has-off id t.llm_credentials),
    h,
    ground (arith, has-off id t.llm_credentials, activated-only id t.llm_credentials),
  )
  | inr h ↦ inr (
    not_found,
    ground (arith, has-off id t.llm_credentials),
    ground (arith, has-off id t.llm_credentials),
  )
]

-- Whatever the driver fails, an activation that succeeds leaves the credential with the id active
-- and no other, and one that fails leaves every table as it was.
pub set_active-atomic : (id : ℤ) (db : Db) → Activates id db
set_active-atomic id db = atomic_at id db.faults db.tables
