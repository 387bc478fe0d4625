-- ===== src/Store/Credentials/Active.antt =====
-- How many credentials are active.
use hopskip.Base.{
  ◌+◌, ◌≤◌, ◌≡◌, refl, ap, ◌∙◌, ◌≢◌, ◌⊎◌, inl, inr, Bool, true, false, ◌||◌, List, [], ◌∷◌, ◌++◌,
  map, arith, if◌then◌else◌, Bool-cases, ◌==◌, nat_eq, bytes_eq, pair_eq, ℤ, int_eq, int_beq_iff,
  length, keep, any,
}
use hopskip.Text.{Bytes}
use hopskip.Store.Tables.{Tables, Credential}
use hopskip.Store.Rows.Laws.{Keyed-update, has-order}
use hopskip.Store.Rows.{update_where, delete_where, order_by, insert_by, at_key, has, Keyed}
use hopskip.Store.Credentials.{
  credential_id, is_active, set_active, newest_first, promote_newest, relabel,
}

abbrev pub actives : List Credential → List Credential
actives = keep is_active

-- No credential at all, or exactly one that is active.
abbrev pub HasOneActive : List Credential → Type 0
HasOneActive cs = (cs ≡ []) ⊎ (length (actives cs) ≡ 1)

abbrev pub IsDistinct : List Credential → Type 0
IsDistinct = Keyed credential_id

pub record IsSound (t : Tables) : Type 0 where
  pub distinct : IsDistinct t.llm_credentials
  pub one_active : HasOneActive t.llm_credentials

pub actives-off : (cs : List Credential) → actives (map (set_active false) cs) ≡ []
unfolding keep
actives-off [] = refl
actives-off (c ∷ cs) = actives-off cs

pub has-off :
    (id : ℤ) (cs : List Credential)
    → has credential_id id (map (set_active false) cs) ≡ has credential_id id cs
unfolding any
has-off id [] = refl
has-off id (c ∷ cs) = ap (λ b. c.id == id || b) (has-off id cs)

pub IsDistinct-off : (cs : List Credential) → IsDistinct cs → IsDistinct (map (set_active false) cs)
IsDistinct-off [] _ = tt
IsDistinct-off (c ∷ cs) (h, hs) = (has-off c.id cs ∙ h, IsDistinct-off cs hs)

update_none :
    (id : ℤ) (f : Credential → Credential) (cs : List Credential)
    → has credential_id id cs ≡ false
    → update_where (at_key credential_id id) f cs ≡ cs
unfolding any update_where
update_none id f [] h = refl
update_none id f (c ∷ cs) h = ground (arith, update_none id f cs)

-- Activating one row of a table without an active one.
pub actives-on :
    (id : ℤ) (cs : List Credential)
    → IsDistinct cs
    → actives cs ≡ []
    → has credential_id id cs ≡ true
    → length (actives (update_where (at_key credential_id id) (set_active true) cs)) ≡ 1
unfolding keep any update_where
actives-on id [] d n h = cc
actives-on id (c ∷ cs) (dc, ds) n h = elim (Bool-cases (c.id == id)) [
  | inl e ↦
      let dc' : has credential_id id cs ≡ false = rw (← (int_beq_iff c.id id).0 e) dc in
      ground (arith, update_none id (set_active true) cs dc')
  | inr e ↦ ground (arith, actives-on id cs ds)
]

pub actives-relabel :
    (id : ℤ) (label model token : Bytes) (cs : List Credential)
    → length (actives (update_where (at_key credential_id id) (relabel label model token) cs))
      ≡ length (actives cs)
unfolding keep update_where
actives-relabel id label model token [] = refl
actives-relabel id label model token (c ∷ cs) =
    ground (arith, actives-relabel id label model token cs)

pub actives-append :
    (cs : List Credential) (c : Credential)
    → length (actives (cs ++ c ∷ [])) ≡ length (actives cs) + (if c.active then 1 else 0)
unfolding keep
actives-append [] c = ground arith
actives-append (x ∷ cs) c = ground (arith, actives-append cs c)

pub actives-delete :
    (p : Credential → Bool) (cs : List Credential)
    → length (actives (delete_where p cs)) ≤ length (actives cs)
unfolding keep delete_where
actives-delete p [] = omega arith
actives-delete p (x ∷ cs) = ground (arith, actives-delete p cs)

abbrev promoted : List Credential → List Credential → List Credential
promoted [] cs = cs
promoted (c ∷ _) cs = update_where (at_key credential_id c.id) (set_active true) cs

promote-promoted : (cs : List Credential) → promote_newest cs ≡ promoted (newest_first cs) cs
unfolding promote_newest
promote-promoted cs = ground arith

insert-ne :
    (c : Credential) (le : Credential → Credential → Bool) (cs : List Credential)
    → insert_by le c cs ≢ []
unfolding insert_by
insert-ne c le [] = cc
insert-ne c le (x ∷ cs) = ground arith

order-ne :
    (c : Credential) (le : Credential → Credential → Bool) (cs : List Credential)
    → order_by le (c ∷ cs) ≢ []
unfolding order_by
order-ne c le cs = insert-ne c le (order_by le cs)

-- Promotion of the newest in a table without an active one.
promoted-one :
    (sorted cs : List Credential)
    → IsDistinct cs
    → actives cs ≡ []
    → sorted ≢ []
    → ((k : ℤ) → has credential_id k sorted ≡ has credential_id k cs)
    → length (actives (promoted sorted cs)) ≡ 1
unfolding any
promoted-one [] cs d n ne same = absurd (ne refl)
promoted-one (c ∷ rest) cs d n ne same =
    actives-on c.id cs d n (ground (arith, same c.id, int_beq_iff c.id c.id))

pub promote-HasOneActive :
    (cs : List Credential) → IsDistinct cs → actives cs ≡ [] → HasOneActive (promote_newest cs)
promote-HasOneActive [] d n = inl (unfold promote_newest order_by in refl)
promote-HasOneActive (c ∷ cs) d n = inr (
    rw promote-promoted (
      promoted-one (newest_first (c ∷ cs)) (c ∷ cs) d n (order-ne c _ cs)
        (λ k. has-order credential_id _ k (c ∷ cs))))

pub promote-IsDistinct : (cs : List Credential) → IsDistinct cs → IsDistinct (promote_newest cs)
promote-IsDistinct cs d = rw promote-promoted (at (newest_first cs))
  where
    at : (sorted : List Credential) → IsDistinct (promoted sorted cs)
    at [] = d
    at (c ∷ _) =
        Keyed-update credential_id (set_active true) (λ r. refl) (at_key credential_id c.id) cs d

pub actives-le : (cs : List Credential) → length (actives cs) ≤ length cs
unfolding keep
actives-le [] = omega arith
actives-le (x ∷ cs) = ground (arith, actives-le cs)
