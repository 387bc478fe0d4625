-- ===== src/Store/Hosts/Owned.antt =====
-- Rows that refer to a host which is there.
use hopskip.Base.{
  ◌≡◌, ◌∙◌, inl, inr, Bool, true, false, not, Option, none, some, List, [], ◌∷◌, ◌++◌, arith,
  Bool-cases, Eq, ◌==◌, nat_eq, bytes_eq, pair_eq, ℤ, int_eq, keep, any, All,
}
use hopskip.Base.{All-mono, All-append, All-keep}
use hopskip.Store.Rows.{update_where, delete_where, at_key, has, upsert}
use hopskip.Store.Rows.Laws.{has-append, has-update, has-delete}
use hopskip.Store.Tables.{HostRow, Session}
use hopskip.Store.Hosts.{host_id, refers_to}

abbrev pub Owned {ℓ} : {R : Type ℓ} → (R → ℤ) → List HostRow → List R → Type 0
Owned owner hs = All (λ r. has host_id (owner r) hs ≡ true)

module _ {ℓ} {R : Type ℓ} (owner : R → ℤ) where
  pub Owned-append :
      (hs : List HostRow) (h : HostRow) (rs : List R)
      → Owned owner hs rs
      → Owned owner (hs ++ h ∷ []) rs
  Owned-append hs h [] _ = tt
  Owned-append hs h (r ∷ rs) (p, ps) =
      (has-append host_id (owner r) hs h ∙ rw p, Owned-append hs h rs ps)

  pub Owned-update :
      (f : HostRow → HostRow)
      → ((h : HostRow) → host_id (f h) ≡ host_id h)
      → (p : HostRow → Bool) (hs : List HostRow) (rs : List R) → Owned owner hs rs
      → Owned owner (update_where p f hs) rs
  Owned-update f keeps p hs [] _ = tt
  Owned-update f keeps p hs (r ∷ rs) (h, k) =
      (has-update host_id f keeps p (owner r) hs ∙ h, Owned-update f keeps p hs rs k)

  pub Owned-cascade :
      (id : ℤ) (hs : List HostRow) (rs : List R)
      → Owned owner hs rs
      → Owned owner (delete_where (at_key host_id id) hs) (delete_where (λ r. owner r == id) rs)
  unfolding delete_where keep
  Owned-cascade id hs [] _ = tt
  Owned-cascade id hs (r ∷ rs) (h, k) = elim (Bool-cases (owner r == id)) [
    | inl e ↦ rw e (Owned-cascade id hs rs k)
    | inr e ↦ rw e (has-delete host_id (owner r) id hs ∙ rw e h, Owned-cascade id hs rs k)
  ]

  pub Owned-delete :
      (p : R → Bool) (hs : List HostRow) (rs : List R)
      → Owned owner hs rs
      → Owned owner hs (delete_where p rs)
  unfolding delete_where
  Owned-delete p hs rs h = All-keep _ (λ r. not (p r)) rs h

  pub Owned-update_rows :
      (f : R → R)
      → ((r : R) → owner (f r) ≡ owner r)
      → (p : R → Bool) (hs : List HostRow) (rs : List R) → Owned owner hs rs
      → Owned owner hs (update_where p f rs)
  unfolding update_where
  Owned-update_rows f keeps p hs [] _ = tt
  Owned-update_rows f keeps p hs (r ∷ rs) (h, k) = elim (Bool-cases (p r)) [
    | inl e ↦ rw (e, keeps r) (h, Owned-update_rows f keeps p hs rs k)
    | inr e ↦ rw e (h, Owned-update_rows f keeps p hs rs k)
  ]

module _ {ℓ κ} {R : Type ℓ} {K : Type κ} ⦃e : Eq K⦄ (owner : R → ℤ) (key : R → K) where
  pub Owned-upsert :
      (f : R → R)
      → ((r : R) → owner (f r) ≡ owner r)
      → (k : K) (new : R) (hs : List HostRow) (rs : List R)
      → (has key k rs ≡ false → has host_id (owner new) hs ≡ true)
      → Owned owner hs rs
      → Owned owner hs (upsert key k f new rs)
  unfolding upsert
  Owned-upsert f keeps k new hs rs there h = elim (Bool-cases (has key k rs)) [
    | inl old ↦ rw old (Owned-update_rows owner f keeps (at_key key k) hs rs h)
    | inr fresh ↦
        rw fresh
          (All-append (λ r. has host_id (owner r) hs ≡ true) rs (new ∷ []) h (there fresh, tt))
  ]

abbrev pub IsThere : List HostRow → Option ℤ → Type 0
IsThere hs none = Unit
IsThere hs (some h) = has host_id h hs ≡ true

-- The hosts of sessions, where they name one.
abbrev pub SessionsOwned : List HostRow → List Session → Type 0
SessionsOwned hs = All (λ s. IsThere hs s.host_id)

IsThere-append :
    (hs : List HostRow) (h : HostRow) (o : Option ℤ) → IsThere hs o → IsThere (hs ++ h ∷ []) o
IsThere-append hs h none p = tt
IsThere-append hs h (some i) p = has-append host_id i hs h ∙ rw p

pub SessionsOwned-append :
    (hs : List HostRow) (h : HostRow) (ss : List Session)
    → SessionsOwned hs ss
    → SessionsOwned (hs ++ h ∷ []) ss
SessionsOwned-append hs h = All-mono λ s. IsThere-append hs h s.host_id

IsThere-update :
    (f : HostRow → HostRow) (keeps : (h : HostRow) → host_id (f h) ≡ host_id h) (p : HostRow → Bool)
    (hs : List HostRow) (o : Option ℤ)
    → IsThere hs o
    → IsThere (update_where p f hs) o
IsThere-update f keeps p hs none h = tt
IsThere-update f keeps p hs (some i) h = has-update host_id f keeps p i hs ∙ h

pub SessionsOwned-update :
    (f : HostRow → HostRow) (keeps : (h : HostRow) → host_id (f h) ≡ host_id h) (p : HostRow → Bool)
    (hs : List HostRow) (ss : List Session)
    → SessionsOwned hs ss
    → SessionsOwned (update_where p f hs) ss
SessionsOwned-update f keeps p hs = All-mono λ s. IsThere-update f keeps p hs s.host_id

abbrev is_host : ℤ → Option ℤ → Bool
is_host id none = false
is_host id (some h) = h == id

refers-is_host : (id : ℤ) (s : Session) → refers_to id s ≡ is_host id s.host_id
refers-is_host id s = ground arith

IsThere-delete :
    (id : ℤ) (hs : List HostRow) (o : Option ℤ)
    → is_host id o ≡ false
    → IsThere hs o
    → IsThere (delete_where (at_key host_id id) hs) o
IsThere-delete id hs none n p = tt
IsThere-delete id hs (some i) n p = has-delete host_id i id hs ∙ rw n p

-- A host that no session refers to can go.
pub SessionsOwned-delete :
    (id : ℤ) (hs : List HostRow) (ss : List Session)
    → any (refers_to id) ss ≡ false
    → SessionsOwned hs ss
    → SessionsOwned (delete_where (at_key host_id id) hs) ss
unfolding any
SessionsOwned-delete id hs [] n _ = tt
SessionsOwned-delete id hs (s ∷ ss) n (h, k) = (
  IsThere-delete id hs s.host_id (ground (arith, refers-is_host id s)) h,
  SessionsOwned-delete id hs ss (ground arith) k,
)

pub SessionsOwned-update_rows :
    (f : Session → Session) (keeps : (s : Session) → (f s).host_id ≡ s.host_id) (p : Session → Bool)
    (hs : List HostRow) (ss : List Session)
    → SessionsOwned hs ss
    → SessionsOwned hs (update_where p f ss)
unfolding update_where
SessionsOwned-update_rows f keeps p hs [] _ = tt
SessionsOwned-update_rows f keeps p hs (s ∷ ss) (h, k) = elim (Bool-cases (p s)) [
  | inl e ↦ rw (e, keeps s) (h, SessionsOwned-update_rows f keeps p hs ss k)
  | inr e ↦ rw e (h, SessionsOwned-update_rows f keeps p hs ss k)
]
