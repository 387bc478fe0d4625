-- ===== src/Store/Hosts.antt =====
-- internal/store/store.go: hosts with their tags and facts. The time of a call is its first argument.
pub mod Owned
pub mod Names
pub mod Integrity
pub mod Reading
pub mod Reads
pub mod Frame
pub mod Failing
pub mod Pinned
pub mod Every
pub mod Revising
use hopskip.Base.{
  ℕ, zero, suc, ◌+◌, ◌-◌, ◌≤◌, ◌<◌, ◌≡◌, refl, sym, ap, ◌∙◌, ◌≢◌, ◌↔◌, ◌⊎◌, inl, inr, Bool, true,
  false, not, ◌&&◌, ◌||◌, Option, none, some, List, [], ◌∷◌, ◌++◌, map, append-nil, append_assoc,
  arith, ltb, leb, if◌then◌else◌, Bool-cases, Option-cases, Eq, ◌==◌, eq_iff, eq_refl, nat_eq,
  bytes_eq, bytes_beq_iff, pair_eq, bytes_leb, ℤ, pos, negsuc, int_eq, length, take, drop, keep,
  find, any, all, All,
}
use hopskip.Text.{Bytes, codes}
use hopskip.Store.Tables.{
  Tables, HostRow, TagRow, FactRow, Session, Error, not_found, unique_violation,
  foreign_key_violation,
}
use hopskip.Store.Rows.{
  update_where, delete_where, order_by, next_id, at_key, has, row, upsert, Keyed,
}
use hopskip.Store.Db.{
  Result, ok, err, Db, M, calm, pure, fail, exec, query, catch, ◌>>=◌, ◌>>◌, transaction, result_or,
}

pub record Fact : Type 0 where
  pub value : Bytes
  pub observed_at : Bytes

-- A Go map is the list of its entries in the order of their keys.
pub record Host : Type 0 where
  pub id : ℤ
  pub name : Bytes
  pub notes : Bytes
  pub created_at : Bytes
  pub tags : List (Bytes × Bytes)
  pub facts : List (Bytes × Fact)

abbrev pub host_id : HostRow → ℤ
host_id h = h.id

abbrev pub host_name : HostRow → Bytes
host_name h = h.name

-- PRIMARY KEY (host_id, key)
abbrev pub tag_key : TagRow → ℤ × Bytes
tag_key r = (r.host_id, r.key)

abbrev pub fact_key : FactRow → ℤ × Bytes
fact_key r = (r.host_id, r.key)

-- A session that refers to the host, open or closed: `REFERENCES hosts(id)` without an action.
abbrev pub refers_to : ℤ → Session → Bool
refers_to id s = elim s.host_id [ none ↦ false | some h ↦ h == id ]

unfoldable pub add_host : Bytes → Bytes → Bytes → M ℤ
add_host now name notes = exec λ t.
    let id = next_id host_id t.hosts in
    let new : HostRow = record { id = id; name = name; notes = notes; created_at = now } in
    if has host_name name t.hosts
    then err unique_violation
    else ok (id, record t { hosts = t.hosts ++ new ∷ [] })

-- The rows of the host in `host_tags` and `host_facts` go with it (ON DELETE CASCADE).
abbrev pub without_host : ℤ → Tables → Tables
without_host id t = record t {
  hosts = delete_where (at_key host_id id) t.hosts;
  host_tags = delete_where (λ r. r.host_id == id) t.host_tags;
  host_facts = delete_where (λ r. r.host_id == id) t.host_facts;
}

-- `RowsAffected` of 0 becomes `ErrNotFound`.
affected : ℕ → M Unit
affected n = if n == 0 then fail not_found else pure tt

pub delete_host : ℤ → M Unit
delete_host id = do
  n ← exec λ t.
      if not (has host_id id t.hosts)
      then ok (0, t)
      else if any (refers_to id) t.sessions
      then err foreign_key_violation
      else ok (1, without_host id t)
  affected n

pub tag_host : ℤ → Bytes → Bytes → M Unit
tag_host id key value = exec λ t.
    let new : TagRow = record { host_id = id; key = key; value = value } in
    let tags = upsert tag_key (id, key) (λ r. record r { value = value }) new t.host_tags in
    if not (has host_id id t.hosts) && not (has tag_key (id, key) t.host_tags)
    then err foreign_key_violation
    else ok (tt, record t { host_tags = tags })

pub delete_tag : ℤ → Bytes → M Unit
delete_tag id key =
    exec λ t. ok (tt, record t { host_tags = delete_where (at_key tag_key (id, key)) t.host_tags })

-- Another host has the name.
abbrev pub name_taken : ℤ → Bytes → Tables → Bool
name_taken id name t = any (λ h. not (h.id == id) && h.name == name) t.hosts

pub update_host : ℤ → Bytes → Bytes → M Unit
update_host id name notes = do
  n ← exec λ t.
      let hosts =
        update_where (at_key host_id id) (λ h. record h { name = name; notes = notes }) t.hosts in
      if not (has host_id id t.hosts)
      then ok (0, t)
      else if name_taken id name t
      then err unique_violation
      else ok (1, record t { hosts = hosts })
  affected n

pub record_fact : Bytes → ℤ → Bytes → Bytes → M Unit
record_fact now id key value = exec λ t.
    let new : FactRow = record { host_id = id; key = key; value = value; observed_at = now } in
    let facts =
      upsert fact_key (id, key) (λ r. record r { value = value; observed_at = now }) new
        t.host_facts in
    if not (has host_id id t.hosts) && not (has fact_key (id, key) t.host_facts)
    then err foreign_key_violation
    else ok (tt, record t { host_facts = facts })

unfoldable pub load_tags : ℤ → M (List (Bytes × Bytes))
load_tags id = query λ t.
    map (λ r. (r.key, r.value))
      (order_by (λ a b. bytes_leb a.key b.key) (keep (λ r. r.host_id == id) t.host_tags))

unfoldable pub load_facts : ℤ → M (List (Bytes × Fact))
load_facts id = query λ t.
    map (λ r. (r.key, record { value = r.value; observed_at = r.observed_at }))
      (order_by (λ a b. bytes_leb a.key b.key) (keep (λ r. r.host_id == id) t.host_facts))

unfoldable pub hydrate : HostRow → M Host
hydrate h = do
  tags ← load_tags h.id
  facts ← load_facts h.id
  pure (record {
    id = h.id;
    name = h.name;
    notes = h.notes;
    created_at = h.created_at;
    tags = tags;
    facts = facts;
  })

unfoldable pub hydrate_all : List HostRow → M (List Host)
hydrate_all [] = pure []
hydrate_all (h ∷ hs) = do host ← hydrate h; rest ← hydrate_all hs; pure (host ∷ rest)

unfoldable pub list_hosts : M (List Host)
list_hosts = do
  rows ← query (λ t. order_by (λ a b. bytes_leb a.name b.name) t.hosts)
  hydrate_all rows

-- `sql.ErrNoRows` becomes `ErrNotFound`.
abbrev or_not_found : {A B : Type 0} → Option A → (A → M B) → M B
or_not_found none f = fail not_found
or_not_found (some a) f = f a

pub get_host : ℤ → M Host
get_host id = do found ← query (λ t. row host_id id t.hosts); or_not_found found hydrate

pub get_host_by_name : Bytes → M Host
get_host_by_name name = do
  found ← query (λ t. row host_name name t.hosts)
  or_not_found found hydrate

pub delete_fact : ℤ → Bytes → M Unit
delete_fact id key =
    exec
      λ t. ok (tt, record t { host_facts = delete_where (at_key fact_key (id, key)) t.host_facts })
