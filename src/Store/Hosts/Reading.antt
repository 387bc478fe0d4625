-- ===== src/Store/Hosts/Reading.antt =====
-- What a client reads of a host after tagging it, renaming it and deleting it.
use hopskip.Base.{
  ◌≡◌, refl, ap, ◌∙◌, inl, inr, Bool, true, false, not, Option, none, some, List, [], ◌∷◌, map,
  ◌&&◌, arith, if◌then◌else◌, Bool-cases, Option-cases, ◌==◌, eq_refl, nat_eq, bytes_eq, pair_eq,
  bytes_leb, ℤ, int_eq, int_beq_iff, keep, find, any, All,
}
use hopskip.Text.{Bytes}
use hopskip.Base.{lookup}
use hopskip.Store.Tables.{Tables, HostRow, TagRow, not_found, foreign_key_violation}
use hopskip.Store.Rows.Laws.{has-row, row-key, row-upsert, row-delete, row-order, Keyed-upsert}
use hopskip.Store.Rows.{delete_where, order_by, insert_by, has, row, upsert, Keyed}
use hopskip.Store.Db.{Result, ok, err, calm, ◌>>=◌}
use hopskip.Store.Hosts.{
  Host, Fact, host_id, tag_key, refers_to, without_host, affected, delete_host, tag_host, load_tags,
  load_facts, hydrate, get_host, host_name, get_host_by_name,
}
use hopskip.Store.Hosts.Integrity.{IsInOrder}

abbrev pub tag_value : Option TagRow → Option Bytes
tag_value none = none
tag_value (some r) = some r.value

-- The tag of a host in the table.
abbrev pub tag_at : ℤ → Bytes → Tables → Option Bytes
tag_at id key t = tag_value (row tag_key (id, key) t.host_tags)

abbrev pub entries : List TagRow → List (Bytes × Bytes)
entries = map (λ r. (r.key, r.value))

abbrev pub of_host : ℤ → TagRow → Bool
of_host id r = r.host_id == id

has-of_host :
    (id i : ℤ) (k : Bytes) (rs : List TagRow)
    → has tag_key (i, k) rs ≡ false
    → has tag_key (i, k) (keep (of_host id) rs) ≡ false
unfolding any keep
has-of_host id i k [] h = refl
has-of_host id i k (r ∷ rs) h = ground (arith, has-of_host id i k rs)

Keyed-of_host :
    (id : ℤ) (rs : List TagRow) → Keyed tag_key rs → Keyed tag_key (keep (of_host id) rs)
unfolding keep
Keyed-of_host id [] _ = tt
Keyed-of_host id (r ∷ rs) (h, hs) = elim (Bool-cases (r.host_id == id)) [
  | inl e ↦ rw e (has-of_host id r.host_id r.key rs h, Keyed-of_host id rs hs)
  | inr e ↦ rw e (Keyed-of_host id rs hs)
]

row-of_host :
    (id : ℤ) (k : Bytes) (rs : List TagRow)
    → row tag_key (id, k) (keep (of_host id) rs) ≡ row tag_key (id, k) rs
unfolding find keep
row-of_host id k [] = refl
row-of_host id k (r ∷ rs) = ground (arith, row-of_host id k rs, int_beq_iff r.host_id id)

-- All rows are of the host.
lookup-entries :
    (id : ℤ) (k : Bytes) (rs : List TagRow)
    → All (λ r. r.host_id ≡ id) rs
    → lookup k (entries rs) ≡ tag_value (row tag_key (id, k) rs)
unfolding lookup find
lookup-entries id k [] _ = refl
lookup-entries id k (r ∷ rs) (h, hs) =
    ground (arith, lookup-entries id k rs hs, int_beq_iff r.host_id id)

All-of_host : (id : ℤ) (rs : List TagRow) → All (λ r. r.host_id ≡ id) (keep (of_host id) rs)
unfolding keep
All-of_host id [] = tt
All-of_host id (r ∷ rs) = elim (Bool-cases (r.host_id == id)) [
  | inl e ↦ rw e ((int_beq_iff r.host_id id).0 e, All-of_host id rs)
  | inr e ↦ rw e (All-of_host id rs)
]

module _ (P : TagRow → Type 0) (le : TagRow → TagRow → Bool) where
  All-insert : (x : TagRow) (rs : List TagRow) → P x → All P rs → All P (insert_by le x rs)
  unfolding insert_by
  All-insert x [] p _ = (p, tt)
  All-insert x (y ∷ rs) p (q, qs) = elim (Bool-cases (le x y)) [
    | inl e ↦ rw e (p, (q, qs))
    | inr e ↦ rw e (q, All-insert x rs p qs)
  ]

  All-order : (rs : List TagRow) → All P rs → All P (order_by le rs)
  unfolding order_by
  All-order [] _ = tt
  All-order (x ∷ rs) (p, ps) = All-insert x (order_by le rs) p (All-order rs ps)

abbrev pub loaded : ℤ → Tables → List (Bytes × Bytes)
loaded id t = entries (order_by (λ a b. bytes_leb a.key b.key) (keep (of_host id) t.host_tags))

-- The map that `loadTags` builds has the tags of the host and no others.
pub lookup-loaded :
    (id : ℤ) (k : Bytes) (t : Tables)
    → Keyed tag_key t.host_tags
    → lookup k (loaded id t) ≡ tag_at id k t
lookup-loaded id k t d =
    lookup-entries id k _ (All-order _ _ _ (All-of_host id t.host_tags))
    ∙ ap tag_value (
        row-order tag_key _ (id, k) _ (Keyed-of_host id t.host_tags d)
        ∙ row-of_host id k t.host_tags)

abbrev pub observed : ℤ → Tables → List (Bytes × Fact)
observed id t =
    map (λ r. (r.key, record { value = r.value; observed_at = r.observed_at }))
      (order_by (λ a b. bytes_leb a.key b.key) (keep (λ r. r.host_id == id) t.host_facts))

-- The record of a host as the tables have it.
abbrev pub viewed : HostRow → Tables → Host
viewed r t = record {
  id = r.id;
  name = r.name;
  notes = r.notes;
  created_at = r.created_at;
  tags = loaded r.id t;
  facts = observed r.id t;
}

abbrev pub answer : Option HostRow → Tables → Result Host
answer none t = err not_found
answer (some r) t = ok (viewed r t)

pub get_host_lem :
    (id : ℤ) (t : Tables) → get_host id (calm t) ≡ (answer (row host_id id t.hosts) t, calm t)
unfolding get_host ◌>>=◌ hydrate load_tags load_facts
get_host_lem id t = elim (Option-cases (row host_id id t.hosts)) [
  | inl e ↦ rw e
  | inr (r, e) ↦ rw e
]

pub get_host_by_name_lem :
    (name : Bytes) (t : Tables)
    → get_host_by_name name (calm t) ≡ (answer (row host_name name t.hosts) t, calm t)
unfolding get_host_by_name ◌>>=◌ hydrate load_tags load_facts
get_host_by_name_lem name t = elim (Option-cases (row host_name name t.hosts)) [
  | inl e ↦ rw e
  | inr (r, e) ↦ rw e
]

abbrev pub tagged : ℤ → Bytes → Bytes → Tables → Tables
tagged id key value t = record t {
  host_tags =
      upsert tag_key (id, key) (λ r. record r { value = value })
        (record { host_id = id; key = key; value = value }) t.host_tags;
}

pub tag_host_lem :
    (id : ℤ) (key value : Bytes) (t : Tables)
    → has host_id id t.hosts ≡ true
    → tag_host id key value (calm t) ≡ (ok tt, calm (tagged id key value t))
unfolding tag_host ◌>>=◌
tag_host_lem id key value t there = rw there

pub tag_at-tagged :
    (id : ℤ) (key value k : Bytes) (t : Tables)
    → tag_at id k (tagged id key value t) ≡ (if k == key then some value else tag_at id k t)
tag_at-tagged id key value k t = ground (
  arith,
  row-upsert tag_key (λ (r : TagRow). record r { value = value }) (λ r. refl) (id, k) (id, key)
      (record { host_id = id; key = key; value = value }) t.host_tags refl,
  eq_refl id,
)

pub tag_at-tagged_any :
    (id j : ℤ) (key value k : Bytes) (t : Tables)
    → tag_at j k (tagged id key value t)
      ≡ (if j == id && k == key then some value else tag_at j k t)
tag_at-tagged_any id j key value k t = ground (
  arith,
  row-upsert tag_key (λ (r : TagRow). record r { value = value }) (λ r. refl) (j, k) (id, key)
      (record { host_id = id; key = key; value = value }) t.host_tags refl,
)

row-there :
    (id : ℤ) (t : Tables)
    → has host_id id t.hosts ≡ true
    → (r : HostRow) × (row host_id id t.hosts ≡ some r) × (r.id ≡ id)
row-there id t h = elim (Option-cases (row host_id id t.hosts)) [
  | inl e ↦ absurd (ground (arith, has-row host_id id t.hosts))
  | inr (r, e) ↦ (r, e, row-key host_id id t.hosts e)
]

-- For a host of the table and a driver that fails nothing, `tag_host` succeeds, and what `get_host`
-- then reads has the value at the key and at every other key the tag that the host had before.
pub tag_host-get_host :
    (id : ℤ) (key value : Bytes) (t : Tables)
    → IsInOrder t
    → has host_id id t.hosts ≡ true
    → (u : Tables) × (h : Host) × (tag_host id key value (calm t) ≡ (ok tt, calm u))
      × (get_host id (calm u) ≡ (ok h, calm u))
      × ((k : Bytes) → lookup k h.tags ≡ (if k == key then some value else tag_at id k t))
tag_host-get_host id key value t v there =
    let (r, e, at) = row-there id t there in
    let u : Tables = tagged id key value t in
    (
      u,
      viewed r u,
      tag_host_lem id key value t there,
      get_host_lem id u ∙ rw e,
      λ k. rw at (
          lookup-loaded id k u
            (Keyed-upsert tag_key _ (λ r. refl) (id, key) _ t.host_tags refl v.tags)
          ∙ tag_at-tagged id key value k t),
    )

delete_host_lem :
    (id : ℤ) (t : Tables)
    → delete_host id (calm t) ≡ (
        if not (has host_id id t.hosts)
        then (err not_found, calm t)
        else if any (refers_to id) t.sessions
        then (err foreign_key_violation, calm t)
        else (ok tt, calm (without_host id t)))
unfolding delete_host ◌>>=◌ affected
delete_host_lem id t = ground arith

row-cascade :
    (id j : ℤ) (k : Bytes) (rs : List TagRow)
    → row tag_key (j, k) (delete_where (of_host id) rs)
      ≡ (if j == id then none else row tag_key (j, k) rs)
unfolding find delete_where keep
row-cascade id j k [] = ground arith
row-cascade id j k (r ∷ rs) = ground (
  arith,
  row-cascade id j k rs,
  int_beq_iff r.host_id id,
  int_beq_iff r.host_id j,
  int_beq_iff j id,
)

-- With a driver that fails nothing, a host that no session refers to is deleted with its tags;
-- after that `get_host` finds no host of the id, and the rows and tags of the other hosts are as
-- before.
pub delete_host-get_host :
    (id : ℤ) (t : Tables)
    → has host_id id t.hosts ≡ true
    → any (refers_to id) t.sessions ≡ false
    → (u : Tables) × (delete_host id (calm t) ≡ (ok tt, calm u))
      × (get_host id (calm u) ≡ (err not_found, calm u))
      × ((j : ℤ) → row host_id j u.hosts ≡ (if j == id then none else row host_id j t.hosts))
      × ((j : ℤ) (k : Bytes) → tag_at j k u ≡ (if j == id then none else tag_at j k t))
delete_host-get_host id t there free =
    let u : Tables = without_host id t in
    (
      u,
      delete_host_lem id t ∙ rw (there, free),
      get_host_lem id u ∙ rw (row-delete host_id id id t.hosts, eq_refl id),
      λ j. row-delete host_id j id t.hosts,
      λ j k. ground (arith, row-cascade id j k t.host_tags),
    )
