-- ===== src/Server/Hosts/Adding.antt =====
-- A host that a client adds, and the host that it then reads.
use hopskip.Base.{
  ◌≡◌, ◌≢◌, refl, ap, sym, ◌∙◌, inl, inr, true, false, Option, none, some, List, [], ◌∷◌, ◌++◌,
  lookup, arith, if◌then◌else◌, Bool-cases, ◌==◌, eq_refl, nat_eq, bytes_eq, bytes_beq_iff, pair_eq,
  ℤ, int_eq, int_beq_iff, find,
}
use hopskip.Text.{Bytes}
use hopskip.Text.Trim.{trim_space}
use hopskip.Store.Tables.{Tables, HostRow, TagRow}
use hopskip.Store.Rows.{next_id, has, row, Keyed}
use hopskip.Store.Rows.Laws.{has-append, row-append, next_id-fresh, Keyed-upsert}
use hopskip.Store.Db.{ok, M, calm, exec, catch, caught, settle, strike, continue, ◌>>=◌, ◌>>◌, pure}
use hopskip.Store.Hosts.{Host, host_id, host_name, tag_key, add_host, tag_host, get_host}
use hopskip.Store.Hosts.Owned.{Owned}
use hopskip.Store.Hosts.Integrity.{IsInOrder, tag_host_id}
use hopskip.Store.Hosts.Reading.{
  tag_at, tag_value, get_host_lem, tag_host_lem, tagged, tag_at-tagged, viewed, lookup-loaded,
}
use hopskip.Agent.Limits.{atoi}
use hopskip.Server.Api.{Reply, Body}
use hopskip.Server.Hosts.{
  AddHostReq, ssh_key, via_key, provider_key, quietly, tag_unless_blank, tag_entry, tag_each,
  tag_all, added_host, handle_add_host, handle_get_host,
}

-- The tag of a field of its own.
abbrev named : Bytes → Bytes → List (Bytes × Bytes)
named key value = if trim_space value == [] then [] else (key, trim_space value) ∷ []

abbrev entry : Bytes → Bytes → List (Bytes × Bytes)
entry key value = if trim_space key == [] then [] else (trim_space key, value) ∷ []

abbrev entries : List (Bytes × Bytes) → List (Bytes × Bytes)
entries [] = []
entries ((key, value) ∷ es) = entry key value ++ entries es

-- The tags that a request asks for, in the order in which they are set.
abbrev pub asked : AddHostReq → List (Bytes × Bytes)
asked req =
    named ssh_key req.ssh
    ++ named via_key req.via
    ++ named provider_key req.provider
    ++ entries req.tags

-- The last value of a key, or another where it has none.
abbrev pub last_value : Bytes → List (Bytes × Bytes) → Option Bytes → Option Bytes
last_value k [] other = other
last_value k ((key, value) ∷ es) other = last_value k es (if k == key then some value else other)

tagged_all : ℤ → List (Bytes × Bytes) → Tables → Tables
tagged_all id [] t = t
tagged_all id ((key, value) ∷ es) t = tagged_all id es (tagged id key value t)

tagged_all-append :
    (id : ℤ) (es fs : List (Bytes × Bytes)) (t : Tables)
    → tagged_all id (es ++ fs) t ≡ tagged_all id fs (tagged_all id es t)
unfolding tagged_all
tagged_all-append id [] fs t = refl
tagged_all-append id ((key, value) ∷ es) fs t = tagged_all-append id es fs (tagged id key value t)

tagged_all-hosts :
    (id : ℤ) (es : List (Bytes × Bytes)) (t : Tables) → (tagged_all id es t).hosts ≡ t.hosts
unfolding tagged_all
tagged_all-hosts id [] t = refl
tagged_all-hosts id ((key, value) ∷ es) t = tagged_all-hosts id es (tagged id key value t)

tagged_all-Keyed :
    (id : ℤ) (es : List (Bytes × Bytes)) (t : Tables)
    → Keyed tag_key t.host_tags
    → Keyed tag_key (tagged_all id es t).host_tags
unfolding tagged_all
tagged_all-Keyed id [] t h = h
tagged_all-Keyed id ((key, value) ∷ es) t h =
    tagged_all-Keyed id es (tagged id key value t)
      (Keyed-upsert tag_key _ (λ r. refl) (id, key) _ t.host_tags refl h)

tag_at-tagged_all :
    (id : ℤ) (k : Bytes) (es : List (Bytes × Bytes)) (t : Tables)
    → tag_at id k (tagged_all id es t) ≡ last_value k es (tag_at id k t)
unfolding tagged_all
tag_at-tagged_all id k [] t = refl
tag_at-tagged_all id k ((key, value) ∷ es) t =
    tag_at-tagged_all id k es (tagged id key value t)
    ∙ ap (last_value k es) (tag_at-tagged id key value k t)

-- With a driver that fails nothing, the method sets these tags of a host that is there.
abbrev Sets : ℤ → M Unit → List (Bytes × Bytes) → Type 0
Sets id m es =
    (t : Tables) → has host_id id t.hosts ≡ true → m (calm t) ≡ (ok tt, calm (tagged_all id es t))

Sets-bind :
    (id : ℤ) (m k : M Unit) (es fs : List (Bytes × Bytes))
    → Sets id m es
    → Sets id k fs
    → Sets id (m >> k) (es ++ fs)
unfolding ◌>>=◌ continue
Sets-bind id m k es fs hm hk t there = rw (hm t there) (
    hk (tagged_all id es t) (ap (has host_id id) (tagged_all-hosts id es t) ∙ there)
    ∙ ap (λ u. (ok tt, calm u)) (sym (tagged_all-append id es fs t)))

quietly-Sets :
    (id : ℤ) (key value : Bytes) → Sets id (quietly (tag_host id key value)) ((key, value) ∷ [])
unfolding ◌>>=◌ catch caught continue pure tagged_all
quietly-Sets id key value t there = rw (tag_host_lem id key value t there) refl

tag_unless_blank-Sets :
    (id : ℤ) (key value : Bytes) → Sets id (tag_unless_blank id key value) (named key value)
unfolding tag_unless_blank pure tagged_all
tag_unless_blank-Sets id key value t there = elim (Bool-cases (trim_space value == [])) [
  | inl e ↦ rw e refl
  | inr e ↦ rw e (quietly-Sets id key (trim_space value) t there)
]

tag_entry-Sets : (id : ℤ) (key value : Bytes) → Sets id (tag_entry id key value) (entry key value)
unfolding tag_entry pure tagged_all
tag_entry-Sets id key value t there = elim (Bool-cases (trim_space key == [])) [
  | inl e ↦ rw e refl
  | inr e ↦ rw e (quietly-Sets id (trim_space key) value t there)
]

tag_each-Sets : (id : ℤ) (es : List (Bytes × Bytes)) → Sets id (tag_each id es) (entries es)
unfolding tag_each pure tagged_all
tag_each-Sets id [] t there = refl
tag_each-Sets id ((key, value) ∷ es) t there =
    Sets-bind id _ _ (entry key value) (entries es) (tag_entry-Sets id key value)
      (tag_each-Sets id es) t there

tag_all-Sets : (id : ℤ) (req : AddHostReq) → Sets id (tag_all id req) (asked req)
unfolding tag_all
tag_all-Sets id req t there =
    Sets-bind id _ _ _ (entries req.tags)
      (λ u h.
        Sets-bind id _ _ _ (named provider_key req.provider)
          (λ v g.
            Sets-bind id _ _ (named ssh_key req.ssh) (named via_key req.via)
              (tag_unless_blank-Sets id ssh_key req.ssh) (tag_unless_blank-Sets id via_key req.via)
              v g)
          (tag_unless_blank-Sets id provider_key req.provider) u h)
      (tag_each-Sets id req.tags) t there

-- A host that is not there has no tag.
unowned :
    (id : ℤ) (k : Bytes) (hs : List HostRow) (rs : List TagRow)
    → Owned tag_host_id hs rs
    → has host_id id hs ≡ false
    → row tag_key (id, k) rs ≡ none
unfolding find
unowned id k hs [] _ fresh = refl
unowned id k hs (r ∷ rs) (h, ks) fresh = elim (Bool-cases (r.host_id == id)) [
  | inr e ↦ rw e (unowned id k hs rs ks fresh)
  | inl e ↦
      let same : r.host_id ≡ id = (int_beq_iff r.host_id id).0 e in
      absurd (ground (arith, sym (ap (λ i. has host_id i hs) same) ∙ h, fresh))
]

module _ (now : Bytes) (req : AddHostReq) (t : Tables) where
  abbrev new_row : HostRow
  new_row = record {
    id = next_id host_id t.hosts;
    name = trim_space req.name;
    notes = trim_space req.notes;
    created_at = now;
  }

  abbrev with_row : Tables
  with_row = record t { hosts = t.hosts ++ new_row ∷ [] }

  abbrev with_host : Tables
  with_host = tagged_all new_row.id (asked req) with_row

  add_host_lem :
      has host_name (trim_space req.name) t.hosts ≡ false
      → add_host now (trim_space req.name) (trim_space req.notes) (calm t)
        ≡ (ok new_row.id, calm with_row)
  unfolding add_host exec strike settle
  add_host_lem free = rw free refl

  row_there : has host_id new_row.id with_row.hosts ≡ true
  row_there =
      has-append host_id new_row.id t.hosts new_row
      ∙ rw (next_id-fresh host_id t.hosts, eq_refl new_row.id) refl

  row_read : row host_id new_row.id with_host.hosts ≡ some new_row
  row_read =
      ap (row host_id new_row.id) (tagged_all-hosts new_row.id (asked req) with_row)
      ∙ row-append host_id new_row.id t.hosts new_row
      ∙ rw (next_id-fresh host_id t.hosts, eq_refl new_row.id) refl

  read_back : get_host new_row.id (calm with_host) ≡ (ok (viewed new_row with_host), calm with_host)
  read_back = get_host_lem new_row.id with_host ∙ rw row_read refl

  tags_read :
      (k : Bytes)
      → IsInOrder t
      → lookup k (viewed new_row with_host).tags ≡ last_value k (asked req) none
  tags_read k v =
      lookup-loaded new_row.id k with_host (tagged_all-Keyed new_row.id (asked req) with_row v.tags)
      ∙ tag_at-tagged_all new_row.id k (asked req) with_row
      ∙ ap (λ o. last_value k (asked req) (tag_value o))
          (unowned new_row.id k t.hosts t.host_tags v.tag_hosts (next_id-fresh host_id t.hosts))

abbrev created : Host → Reply
created h = record { code = 201; body = Body.host h }

abbrev shown : Host → Reply
shown h = record { code = 200; body = Body.host h }

-- With a driver that fails nothing and tables in order, a name that is not blank and that no host
-- has is added: the reply has status 201 and a host with the name and the notes, both without white
-- space at their ends, and with exactly the tags that the request asks for, the last value of a key
-- being the one that counts; and a GET of the host's id, in any form that reads as the number,
-- gives the same host.
pub handle_add_host-handle_get_host :
    (now : Bytes) (req : AddHostReq) (t : Tables)
    → IsInOrder t
    → trim_space req.name ≢ []
    → has host_name (trim_space req.name) t.hosts ≡ false
    → (u : Tables) × (h : Host) × (handle_add_host now (some req) (calm t)
        ≡ (ok (created h), calm u))
      × (h.name ≡ trim_space req.name)
      × (h.notes ≡ trim_space req.notes)
      × ((k : Bytes) → lookup k h.tags ≡ last_value k (asked req) none)
      × ((text : Bytes)
          → atoi text ≡ some h.id
          → handle_get_host text (calm u) ≡ (ok (shown h), calm u))
unfolding handle_add_host handle_get_host added_host ◌>>=◌ catch caught continue pure
handle_add_host-handle_get_host now req t v filled free =
    let r = new_row now req t in
    let u = with_host now req t in
    let not_blank : (trim_space req.name == []) ≡ false =
      ground (arith, filled, bytes_beq_iff (trim_space req.name) []) in
    (
      u,
      viewed r u,
      rw
          (
            not_blank,
            add_host_lem now req t free,
            tag_all-Sets r.id req (with_row now req t) (row_there now req t),
            read_back now req t,
          )
          refl,
      refl,
      refl,
      λ k. tags_read now req t k v,
      λ text e. rw (e, read_back now req t) refl,
    )
