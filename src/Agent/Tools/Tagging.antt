-- ===== src/Agent/Tools/Tagging.antt =====
-- The host that a model's reference names, the tag that the model sets on it and the name that it
-- gives it.
use hopskip.Base.{
  arith, ◌&&◌, [], ◌≡◌, refl, ◌∙◌, inl, inr, true, false, Option, some, if◌then◌else◌, Bool-cases,
  ◌==◌, nat_eq, bytes_eq, pair_eq, ℤ, pos, int_eq, lookup,
}
use hopskip.Text.{Bytes}
use hopskip.Text.Trim.{trim_space}
use hopskip.Store.Tables.{Tables, HostRow}
use hopskip.Store.Rows.{row, has, at_key}
use hopskip.Store.Rows.Laws.{Keyed-upsert}
use hopskip.Store.Db.{ok, calm, ◌>>=◌}
use hopskip.Store.Hosts.{name_taken, Host, host_id, host_name, tag_key}
use hopskip.Store.Hosts.Integrity.{IsInOrder}
use hopskip.Store.Hosts.Reading.{
  tag_at, viewed, answer, tagged, get_host_lem, get_host_by_name_lem, tag_host_lem, tag_at-tagged,
  tag_at-tagged_any, lookup-loaded,
}
use hopskip.Store.Hosts.Revising.{
  with_revised, update_host_lem, row-revised, found_there, found-row,
}
use hopskip.Agent.Tools.{
  Args, done, one_host, is_digits, parse_digits, resolve, tag_host_tool, get_host_tool, renamed,
  rename_host_tool,
}

-- The row that a reference names: by the id, where it is a number, else by the name.
unfoldable pub target : Bytes → Tables → Option HostRow
target given t =
    let ref = trim_space given in
    if is_digits ref
    then row host_id (pos (parse_digits 0 ref)) t.hosts
    else row host_name ref t.hosts

resolve_lem :
    (given : Bytes) (t : Tables) → resolve given (calm t) ≡ (answer (target given t) t, calm t)
unfolding resolve target
resolve_lem given t = elim (Bool-cases (is_digits (trim_space given))) [
  | inl e ↦ rw e (get_host_lem (pos (parse_digits 0 (trim_space given))) t)
  | inr e ↦ rw e (get_host_by_name_lem (trim_space given) t)
]

get_host_tool_lem :
    (args : Args) (t : Tables) (r : HostRow)
    → target args.host t ≡ some r
    → get_host_tool args (calm t) ≡ (ok (one_host (viewed r t)), calm t)
unfolding get_host_tool ◌>>=◌
get_host_tool_lem args t r e = rw (resolve_lem args.host t, e) refl

tag_host_tool_lem :
    (args : Args) (t : Tables) (r : HostRow)
    → target args.host t ≡ some r
    → has host_id r.id t.hosts ≡ true
    → tag_host_tool args (calm t) ≡ (ok done, calm (tagged r.id args.key args.value t))
unfolding tag_host_tool ◌>>=◌
tag_host_tool_lem args t r e there =
    rw (resolve_lem args.host t, e, tag_host_lem r.id args.key args.value t there) refl

target_there :
    (given : Bytes) (t : Tables) (r : HostRow)
    → target given t ≡ some r
    → has host_id r.id t.hosts ≡ true
unfolding target
target_there given t r h = ground (
  arith,
  found_there (at_key host_id (pos (parse_digits 0 (trim_space given)))) t.hosts r,
  found_there (at_key host_name (trim_space given)) t.hosts r,
)

-- With a driver that fails nothing and tables that are in order: a tag that `tag_host` sets is set on
-- the host that the reference names, by its id or by its name, and on no other host, and no other tag
-- changes; `get_host` then shows the same host for the reference, with the tag.
pub tag_host_tool-get_host_tool :
    (args : Args) (t : Tables) (r : HostRow)
    → IsInOrder t
    → target args.host t ≡ some r
    → (u : Tables) × (h : Host) × (tag_host_tool args (calm t) ≡ (ok done, calm u))
      × (get_host_tool args (calm u) ≡ (ok (one_host h), calm u))
      × (h.id ≡ r.id)
      × (h.name ≡ r.name)
      × ((k : Bytes)
          → lookup k h.tags ≡ (if k == args.key then some args.value else tag_at r.id k t))
      × ((j : ℤ) (k : Bytes)
          → tag_at j k u ≡ (if j == r.id && k == args.key then some args.value else tag_at j k t))
unfolding target
tag_host_tool-get_host_tool args t r v e =
    let u : Tables = tagged r.id args.key args.value t in
    (
      u,
      viewed r u,
      tag_host_tool_lem args t r e (target_there args.host t r e),
      get_host_tool_lem args u r e,
      refl,
      refl,
      λ k.
          lookup-loaded r.id k u
            (Keyed-upsert tag_key _ (λ r. refl) (r.id, args.key) _ t.host_tags refl v.tags)
          ∙ tag_at-tagged r.id args.key args.value k t,
      λ j k. tag_at-tagged_any r.id j args.key args.value k t,
    )

target-row :
    (given : Bytes) (t : Tables) (r : HostRow)
    → IsInOrder t
    → target given t ≡ some r
    → row host_id r.id t.hosts ≡ some r
unfolding target
target-row given t r v h = elim (Bool-cases (is_digits (trim_space given))) [
  | inl e ↦
      found-row (at_key host_id (pos (parse_digits 0 (trim_space given)))) t.hosts r v.ids
        (ground (arith, e, h))
  | inr e ↦ found-row (at_key host_name (trim_space given)) t.hosts r v.ids (ground (arith, e, h))
]

-- With a driver that fails nothing and tables that are in order: where the new name is not blank
-- and no other host has it, `rename_host` gives the name, less the blanks around it, to the host
-- that the reference names, by its id or by its name; its notes stay, and no other host changes,
-- nor any tag or fact.
pub rename_host_tool_lem :
    (args : Args) (t : Tables) (r : HostRow)
    → IsInOrder t
    → target args.host t ≡ some r
    → (trim_space args.name == []) ≡ false
    → name_taken r.id (trim_space args.name) t ≡ false
    → (u : Tables) × (rename_host_tool args (calm t)
        ≡ (ok (renamed r.id (trim_space args.name)), calm u))
      × ((j : ℤ)
          → row host_id j u.hosts ≡ (
              if j == r.id
              then some (record r { name = trim_space args.name })
              else row host_id j t.hosts))
      × (u.host_tags ≡ t.host_tags)
      × (u.host_facts ≡ t.host_facts)
unfolding rename_host_tool ◌>>=◌
rename_host_tool_lem args t r v e filled free =
    let name = trim_space args.name in
    (
      with_revised r.id name r.notes t,
      rw
          (
            resolve_lem args.host t,
            e,
            filled,
            update_host_lem r.id name r.notes t (target_there args.host t r e) free,
          )
          refl,
      λ j. row-revised r.id name r.notes r j t.hosts (target-row args.host t r v e),
      refl,
      refl,
    )
