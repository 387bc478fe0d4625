-- ===== src/Store/Hosts/Every.antt =====
-- What every host satisfies, through the methods on hosts.
use hopskip.Base.{
  ◌&&◌, not, List, ◌==◌, nat_eq, bytes_eq, pair_eq, ℤ, ℕ, int_eq, All, All-append, All-keep, any,
}
use hopskip.Text.{Bytes}
use hopskip.Store.Rows.{delete_where, has}
use hopskip.Store.Rows.Every.{All-update_where}
use hopskip.Store.Tables.{Tables, HostRow, TagRow, FactRow}
use hopskip.Store.Db.Keeps.{Keeps, Keeps-exec, Keeps-bind, Keeps-if, Keeps-pure, Keeps-fail}
use hopskip.Store.Hosts.{
  host_id, host_name, tag_key, refers_to, name_taken, affected, add_host, update_host, delete_host,
  tag_host, delete_tag,
}
use hopskip.Store.Hosts.Integrity.{Leaves-if}

module _ {P : Tables → Type 0} (Q : HostRow → Type 0) (has_all : (t : Tables) → P t → All Q t.hosts)
    (with_rows : (t : Tables) (hs : List HostRow) (tags : List TagRow) (facts : List FactRow)
      → All Q hs
      → P t
      → P (record t { hosts = hs; host_tags = tags; host_facts = facts })) where
  pub add_host-Holds :
      (now name notes : Bytes)
      → ((id : ℤ) → Q (record { id = id; name = name; notes = notes; created_at = now }))
      → Keeps P (add_host now name notes)
  unfolding add_host
  add_host-Holds now name notes new = Keeps-exec _ λ t v.
      Leaves-if P (has host_name name t.hosts) _ _ (λ _. tt)
        λ _. with_rows t _ _ _ (All-append Q t.hosts _ (has_all t v) (new _, tt)) v

  affected-Holds : (n : ℕ) → Keeps P (affected n)
  unfolding affected
  affected-Holds n = Keeps-if (n == 0) _ _ (λ _. Keeps-fail _) (λ _. Keeps-pure _)

  pub update_host-Holds :
      (id : ℤ) (name notes : Bytes)
      → ((h : HostRow) → Q h → Q (record h { name = name; notes = notes }))
      → Keeps P (update_host id name notes)
  unfolding update_host
  update_host-Holds id name notes revised =
      Keeps-bind _ _
        (Keeps-exec _ λ t v.
          Leaves-if P (not (has host_id id t.hosts)) _ _ (λ _. v)
            λ _.
              Leaves-if P (name_taken id name t) _ _ (λ _. tt)
                λ _.
                  with_rows t _ _ _
                    (All-update_where Q _ _ (λ h _. revised h) t.hosts (has_all t v)) v)
        affected-Holds

  pub delete_host-Holds : (id : ℤ) → Keeps P (delete_host id)
  unfolding delete_host delete_where
  delete_host-Holds id =
      Keeps-bind _ _
        (Keeps-exec _ λ t v.
          Leaves-if P (not (has host_id id t.hosts)) _ _ (λ _. v)
            λ _.
              Leaves-if P (any (refers_to id) t.sessions) _ _ (λ _. tt)
                λ _. with_rows t _ _ _ (All-keep Q _ t.hosts (has_all t v)) v)
        affected-Holds

  pub tag_host-Holds : (id : ℤ) (key value : Bytes) → Keeps P (tag_host id key value)
  unfolding tag_host
  tag_host-Holds id key value = Keeps-exec _ λ t v.
      Leaves-if P (not (has host_id id t.hosts) && not (has tag_key (id, key) t.host_tags)) _ _
        (λ _. tt) (λ _. with_rows t t.hosts _ t.host_facts (has_all t v) v)

  pub delete_tag-Holds : (id : ℤ) (key : Bytes) → Keeps P (delete_tag id key)
  unfolding delete_tag
  delete_tag-Holds id key = Keeps-exec _ λ t v. with_rows t t.hosts _ t.host_facts (has_all t v) v
