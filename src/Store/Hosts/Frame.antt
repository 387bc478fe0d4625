-- ===== src/Store/Hosts/Frame.antt =====
-- The methods on hosts and sessions, and the authored files.
use hopskip.Base.{
  ℕ, inl, inr, not, ◌&&◌, List, Bool-cases, ◌==◌, nat_eq, bytes_eq, pair_eq, ℤ, int_eq,
}
use hopskip.Text.{Bytes}
use hopskip.Store.Rows.{has}
use hopskip.Store.Tables.{Tables, WebFileRow}
use hopskip.Store.Db.Keeps.{Keeps, Keeps-bind, Keeps-pure, Keeps-fail, Keeps-exec, Keeps-if}
use hopskip.Base.{Option}
use hopskip.Store.Sessions.{session_id, dangling, create_session, close_session}
use hopskip.Store.Hosts.{
  host_id, host_name, tag_key, fact_key, name_taken, affected, add_host, update_host, tag_host,
  delete_tag, record_fact, delete_fact,
}

module _ (Q : List WebFileRow → Type 0) where
  -- What depends on the authored files only.
  abbrev pub OnFiles : Tables → Type 0
  OnFiles t = Q t.web_files

  affected-Keeps : (n : ℕ) → Keeps OnFiles (affected n)
  unfolding affected
  affected-Keeps n = Keeps-if (n == 0) _ _ (λ _. Keeps-fail _) (λ _. Keeps-pure _)

  pub add_host-Keeps : (now name notes : Bytes) → Keeps OnFiles (add_host now name notes)
  unfolding add_host
  add_host-Keeps now name notes =
      Keeps-exec _
        λ t v. elim (Bool-cases (has host_name name t.hosts)) [ inl e ↦ rw e tt | inr e ↦ rw e v ]

  pub update_host-Keeps : (id : ℤ) (name notes : Bytes) → Keeps OnFiles (update_host id name notes)
  unfolding update_host
  update_host-Keeps id name notes =
      Keeps-bind _ _
        (Keeps-exec _ λ t v. elim (Bool-cases (not (has host_id id t.hosts))) [
          | inl e ↦ rw e v
          | inr e ↦
              rw e (elim (Bool-cases (name_taken id name t)) [ inl e ↦ rw e tt | inr e ↦ rw e v ])
        ])
        affected-Keeps

  pub tag_host-Keeps : (id : ℤ) (key value : Bytes) → Keeps OnFiles (tag_host id key value)
  unfolding tag_host
  tag_host-Keeps id key value = Keeps-exec _ λ t v.
      elim (Bool-cases (not (has host_id id t.hosts) && not (has tag_key (id, key) t.host_tags))) [
        | inl e ↦ rw e tt
        | inr e ↦ rw e v
      ]

  pub delete_tag-Keeps : (id : ℤ) (key : Bytes) → Keeps OnFiles (delete_tag id key)
  unfolding delete_tag
  delete_tag-Keeps id key = Keeps-exec _ λ t v. v

  pub record_fact-Keeps :
      (now : Bytes) (id : ℤ) (key value : Bytes) → Keeps OnFiles (record_fact now id key value)
  unfolding record_fact
  record_fact-Keeps now id key value = Keeps-exec _ λ t v.
      elim (Bool-cases
        (not (has host_id id t.hosts) && not (has fact_key (id, key) t.host_facts))) [
          | inl e ↦ rw e tt
          | inr e ↦ rw e v
        ]

  pub delete_fact-Keeps : (id : ℤ) (key : Bytes) → Keeps OnFiles (delete_fact id key)
  unfolding delete_fact
  delete_fact-Keeps id key = Keeps-exec _ λ t v. v

  pub create_session-Keeps :
      (now id : Bytes) (host_id : Option ℤ) (tmux_name label : Bytes)
      → Keeps OnFiles (create_session now id host_id tmux_name label)
  unfolding create_session
  create_session-Keeps now id host_id tmux_name label = Keeps-exec _ λ t v.
      elim (Bool-cases (has session_id id t.sessions)) [
        | inl e ↦ rw e tt
        | inr e ↦ elim (Bool-cases (dangling host_id t)) [
          | inl d ↦ rw (e, d) tt
          | inr d ↦ rw (e, d) v
        ]
      ]

  pub close_session-Keeps : (now id : Bytes) → Keeps OnFiles (close_session now id)
  unfolding close_session
  close_session-Keeps now id = Keeps-exec _ λ t v. v
