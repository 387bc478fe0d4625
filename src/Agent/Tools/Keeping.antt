-- ===== src/Agent/Tools/Keeping.antt =====
-- What the tools keep, by what the methods of the store keep.
use hopskip.Base.{
  ◌≡◌, inl, inr, not, ◌||◌, Option, none, some, List, [], Option-cases, ◌==◌, nat_eq, bytes_eq,
  pair_eq, ℤ, pos, int_eq,
}
use hopskip.Text.{Bytes}
use hopskip.Store.Db.{M, pure, ◌>>=◌}
use hopskip.Store.Tables.{Tables, Extension}
use hopskip.Store.Db.Keeps.{
  Keeps, Keeps-query, Keeps-bind, Keeps-pure, Keeps-fail, Keeps-if, Keeps-catch,
}
use hopskip.Text.Trim.{trim_space}
use hopskip.Store.Hosts.{
  Host, get_host, get_host_by_name, add_host, update_host, tag_host, delete_tag, record_fact,
  delete_fact,
}
use hopskip.Store.Hosts.Reads.{list_hosts-Keeps, get_host-Keeps, get_host_by_name-Keeps}
use hopskip.Store.Sessions.{list_sessions, create_session, close_session}
use hopskip.Store.Settings.{add_knowledge, list_knowledge, delete_knowledge}
use hopskip.Store.Web.{
  put_web_file, get_web_file, delete_web_file, list_web_files, upsert_extension, delete_extension,
  list_extensions, normalize_web_path,
}
use hopskip.Agent.Tools.{
  Args, Answer, is_digits, parse_digits, resolve, with_path, found_file, pinned_at, trimmed,
  is_kind, pin, list_hosts_tool, list_sessions_tool, get_host_tool, add_host_tool, rename_host_tool,
  tag_host_tool, record_fact_tool, forget_fact_tool, forget_tag_tool, remember_tool,
  list_knowledge_tool, forget_knowledge_tool, list_web_files_tool, read_web_file_tool,
  write_web_file_tool, delete_web_file_tool, register_extension_tool, unregister_extension_tool,
  list_extensions_tool,
}

module _ {P : Tables → Type 0} where
  resolve-Keeps : (given : Bytes) → Keeps P (resolve given)
  unfolding resolve
  resolve-Keeps given =
      let ref = trim_space given in
      let id : ℤ = pos (parse_digits 0 ref) in
      Keeps-if (is_digits ref) (get_host id) (get_host_by_name ref) (λ _. get_host-Keeps id)
        (λ _. get_host_by_name-Keeps ref)

  get_web_file-Keeps : (path : Bytes) → Keeps P (get_web_file path)
  unfolding get_web_file
  get_web_file-Keeps path = Keeps-bind _ _ (Keeps-catch _ (Keeps-query _)) λ found. Keeps-pure _

  with_path-Keeps :
      (refusal path : Bytes) (f : Bytes → M Answer)
      → ((norm : Bytes) → normalize_web_path path ≡ some norm → Keeps P (f norm))
      → Keeps P (with_path refusal path f)
  with_path-Keeps refusal path f k = elim (Option-cases (normalize_web_path path)) [
    | inl e ↦ rw (with_path, e) (Keeps-fail _)
    | inr (norm, e) ↦ rw (with_path, e) (k norm e)
  ]

  found_file-Keeps :
      (embedded : Bytes → Option Bytes) (norm : Bytes) (o : Option (Bytes × Bytes))
      → Keeps P (found_file embedded norm o)
  found_file-Keeps embedded norm (some (content, _)) = Keeps-pure _
  found_file-Keeps embedded norm none = elim (Option-cases (embedded norm)) [
    | inl e ↦ rw (found_file, e) (Keeps-fail _)
    | inr (content, e) ↦ rw (found_file, e) (Keeps-pure _)
  ]

  pinned_at-Keeps :
      (hash : Bytes → Bytes) (e : Extension) (o : Option Bytes) → Keeps P (pinned_at hash e o)
  pinned_at-Keeps hash e none = Keeps-pure _
  pinned_at-Keeps hash e (some path) =
      Keeps-bind _ _ (get_web_file-Keeps path) λ found. Keeps-pure _

  pin-Keeps : (hash : Bytes → Bytes) (e : Extension) → Keeps P (pin hash e)
  unfolding pin
  pin-Keeps hash e = pinned_at-Keeps hash e (normalize_web_path e.entry)

  -- A handler on a host that it resolves.
  on_host-Keeps :
      {A : Type 0} (given : Bytes) (f : Host → M A)
      → ((h : Host) → Keeps P (f h))
      → Keeps P (resolve given >>= f)
  on_host-Keeps given f k = Keeps-bind _ _ (resolve-Keeps given) k

  acts-Keeps : {A B : Type 0} (m : M A) (b : B) → Keeps P m → Keeps P (m >>= (λ _. pure b))
  acts-Keeps m b k = Keeps-bind _ _ k λ a. Keeps-pure _

-- What the tools ask of the store: each method that changes rows keeps the property.
pub record Operations (P : Tables → Type 0) : Type 0 where
  pub opens :
      (now id : Bytes) (host_id : Option ℤ) (tmux_name label : Bytes)
      → Keeps P (create_session now id host_id tmux_name label)
  pub ends : (now id : Bytes) → Keeps P (close_session now id)
  pub adds : (now name notes : Bytes) → Keeps P (add_host now name notes)
  pub updates : (id : ℤ) (name notes : Bytes) → Keeps P (update_host id name notes)
  pub tags : (id : ℤ) (key value : Bytes) → Keeps P (tag_host id key value)
  pub untags : (id : ℤ) (key : Bytes) → Keeps P (delete_tag id key)
  pub records : (now : Bytes) (id : ℤ) (key value : Bytes) → Keeps P (record_fact now id key value)
  pub forgets : (id : ℤ) (key : Bytes) → Keeps P (delete_fact id key)
  pub learns : (now text : Bytes) → Keeps P (add_knowledge now text)
  pub unlearns : (id : ℤ) → Keeps P (delete_knowledge id)
  pub puts :
      (now p norm content content_type created_by : Bytes)
      → normalize_web_path p ≡ some norm
      → Keeps P (put_web_file now norm content content_type created_by)
  pub drops : (path : Bytes) → Keeps P (delete_web_file path)
  pub extends : (now : Bytes) (e : Extension) → Keeps P (upsert_extension now e)
  pub retracts : (slug : Bytes) → Keeps P (delete_extension slug)

module _ {P : Tables → Type 0} (o : Operations P) where
  pub list_hosts_tool-Keeps : (args : Args) → Keeps P (list_hosts_tool args)
  unfolding list_hosts_tool
  list_hosts_tool-Keeps args = Keeps-bind _ _ list_hosts-Keeps λ hs. Keeps-pure _

  pub list_sessions_tool-Keeps : (args : Args) → Keeps P (list_sessions_tool args)
  unfolding list_sessions_tool list_sessions
  list_sessions_tool-Keeps args = Keeps-bind _ _ (Keeps-query _) λ ss. Keeps-pure _

  pub get_host_tool-Keeps : (args : Args) → Keeps P (get_host_tool args)
  unfolding get_host_tool
  get_host_tool-Keeps args = on_host-Keeps args.host _ λ h. Keeps-pure _

  pub add_host_tool-Keeps : (now : Bytes) (args : Args) → Keeps P (add_host_tool now args)
  unfolding add_host_tool
  add_host_tool-Keeps now args =
      Keeps-bind _ _ (o.adds now (trim_space args.name) args.notes) λ id. Keeps-pure _

  pub rename_host_tool-Keeps : (args : Args) → Keeps P (rename_host_tool args)
  unfolding rename_host_tool
  rename_host_tool-Keeps args = on_host-Keeps args.host _ λ h.
      Keeps-if (trim_space args.name == []) _ _ (λ _. Keeps-fail _)
        λ _. acts-Keeps _ _ (o.updates h.id (trim_space args.name) h.notes)

  pub tag_host_tool-Keeps : (args : Args) → Keeps P (tag_host_tool args)
  unfolding tag_host_tool
  tag_host_tool-Keeps args =
      on_host-Keeps args.host _ λ h. acts-Keeps _ _ (o.tags h.id args.key args.value)

  pub record_fact_tool-Keeps : (now : Bytes) (args : Args) → Keeps P (record_fact_tool now args)
  unfolding record_fact_tool
  record_fact_tool-Keeps now args =
      on_host-Keeps args.host _ λ h. acts-Keeps _ _ (o.records now h.id args.key args.value)

  pub forget_fact_tool-Keeps : (args : Args) → Keeps P (forget_fact_tool args)
  unfolding forget_fact_tool
  forget_fact_tool-Keeps args =
      on_host-Keeps args.host _ λ h. acts-Keeps _ _ (o.forgets h.id args.key)

  pub forget_tag_tool-Keeps : (args : Args) → Keeps P (forget_tag_tool args)
  unfolding forget_tag_tool
  forget_tag_tool-Keeps args =
      on_host-Keeps args.host _ λ h. acts-Keeps _ _ (o.untags h.id args.key)

  pub remember_tool-Keeps : (now : Bytes) (args : Args) → Keeps P (remember_tool now args)
  unfolding remember_tool
  remember_tool-Keeps now args =
      Keeps-if (trim_space args.text == []) _ _ (λ _. Keeps-fail _)
        λ _. Keeps-bind _ _ (o.learns now (trim_space args.text)) λ id. Keeps-pure _

  pub list_knowledge_tool-Keeps : (args : Args) → Keeps P (list_knowledge_tool args)
  unfolding list_knowledge_tool list_knowledge
  list_knowledge_tool-Keeps args = Keeps-bind _ _ (Keeps-query _) λ ks. Keeps-pure _

  pub forget_knowledge_tool-Keeps : (args : Args) → Keeps P (forget_knowledge_tool args)
  unfolding forget_knowledge_tool
  forget_knowledge_tool-Keeps args = acts-Keeps _ _ (o.unlearns args.id)

  pub list_web_files_tool-Keeps :
      (base : List Bytes) (args : Args) → Keeps P (list_web_files_tool base args)
  unfolding list_web_files_tool list_web_files
  list_web_files_tool-Keeps base args = Keeps-bind _ _ (Keeps-query _) λ fs. Keeps-pure _

  pub read_web_file_tool-Keeps :
      (embedded : Bytes → Option Bytes) (args : Args) → Keeps P (read_web_file_tool embedded args)
  unfolding read_web_file_tool
  read_web_file_tool-Keeps embedded args = with_path-Keeps _ args.path _ λ norm e.
      Keeps-bind _ _ (get_web_file-Keeps norm) λ found. found_file-Keeps embedded norm found

  pub write_web_file_tool-Keeps :
      (now : Bytes) (args : Args) → Keeps P (write_web_file_tool now args)
  unfolding write_web_file_tool
  write_web_file_tool-Keeps now args =
      with_path-Keeps _ args.path _ λ norm e. acts-Keeps _ _ (o.puts now args.path norm _ _ _ e)

  pub delete_web_file_tool-Keeps : (args : Args) → Keeps P (delete_web_file_tool args)
  unfolding delete_web_file_tool
  delete_web_file_tool-Keeps args =
      with_path-Keeps _ args.path _ λ norm e. acts-Keeps _ _ (o.drops norm)

  pub register_extension_tool-Keeps :
      (now : Bytes) (hash : Bytes → Bytes) (args : Args)
      → Keeps P (register_extension_tool now hash args)
  unfolding register_extension_tool
  register_extension_tool-Keeps now hash args =
      let e = trimmed args.extension in
      Keeps-if (e.slug == [] || e.mount == [] || e.entry == []) _ _ (λ _. Keeps-fail _)
        λ _.
          Keeps-if (not (is_kind e.kind)) _ _ (λ _. Keeps-fail _)
            λ _. Keeps-bind _ _ (pin-Keeps hash _) λ pinned. acts-Keeps _ _ (o.extends now pinned)

  pub unregister_extension_tool-Keeps : (args : Args) → Keeps P (unregister_extension_tool args)
  unfolding unregister_extension_tool
  unregister_extension_tool-Keeps args = acts-Keeps _ _ (o.retracts (trim_space args.slug))

  pub list_extensions_tool-Keeps : (args : Args) → Keeps P (list_extensions_tool args)
  unfolding list_extensions_tool list_extensions
  list_extensions_tool-Keeps args = Keeps-bind _ _ (Keeps-query _) λ es. Keeps-pure _
