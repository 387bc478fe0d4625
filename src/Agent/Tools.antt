-- ===== src/Agent/Tools.antt =====
-- internal/agent/tools.go: the tools that work on the store. A handler is a method of the store's
-- monad: its error is the answer that the model gets. The tools that drive terminals are in
-- Agent.Terminals, those that fetch URLs in Agent.Fetching.
pub mod Keeping
pub mod Calls
pub mod Files
pub mod Tagging
use hopskip.Base.{
  ℕ, zero, suc, ◌+◌, ◌-◌, ◌*◌, ◌≤◌, ◌<◌, ◌≡◌, refl, sym, ap, ◌∙◌, ◌≢◌, ◌↔◌, ◌⊎◌, inl, inr, Bool,
  true, false, not, ◌&&◌, ◌||◌, Option, none, some, List, [], ◌∷◌, ◌++◌, map, append-nil,
  append_assoc, arith, ltb, leb, if◌then◌else◌, Bool-cases, Option-cases, Eq, ◌==◌, eq_iff, eq_refl,
  nat_eq, bytes_eq, bytes_beq, bytes_beq_iff, pair_eq, bytes_leb, ℤ, pos, negsuc, int_eq, int_leb,
  int_beq_iff, length, take, drop, min, keep, find, any, all, All,
}
use hopskip.Text.{Bytes, codes}
use hopskip.Store.Rows.{
  update_where, delete_where, order_by, insert_by, next_id, at_key, has, row, upsert, Keyed,
}
use hopskip.Store.Db.{
  Result, ok, err, Db, M, calm, pure, fail, exec, query, catch, ◌>>=◌, ◌>>◌, transaction, result_or,
}
use hopskip.Base.{lookup}
use hopskip.Text.Trim.{trim_space}
use hopskip.Store.Tables.{Session, Knowledge, Extension, Error, message}
use hopskip.Store.Hosts.{
  Host, get_host, get_host_by_name, list_hosts, add_host, update_host, tag_host, delete_tag,
  record_fact, delete_fact,
}
use hopskip.Store.Sessions.{list_sessions}
use hopskip.Store.Settings.{add_knowledge, list_knowledge, delete_knowledge}
use hopskip.Store.Web.{
  WebFile, agent, normalize_web_path, get_web_file, put_web_file, delete_web_file, list_web_files,
  upsert_extension, delete_extension, list_extensions,
}

-- The fields that the inputs of the tools have, empty where the JSON leaves them out.
pub record Args : Type 0 where
  pub host : Bytes
  pub name : Bytes
  pub notes : Bytes
  pub tag : Bytes
  pub key : Bytes
  pub value : Bytes
  pub text : Bytes
  pub id : ℤ
  pub path : Bytes
  pub content : Bytes
  pub content_type : Bytes
  pub slug : Bytes
  pub extension : Extension

-- The JSON object of an answer, by its fields.
pub data Answer : Type 0 where
  done : Answer
  one_host : Host → Answer
  hosts : List Host → Answer
  sessions : List Session → Answer
  new_id : ℤ → Answer
  renamed : ℤ → Bytes → Answer
  knowledge : List Knowledge → Answer
  -- the authored files and the embedded paths
  web_files : List WebFile → List Bytes → Answer
  overlay_file : (path content content_type : Bytes) → Answer
  embedded_file : (path content : Bytes) → Answer
  written : Bytes → ℕ → Answer
  at_path : Bytes → Answer
  registered : Extension → Answer
  extensions : List Extension → Answer
  failed : Error → Answer
  unknown_tool : Bytes → Answer

-- `splitTag`: what stands before and behind the first "=".
unfoldable pub cut_at_equals : Bytes → Option (Bytes × Bytes)
cut_at_equals [] = none
cut_at_equals (c ∷ s) =
    let rest = cut_at_equals s in
    if c == b'=' then some ([], s) else elim rest [ none ↦ none | some (k, v) ↦ some (c ∷ k, v) ]

unfoldable pub split_tag : Bytes → Option (Bytes × Bytes)
unfolding cut_at_equals
split_tag tag = cut_at_equals (trim_space tag)

unfoldable pub is_digits : Bytes → Bool
is_digits s = not (s == []) && all (λ c. leb b'0' c && leb c b'9') s

-- `strconv.ParseInt` of digits, its error unread: the largest number where they are too many.
unfoldable pub parse_digits : ℕ → Bytes → ℕ
parse_digits n [] = min n (9223372036854775807)
parse_digits n (c ∷ s) = parse_digits (10 * n + (c - b'0')) s

unfoldable pub resolve : Bytes → M Host
unfolding is_digits parse_digits
resolve given =
    let ref = trim_space given in
    if is_digits ref then get_host (pos (parse_digits 0 ref)) else get_host_by_name ref

abbrev pub has_tag : Bytes × Bytes → Host → Bool
has_tag (k, v) h = elim (lookup k h.tags) [ none ↦ v == [] | some w ↦ w == v ]

unfoldable pub list_hosts_tool : Args → M Answer
unfolding split_tag
list_hosts_tool args = do
  all_hosts ← list_hosts
  pure (
      hosts
        (elim (split_tag args.tag) [ none ↦ all_hosts | some kv ↦ keep (has_tag kv) all_hosts ]))

unfoldable pub list_sessions_tool : Args → M Answer
list_sessions_tool args = do ss ← list_sessions; pure (sessions ss)

unfoldable pub get_host_tool : Args → M Answer
get_host_tool args = do h ← resolve args.host; pure (one_host h)

unfoldable pub add_host_tool : Bytes → Args → M Answer
add_host_tool now args = do id ← add_host now (trim_space args.name) args.notes; pure (new_id id)

unfoldable pub rename_host_tool : Args → M Answer
rename_host_tool args = do
  h ← resolve args.host
  let name = trim_space args.name
  if name == []
      then fail (message (codes "name is required"))
      else (do update_host h.id name h.notes; pure (renamed h.id name))

unfoldable pub tag_host_tool : Args → M Answer
tag_host_tool args = do h ← resolve args.host; tag_host h.id args.key args.value; pure done

unfoldable pub record_fact_tool : Bytes → Args → M Answer
record_fact_tool now args = do
  h ← resolve args.host
  record_fact now h.id args.key args.value
  pure done

unfoldable pub forget_fact_tool : Args → M Answer
forget_fact_tool args = do h ← resolve args.host; delete_fact h.id args.key; pure done

unfoldable pub forget_tag_tool : Args → M Answer
forget_tag_tool args = do h ← resolve args.host; delete_tag h.id args.key; pure done

unfoldable pub remember_tool : Bytes → Args → M Answer
remember_tool now args =
    let text = trim_space args.text in
    if text == []
    then fail (message (codes "text is required"))
    else (do id ← add_knowledge now text; pure (new_id id))

unfoldable pub list_knowledge_tool : Args → M Answer
list_knowledge_tool args = do ks ← list_knowledge; pure (knowledge ks)

unfoldable pub forget_knowledge_tool : Args → M Answer
forget_knowledge_tool args = do delete_knowledge args.id; pure done

-- `base` lists the files of the embedded shell, in order.
unfoldable pub list_web_files_tool : List Bytes → Args → M Answer
list_web_files_tool base args = do overlay ← list_web_files; pure (web_files overlay base)

abbrev pub with_path : Bytes → Bytes → (Bytes → M Answer) → M Answer
with_path refusal path f = elim (normalize_web_path path) [
  | none ↦ fail (message refusal)
  | some norm ↦ f norm
]

abbrev pub found_file : (Bytes → Option Bytes) → Bytes → Option (Bytes × Bytes) → M Answer
found_file embedded norm (some (content, content_type)) =
    pure (overlay_file norm content content_type)
found_file embedded norm none = elim (embedded norm) [
  | none ↦ fail (message (codes "no such web file: " ++ norm))
  | some content ↦ pure (embedded_file norm content)
]

-- `embedded` reads the embedded shell.
unfoldable pub read_web_file_tool : (Bytes → Option Bytes) → Args → M Answer
read_web_file_tool embedded args =
    with_path (codes "invalid path") args.path
      λ norm. do found ← get_web_file norm; found_file embedded norm found

unfoldable pub write_web_file_tool : Bytes → Args → M Answer
write_web_file_tool now args =
    with_path (codes "invalid path (no leading slash, no '..' allowed)") args.path λ norm. do
      put_web_file now norm args.content (trim_space args.content_type) agent
      pure (written norm (length args.content))

unfoldable pub delete_web_file_tool : Args → M Answer
delete_web_file_tool args =
    with_path (codes "invalid path") args.path λ norm. do delete_web_file norm; pure (at_path norm)

abbrev pub trimmed : Extension → Extension
trimmed e = record e {
  slug = trim_space e.slug;
  kind = trim_space e.kind;
  mount = trim_space e.mount;
  entry = trim_space e.entry;
}

abbrev pub is_kind : Bytes → Bool
is_kind kind = kind == codes "slot" || kind == codes "route" || kind == codes "override"

-- The hash of the entry module, where it is an authored file; `hash` is `HashContent`.
abbrev pub pinned_at : (Bytes → Bytes) → Extension → Option Bytes → M Extension
pinned_at hash e none = pure e
pinned_at hash e (some path) = do
  found ← get_web_file path
  pure (elim found [ none ↦ e | some (content, _) ↦ record e { content_hash = hash content } ])

unfoldable pub pin : (Bytes → Bytes) → Extension → M Extension
pin hash e = pinned_at hash e (normalize_web_path e.entry)

unfoldable pub register_extension_tool : Bytes → (Bytes → Bytes) → Args → M Answer
unfolding pin
register_extension_tool now hash args =
    let e = trimmed args.extension in
    if e.slug == [] || e.mount == [] || e.entry == []
    then fail (message (codes "slug, mount and entry are required"))
    else if not (is_kind e.kind)
    then fail (message (codes "kind must be slot, route or override"))
    else (do
      pinned ← pin hash (record e { enabled = true; created_by = agent })
      upsert_extension now pinned
      pure (registered pinned))

unfoldable pub unregister_extension_tool : Args → M Answer
unregister_extension_tool args = do delete_extension (trim_space args.slug); pure done

unfoldable pub list_extensions_tool : Args → M Answer
list_extensions_tool args = do exts ← list_extensions false; pure (extensions exts)

abbrev pub Handler : Type 0
Handler = Args → M Answer

-- The tools of the store by name.
abbrev pub handlers :
    (now : Bytes) (hash : Bytes → Bytes) (base : List Bytes) (embedded : Bytes → Option Bytes)
    → List (Bytes × Handler)
handlers now hash base embedded =
    (codes "list_sessions", list_sessions_tool)
    ∷ (codes "list_hosts", list_hosts_tool)
    ∷ (codes "get_host", get_host_tool)
    ∷ (codes "add_host", add_host_tool now)
    ∷ (codes "rename_host", rename_host_tool)
    ∷ (codes "tag_host", tag_host_tool)
    ∷ (codes "record_fact", record_fact_tool now)
    ∷ (codes "forget_fact", forget_fact_tool)
    ∷ (codes "forget_tag", forget_tag_tool)
    ∷ (codes "remember", remember_tool now)
    ∷ (codes "list_knowledge", list_knowledge_tool)
    ∷ (codes "forget_knowledge", forget_knowledge_tool)
    ∷ (codes "list_web_files", list_web_files_tool base)
    ∷ (codes "read_web_file", read_web_file_tool embedded)
    ∷ (codes "write_web_file", write_web_file_tool now)
    ∷ (codes "delete_web_file", delete_web_file_tool)
    ∷ (codes "register_extension", register_extension_tool now hash)
    ∷ (codes "unregister_extension", unregister_extension_tool)
    ∷ (codes "list_extensions", list_extensions_tool)
    ∷ []

-- The result and whether it is an error.
abbrev pub replied : Result Answer × Db → (Answer × Bool) × Db
replied (ok a, db) = ((a, false), db)
replied (err e, db) = ((failed e, true), db)

-- The tools that drive terminals and fetch URLs.
abbrev pub outside_tools : List Bytes
outside_tools =
    codes "open_session"
    ∷ codes "send_keys"
    ∷ codes "read_screen"
    ∷ codes "close_session"
    ∷ codes "fetch_url"
    ∷ codes "http_request"
    ∷ []

-- What an input that leaves every field out is read as.
abbrev pub no_extension : Extension
no_extension = record {
  id = pos 0;
  slug = [];
  kind = [];
  mount = [];
  entry = [];
  title = [];
  sdk_range = [];
  enabled = false;
  created_by = [];
  created_at = [];
  updated_at = [];
  content_hash = [];
  notes = [];
}

abbrev pub no_args : Args
no_args = record {
  host = [];
  name = [];
  notes = [];
  tag = [];
  key = [];
  value = [];
  text = [];
  id = pos 0;
  path = [];
  content = [];
  content_type = [];
  slug = [];
  extension = no_extension;
}

-- The tools that do not read their input, and `list_hosts`, which drops the error of
-- `json.Unmarshal`.
abbrev pub lenient_tools : List Bytes
lenient_tools =
    codes "list_sessions"
    ∷ codes "list_hosts"
    ∷ codes "list_knowledge"
    ∷ codes "list_web_files"
    ∷ codes "list_extensions"
    ∷ []

-- The input of a tool is none where it is no JSON of the tool's form; the result is none for a tool
-- that is not of the store.
abbrev pub handled : Bytes → Option Handler → Option Args → Db → Option ((Answer × Bool) × Db)
handled name none input db =
    if any (λ n. n == name) outside_tools then none else some ((unknown_tool name, true), db)
handled name (some handler) none db =
    if any (λ n. n == name) lenient_tools
    then some (replied (handler no_args db))
    else some ((failed (message (codes "malformed input")), true), db)
handled name (some handler) (some args) db = some (replied (handler args db))

unfoldable pub dispatch :
    (now : Bytes) (hash : Bytes → Bytes) (base : List Bytes) (embedded : Bytes → Option Bytes)
    → Bytes
    → Option Args
    → Db
    → Option ((Answer × Bool) × Db)
dispatch now hash base embedded name input db =
    handled name (lookup name (handlers now hash base embedded)) input db
