-- ===== src/Agent/Tools/Calls.antt =====
-- What holds through any sequence of tool calls, whatever the model asks for.
use hopskip.Base.{
  ◌≡◌, refl, inl, inr, Bool, Option, none, some, List, [], ◌∷◌, Bool-cases, ◌==◌, nat_eq, bytes_eq,
  pair_eq, int_eq, All,
}
use hopskip.Text.{Bytes}
use hopskip.Store.Rows.{update_where, delete_where, at_key, has, upsert}
use hopskip.Store.Db.{Result, ok, err, Db}
use hopskip.Base.{lookup}
use hopskip.Store.Tables.{Tables, WebFileRow}
use hopskip.Store.Db.Keeps.{Keeps, Keeps-exec}
use hopskip.Store.Settings.{add_knowledge, delete_knowledge}
use hopskip.Store.Web.{put_web_file, delete_web_file, upsert_extension, delete_extension}
use hopskip.Base.{any, ℤ}
use hopskip.Store.Sessions.{create_session, close_session}
use hopskip.Agent.Tools.{
  no_args, lenient_tools, outside_tools, Args, Answer, Handler, handlers, replied, handled,
  dispatch,
}
use hopskip.Agent.Tools.Keeping
use hopskip.Base.{All-append, All-keep}
use hopskip.Store.Web.{web_path}
use hopskip.Store.Web.Paths.{IsKey, normalize_web_path-IsKey}
use hopskip.Store.Hosts.Frame.{
  create_session-Keeps, close_session-Keeps, OnFiles, add_host-Keeps, update_host-Keeps,
  tag_host-Keeps, delete_tag-Keeps, record_fact-Keeps, delete_fact-Keeps,
}

-- A property of what a lookup finds.
abbrev Within {ℓ} : {V : Type ℓ} → (V → Type 0) → Option V → Type 0
Within Q none = Unit
Within Q (some v) = Q v

Within-lookup {ℓ} :
    {V : Type ℓ} (Q : V → Type 0) (k : Bytes) (m : List (Bytes × V))
    → All (λ p. Q p.1) m
    → Within Q (lookup k m)
unfolding lookup
Within-lookup Q k [] _ = tt
Within-lookup Q k ((j, v) ∷ m) (h, hs) = elim (Bool-cases (j == k)) [
  | inl e ↦ rw e h
  | inr e ↦ rw e (Within-lookup Q k m hs)
]

-- A call of a tool, at its time, or a row that the terminals write: for a session that is opened, by
-- a tool or by a browser, and for one that ends.
pub data Request : Type 0 where
  asks : (now name : Bytes) (input : Option Args) → Request
  opens : (now id : Bytes) → Option ℤ → (tmux_name label : Bytes) → Request
  ends : (now id : Bytes) → Request

-- What a call leaves: a tool that is not of the store writes no row but those of its sessions.
abbrev pub left_by : Db → Option ((Answer × Bool) × Db) → Db
left_by old none = old
left_by old (some (_, db)) = db

module _ (hash : Bytes → Bytes) (base : List Bytes) (embedded : Bytes → Option Bytes) where
  pub serve : Request → Db → Db
  serve (asks now name input) db = left_by db (dispatch now hash base embedded name input db)
  serve (opens now id host_id tmux_name label) db =
      (create_session now id host_id tmux_name label db).1
  serve (ends now id) db = (close_session now id db).1

  pub dispatch_all : List Request → Db → Db
  dispatch_all [] db = db
  dispatch_all (q ∷ qs) db = dispatch_all qs (serve q db)

  module _ {P : Tables → Type 0} (o : Keeping.Operations P) where
    handlers-Keeps :
        (now : Bytes)
        → All (λ p. (args : Args) → Keeps P (p.1 args)) (handlers now hash base embedded)
    handlers-Keeps now = (
      Keeping.list_sessions_tool-Keeps o,
      (
        Keeping.list_hosts_tool-Keeps o,
        (
          Keeping.get_host_tool-Keeps o,
          (
            Keeping.add_host_tool-Keeps o now,
            (
              Keeping.rename_host_tool-Keeps o,
              (
                Keeping.tag_host_tool-Keeps o,
                (
                  Keeping.record_fact_tool-Keeps o now,
                  (
                    Keeping.forget_fact_tool-Keeps o,
                    (
                      Keeping.forget_tag_tool-Keeps o,
                      (
                        Keeping.remember_tool-Keeps o now,
                        (
                          Keeping.list_knowledge_tool-Keeps o,
                          (
                            Keeping.forget_knowledge_tool-Keeps o,
                            (
                              Keeping.list_web_files_tool-Keeps o base,
                              (
                                Keeping.read_web_file_tool-Keeps o embedded,
                                (
                                  Keeping.write_web_file_tool-Keeps o now,
                                  (
                                    Keeping.delete_web_file_tool-Keeps o,
                                    (
                                      Keeping.register_extension_tool-Keeps o now hash,
                                      (
                                        Keeping.unregister_extension_tool-Keeps o,
                                        (Keeping.list_extensions_tool-Keeps o, tt),
                                      ),
                                    ),
                                  ),
                                ),
                              ),
                            ),
                          ),
                        ),
                      ),
                    ),
                  ),
                ),
              ),
            ),
          ),
        ),
      ),
    )

    replied-Keeps : (r : Result Answer × Db) → P r.1.tables → P (replied r).1.tables
    replied-Keeps (ok a, db) v = v
    replied-Keeps (err e, db) v = v

    handled-Keeps :
        (name : Bytes) (h : Option Handler) (input : Option Args) (db : Db)
        → Within (λ handler. (args : Args) → Keeps P (handler args)) h
        → P db.tables
        → P (left_by db (handled name h input db)).tables
    handled-Keeps name none input db k v = elim (Bool-cases (any (λ n. n == name) outside_tools)) [
      | inl e ↦ rw (handled, e) v
      | inr e ↦ rw (handled, e) v
    ]
    handled-Keeps name (some h) none db k v =
        elim (Bool-cases (any (λ n. n == name) lenient_tools)) [
          | inl e ↦ rw (handled, e) (replied-Keeps (h no_args db) ((k no_args).at db v))
          | inr e ↦ rw (handled, e) v
        ]
    handled-Keeps name (some h) (some args) db k v = replied-Keeps (h args db) ((k args).at db v)

    serve-Keeps : (q : Request) (db : Db) → P db.tables → P (serve q db).tables
    unfolding serve dispatch
    serve-Keeps (asks now name input) db v =
        handled-Keeps name (lookup name (handlers now hash base embedded)) input db
          (Within-lookup (λ handler. (args : Args) → Keeps P (handler args)) name _
            (handlers-Keeps now))
          v
    serve-Keeps (opens now id host_id tmux_name label) db v =
        (o.opens now id host_id tmux_name label).at db v
    serve-Keeps (ends now id) db v = (o.ends now id).at db v

    dispatch_all-Keeps : (qs : List Request) (db : Db) → P db.tables → P (dispatch_all qs db).tables
    unfolding dispatch_all
    dispatch_all-Keeps [] db v = v
    dispatch_all-Keeps (q ∷ qs) db v = dispatch_all-Keeps qs (serve q db) (serve-Keeps q db v)

abbrev HasKey : WebFileRow → Type 0
HasKey f = IsKey f.path

-- Every authored file stands at a normalised path.
abbrev pub HasKeys : List WebFileRow → Type 0
HasKeys = All HasKey

HasKeys-update :
    (p : WebFileRow → Bool) (f : WebFileRow → WebFileRow)
    → ((r : WebFileRow) → (f r).path ≡ r.path)
    → (fs : List WebFileRow) → HasKeys fs
    → HasKeys (update_where p f fs)
unfolding update_where
HasKeys-update p f same [] _ = tt
HasKeys-update p f same (r ∷ fs) (h, hs) = elim (Bool-cases (p r)) [
  | inl e ↦ rw (e, same r) (h, HasKeys-update p f same fs hs)
  | inr e ↦ rw e (h, HasKeys-update p f same fs hs)
]

HasKeys-upsert :
    (key : Bytes) (f : WebFileRow → WebFileRow) (new : WebFileRow)
    → ((r : WebFileRow) → (f r).path ≡ r.path)
    → IsKey new.path
    → (fs : List WebFileRow) → HasKeys fs
    → HasKeys (upsert web_path key f new fs)
unfolding upsert
HasKeys-upsert key f new same h fs hs = elim (Bool-cases (has web_path key fs)) [
  | inl e ↦ rw e (HasKeys-update (at_key web_path key) f same fs hs)
  | inr e ↦ rw e (All-append HasKey fs (new ∷ []) hs (h, tt))
]

files_operations : Keeping.Operations (OnFiles HasKeys)
unfolding add_knowledge delete_knowledge put_web_file delete_web_file upsert_extension
    delete_extension delete_where
files_operations = record {
  opens = create_session-Keeps HasKeys;
  ends = close_session-Keeps HasKeys;
  adds = add_host-Keeps HasKeys;
  updates = update_host-Keeps HasKeys;
  tags = tag_host-Keeps HasKeys;
  untags = delete_tag-Keeps HasKeys;
  records = record_fact-Keeps HasKeys;
  forgets = delete_fact-Keeps HasKeys;
  learns = λ now text. Keeps-exec _ λ t v. v;
  unlearns = λ id. Keeps-exec _ λ t v. v;
  puts = λ now p norm content content_type created_by e.
      Keeps-exec _
        λ t v. HasKeys-upsert norm _ _ (λ r. refl) (normalize_web_path-IsKey p e) t.web_files v;
  drops = λ path. Keeps-exec _ λ t v. All-keep HasKey _ t.web_files v;
  extends = λ now e. Keeps-exec _ λ t v. v;
  retracts = λ slug. Keeps-exec _ λ t v. v;
}

-- Where each authored file stands at a path of segments that are neither empty nor "." nor "..",
-- the same holds after any calls of tools and any rows of sessions, whatever paths a model writes
-- and whichever statements the driver fails.
pub dispatch_all-HasKeys :
    (hash : Bytes → Bytes) (base : List Bytes) (embedded : Bytes → Option Bytes) (qs : List Request)
    (db : Db)
    → HasKeys db.tables.web_files
    → HasKeys (dispatch_all hash base embedded qs db).tables.web_files
dispatch_all-HasKeys hash base embedded qs db v =
    dispatch_all-Keeps hash base embedded files_operations qs db v
