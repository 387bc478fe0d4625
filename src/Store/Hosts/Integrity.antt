-- ===== src/Store/Hosts/Integrity.antt =====
-- Keys and references of the inventory, through every operation and whatever the driver fails.
use hopskip.Base.{
  ℕ, ◌≡◌, refl, Bool, true, false, not, ◌&&◌, Option, none, some, List, [], ◌∷◌, arith,
  if◌then◌else◌, ◌==◌, nat_eq, bytes_eq, pair_eq, ℤ, int_eq, any,
}
use hopskip.Text.{Bytes}
use hopskip.Base.{All-append}
use hopskip.Store.Rows.{at_key, has, Keyed}
use hopskip.Store.Rows.Laws.{Keyed-append, Keyed-update, Keyed-delete, Keyed-upsert, next_id-fresh}
use hopskip.Store.Tables.{Tables, TagRow, FactRow}
use hopskip.Store.Db.{Result, Db}
use hopskip.Store.Db.Keeps.{Keeps, Leaves, Keeps-exec, Keeps-bind, Keeps-if, Keeps-pure, Keeps-fail}
use hopskip.Store.Sessions.{session_id, create_session, close_session, close_row, dangling}
use hopskip.Store.Hosts.{
  host_id, host_name, tag_key, fact_key, refers_to, name_taken, affected, add_host, delete_host,
  tag_host, delete_tag, update_host, record_fact, delete_fact,
}
use hopskip.Store.Hosts.Owned.{
  Owned, Owned-append, Owned-update, Owned-cascade, Owned-delete, SessionsOwned,
  SessionsOwned-append, SessionsOwned-update, SessionsOwned-delete, SessionsOwned-update_rows,
  IsThere, Owned-upsert,
}
use hopskip.Store.Hosts.Names.{Keyed-rename}

abbrev pub tag_host_id : TagRow → ℤ
tag_host_id r = r.host_id

abbrev pub fact_host_id : FactRow → ℤ
fact_host_id r = r.host_id

pub record IsInOrder (t : Tables) : Type 0 where
  pub ids : Keyed host_id t.hosts
  pub names : Keyed host_name t.hosts
  pub tags : Keyed tag_key t.host_tags
  pub facts : Keyed fact_key t.host_facts
  pub sessions : Keyed session_id t.sessions
  pub tag_hosts : Owned tag_host_id t.hosts t.host_tags
  pub fact_hosts : Owned fact_host_id t.hosts t.host_facts
  pub session_hosts : SessionsOwned t.hosts t.sessions

pub Leaves-if :
    {A : Type 0} (P : Tables → Type 0) (b : Bool) (r s : Result (A × Tables))
    → (b ≡ true → Leaves P r)
    → (b ≡ false → Leaves P s)
    → Leaves P (if b then r else s)
Leaves-if P true r s f g = f refl
Leaves-if P false r s f g = g refl

pub add_host-IsInOrder : (now name notes : Bytes) → Keeps IsInOrder (add_host now name notes)
unfolding add_host
add_host-IsInOrder now name notes = Keeps-exec _ λ t v.
    Leaves-if IsInOrder (has host_name name t.hosts) _ _ (λ _. tt)
      λ free. record {
        ids = Keyed-append host_id t.hosts _ v.ids (next_id-fresh host_id t.hosts);
        names = Keyed-append host_name t.hosts _ v.names free;
        tags = v.tags;
        facts = v.facts;
        sessions = v.sessions;
        tag_hosts = Owned-append tag_host_id t.hosts _ t.host_tags v.tag_hosts;
        fact_hosts = Owned-append fact_host_id t.hosts _ t.host_facts v.fact_hosts;
        session_hosts = SessionsOwned-append t.hosts _ t.sessions v.session_hosts;
      }

affected-IsInOrder : (n : ℕ) → Keeps IsInOrder (affected n)
unfolding affected
affected-IsInOrder n = Keeps-if (n == 0) _ _ (λ _. Keeps-fail _) (λ _. Keeps-pure _)

pub delete_host-IsInOrder : (id : ℤ) → Keeps IsInOrder (delete_host id)
unfolding delete_host
delete_host-IsInOrder id =
    Keeps-bind _ _
      (Keeps-exec _ λ t v.
        Leaves-if IsInOrder (not (has host_id id t.hosts)) _ _ (λ _. v)
          λ _.
            Leaves-if IsInOrder (any (refers_to id) t.sessions) _ _ (λ _. tt)
              λ free. record {
                ids = Keyed-delete host_id _ t.hosts v.ids;
                names = Keyed-delete host_name _ t.hosts v.names;
                tags = Keyed-delete tag_key _ t.host_tags v.tags;
                facts = Keyed-delete fact_key _ t.host_facts v.facts;
                sessions = v.sessions;
                tag_hosts = Owned-cascade tag_host_id id t.hosts t.host_tags v.tag_hosts;
                fact_hosts = Owned-cascade fact_host_id id t.hosts t.host_facts v.fact_hosts;
                session_hosts = SessionsOwned-delete id t.hosts t.sessions free v.session_hosts;
              })
      affected-IsInOrder

-- A row of the host may be added where one was there or the host is.
insertable : (a b : Bool) → (not a && not b) ≡ false → b ≡ false → a ≡ true
insertable a b h k = ground arith

pub tag_host-IsInOrder : (id : ℤ) (key value : Bytes) → Keeps IsInOrder (tag_host id key value)
unfolding tag_host
tag_host-IsInOrder id key value = Keeps-exec _ λ t v.
    Leaves-if IsInOrder (not (has host_id id t.hosts) && not (has tag_key (id, key) t.host_tags)) _
      _ (λ _. tt)
      λ room. record {
        ids = v.ids;
        names = v.names;
        tags = Keyed-upsert tag_key _ (λ r. refl) (id, key) _ t.host_tags refl v.tags;
        facts = v.facts;
        sessions = v.sessions;
        tag_hosts =
            Owned-upsert tag_host_id tag_key _ (λ r. refl) (id, key) _ t.hosts t.host_tags
              (insertable _ _ room) v.tag_hosts;
        fact_hosts = v.fact_hosts;
        session_hosts = v.session_hosts;
      }

pub record_fact-IsInOrder :
    (now : Bytes) (id : ℤ) (key value : Bytes) → Keeps IsInOrder (record_fact now id key value)
unfolding record_fact
record_fact-IsInOrder now id key value = Keeps-exec _ λ t v.
    Leaves-if IsInOrder (not (has host_id id t.hosts) && not (has fact_key (id, key) t.host_facts))
      _ _ (λ _. tt)
      λ room. record {
        ids = v.ids;
        names = v.names;
        tags = v.tags;
        facts = Keyed-upsert fact_key _ (λ r. refl) (id, key) _ t.host_facts refl v.facts;
        sessions = v.sessions;
        tag_hosts = v.tag_hosts;
        fact_hosts =
            Owned-upsert fact_host_id fact_key _ (λ r. refl) (id, key) _ t.hosts t.host_facts
              (insertable _ _ room) v.fact_hosts;
        session_hosts = v.session_hosts;
      }

pub delete_tag-IsInOrder : (id : ℤ) (key : Bytes) → Keeps IsInOrder (delete_tag id key)
unfolding delete_tag
delete_tag-IsInOrder id key = Keeps-exec _ λ t v. record {
  ids = v.ids;
  names = v.names;
  facts = v.facts;
  sessions = v.sessions;
  tags = Keyed-delete tag_key _ t.host_tags v.tags;
  tag_hosts = Owned-delete tag_host_id _ t.hosts t.host_tags v.tag_hosts;
  fact_hosts = v.fact_hosts;
  session_hosts = v.session_hosts;
}

pub delete_fact-IsInOrder : (id : ℤ) (key : Bytes) → Keeps IsInOrder (delete_fact id key)
unfolding delete_fact
delete_fact-IsInOrder id key = Keeps-exec _ λ t v. record {
  ids = v.ids;
  names = v.names;
  tags = v.tags;
  sessions = v.sessions;
  facts = Keyed-delete fact_key _ t.host_facts v.facts;
  fact_hosts = Owned-delete fact_host_id _ t.hosts t.host_facts v.fact_hosts;
  tag_hosts = v.tag_hosts;
  session_hosts = v.session_hosts;
}

pub update_host-IsInOrder :
    (id : ℤ) (name notes : Bytes) → Keeps IsInOrder (update_host id name notes)
unfolding update_host
update_host-IsInOrder id name notes =
    Keeps-bind _ _
      (Keeps-exec _ λ t v.
        Leaves-if IsInOrder (not (has host_id id t.hosts)) _ _ (λ _. v)
          λ _.
            Leaves-if IsInOrder (name_taken id name t) _ _ (λ _. tt)
              λ free. record {
                ids = Keyed-update host_id _ (λ h. refl) (at_key host_id id) t.hosts v.ids;
                names = Keyed-rename name notes id t.hosts v.ids v.names free;
                tags = v.tags;
                facts = v.facts;
                sessions = v.sessions;
                tag_hosts =
                    Owned-update tag_host_id _ (λ h. refl) (at_key host_id id) t.hosts t.host_tags
                      v.tag_hosts;
                fact_hosts =
                    Owned-update fact_host_id _ (λ h. refl) (at_key host_id id) t.hosts t.host_facts
                      v.fact_hosts;
                session_hosts =
                    SessionsOwned-update _ (λ h. refl) (at_key host_id id) t.hosts t.sessions
                      v.session_hosts;
              })
      affected-IsInOrder

IsThere-dangling : (o : Option ℤ) (t : Tables) → dangling o t ≡ false → IsThere t.hosts o
unfolding dangling
IsThere-dangling none t h = tt
IsThere-dangling (some i) t h = ground arith

pub create_session-IsInOrder :
    (now id : Bytes) (host : Option ℤ) (tmux_name label : Bytes)
    → Keeps IsInOrder (create_session now id host tmux_name label)
unfolding create_session
create_session-IsInOrder now id host tmux_name label = Keeps-exec _ λ t v.
    Leaves-if IsInOrder (has session_id id t.sessions) _ _ (λ _. tt)
      λ fresh.
        Leaves-if IsInOrder (dangling host t) _ _ (λ _. tt)
          λ there. record {
            ids = v.ids;
            names = v.names;
            tags = v.tags;
            facts = v.facts;
            sessions = Keyed-append session_id t.sessions _ v.sessions fresh;
            tag_hosts = v.tag_hosts;
            fact_hosts = v.fact_hosts;
            session_hosts =
                All-append _ t.sessions _ v.session_hosts (IsThere-dangling host t there, tt);
          }

pub close_session-IsInOrder : (now id : Bytes) → Keeps IsInOrder (close_session now id)
unfolding close_session
close_session-IsInOrder now id = Keeps-exec _ λ t v. record {
  ids = v.ids;
  names = v.names;
  tags = v.tags;
  facts = v.facts;
  sessions = Keyed-update session_id (close_row now) (λ s. refl) _ t.sessions v.sessions;
  tag_hosts = v.tag_hosts;
  fact_hosts = v.fact_hosts;
  session_hosts =
      SessionsOwned-update_rows (close_row now) (λ s. refl) _ t.hosts t.sessions v.session_hosts;
}

-- The calls that change the inventory and the sessions.
pub data Call : Type 0 where
  adds : Bytes → Bytes → Bytes → Call
  deletes : ℤ → Call
  tags : ℤ → Bytes → Bytes → Call
  untags : ℤ → Bytes → Call
  updates : ℤ → Bytes → Bytes → Call
  records : Bytes → ℤ → Bytes → Bytes → Call
  forgets : ℤ → Bytes → Call
  opens : Bytes → Bytes → Option ℤ → Bytes → Bytes → Call
  closes : Bytes → Bytes → Call

unfoldable pub call : Call → Db → Db
call (adds now name notes) db = (add_host now name notes db).1
call (deletes id) db = (delete_host id db).1
call (tags id key value) db = (tag_host id key value db).1
call (untags id key) db = (delete_tag id key db).1
call (updates id name notes) db = (update_host id name notes db).1
call (records now id key value) db = (record_fact now id key value db).1
call (forgets id key) db = (delete_fact id key db).1
call (opens now id host tmux_name label) db = (create_session now id host tmux_name label db).1
call (closes now id) db = (close_session now id db).1

unfoldable pub calls : List Call → Db → Db
calls [] db = db
calls (c ∷ cs) db = calls cs (call c db)

call-IsInOrder : (c : Call) (db : Db) → IsInOrder db.tables → IsInOrder (call c db).tables
unfolding call
call-IsInOrder (adds now name notes) = (add_host-IsInOrder now name notes).at
call-IsInOrder (deletes id) = (delete_host-IsInOrder id).at
call-IsInOrder (tags id key value) = (tag_host-IsInOrder id key value).at
call-IsInOrder (untags id key) = (delete_tag-IsInOrder id key).at
call-IsInOrder (updates id name notes) = (update_host-IsInOrder id name notes).at
call-IsInOrder (records now id key value) = (record_fact-IsInOrder now id key value).at
call-IsInOrder (forgets id key) = (delete_fact-IsInOrder id key).at
call-IsInOrder (opens now id host tmux_name label) =
    (create_session-IsInOrder now id host tmux_name label).at
call-IsInOrder (closes now id) = (close_session-IsInOrder now id).at

-- Where host ids, host names, the tags and facts of each host and session ids are distinct, and
-- tags, facts and sessions refer to hosts of the table, the same holds after any calls, whichever
-- of their statements the driver fails.
pub calls-IsInOrder :
    (cs : List Call) (db : Db) → IsInOrder db.tables → IsInOrder (calls cs db).tables
unfolding calls
calls-IsInOrder [] db v = v
calls-IsInOrder (c ∷ cs) db v = calls-IsInOrder cs (call c db) (call-IsInOrder c db v)
