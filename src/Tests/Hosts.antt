-- ===== src/Tests/Hosts.antt =====
-- The host inventory at a small table.
use hopskip.Base.{
  ◌≡◌, refl, true, false, none, some, List, [], ◌∷◌, if◌then◌else◌, ◌==◌, nat_eq, bytes_eq,
  bytes_beq, pair_eq, ℤ, pos, int_eq, any,
}
use hopskip.Text.{Bytes, codes}
use hopskip.Store.Rows.{has, row}
use hopskip.Store.Db.{ok, err, Db, calm}
use hopskip.Store.Tables.{Tables, Status, not_found}
use hopskip.Base.{lookup}
use hopskip.Store.Hosts.{Host, host_id, refers_to, tag_host, get_host, delete_host}
use hopskip.Store.Hosts.Integrity.{IsInOrder, Call, calls, calls-IsInOrder}
use hopskip.Store.Db.{exec, strike, settle}
use hopskip.Store.Sessions.{create_session, dangling}
use hopskip.Store.Hosts.Pinned.{Fails, delete_host_blocked}
use hopskip.Store.Hosts.Reading.{tag_at, tag_host-get_host, delete_host-get_host}

abbrev pub empty : Tables
empty = record {
  hosts = [];
  host_tags = [];
  host_facts = [];
  sessions = [];
  audit_log = [];
  llm_credentials = [];
  chats = [];
  chat_messages = [];
  app_settings = [];
  knowledge = [];
  web_files = [];
  web_extensions = [];
}

abbrev pub day : Bytes
day = codes "2025-01-01T00:00:00Z"

abbrev pub fleet : Tables
fleet = record empty {
  hosts =
      record { id = pos 1; name = codes "db"; notes = []; created_at = day }
      ∷ record { id = pos 2; name = codes "web"; notes = codes "gpu"; created_at = day }
      ∷ [];
  host_tags = record { host_id = pos 1; key = codes "env"; value = codes "prod" } ∷ [];
  host_facts =
      record { host_id = pos 2; key = codes "os"; value = codes "linux"; observed_at = day } ∷ [];
  sessions =
      record {
        id = codes "s1";
        host_id = some (pos 1);
        tmux_name = codes "hop-s1";
        label = codes "db";
        status = Status.closed;
        opened_at = day;
        closed_at = some day;
      }
      ∷ [];
}

pub fleet-IsInOrder : IsInOrder fleet
unfolding any bytes_beq
fleet-IsInOrder = record {
  ids = (refl, (refl, tt));
  names = (refl, (refl, tt));
  tags = (refl, tt);
  facts = (refl, tt);
  sessions = (refl, tt);
  tag_hosts = (refl, tt);
  fact_hosts = (refl, tt);
  session_hosts = (refl, tt);
}

abbrev troubled : Db
troubled = record { tables = fleet; faults = false ∷ true ∷ false ∷ [] }

abbrev work : List Call
work =
    Call.adds day (codes "gpu") []
    ∷ Call.tags (pos 2) (codes "env") (codes "dev")
    ∷ Call.deletes (pos 1)
    ∷ Call.opens day (codes "s2") (some (pos 2)) (codes "hop-s2") []
    ∷ Call.deletes (pos 2)
    ∷ []

calls-IsInOrder_example : IsInOrder (calls work troubled).tables
calls-IsInOrder_example = calls-IsInOrder work troubled fleet-IsInOrder

web_there : has host_id (pos 2) fleet.hosts ≡ true
unfolding any
web_there = refl

web_free : any (refers_to (pos 2)) fleet.sessions ≡ false
unfolding any
web_free = refl

tag_host-get_host_example :
    (u : Tables) × (h : Host) × (tag_host (pos 2) (codes "env") (codes "dev") (calm fleet)
      ≡ (ok tt, calm u))
    × (get_host (pos 2) (calm u) ≡ (ok h, calm u))
    × ((k : Bytes)
        → lookup k h.tags
          ≡ (if k == codes "env" then some (codes "dev") else tag_at (pos 2) k fleet))
tag_host-get_host_example =
    tag_host-get_host (pos 2) (codes "env") (codes "dev") fleet fleet-IsInOrder web_there

delete_host-get_host_example :
    (u : Tables) × (delete_host (pos 2) (calm fleet) ≡ (ok tt, calm u))
    × (get_host (pos 2) (calm u) ≡ (err not_found, calm u))
    × ((j : ℤ) → row host_id j u.hosts ≡ (if j == pos 2 then none else row host_id j fleet.hosts))
    × ((j : ℤ) (k : Bytes) → tag_at j k u ≡ (if j == pos 2 then none else tag_at j k fleet))
delete_host-get_host_example = delete_host-get_host (pos 2) fleet web_there web_free

abbrev opened : Db
opened = (create_session day (codes "s2") (some (pos 2)) (codes "hop-s2") [] (calm fleet)).1

opened_lem :
    create_session day (codes "s2") (some (pos 2)) (codes "hop-s2") [] (calm fleet)
    ≡ (ok tt, opened)
unfolding create_session exec strike settle dangling any bytes_beq
opened_lem = refl

abbrev later : List Call
later =
    Call.closes day (codes "s2")
    ∷ Call.updates (pos 2) (codes "old") []
    ∷ Call.deletes (pos 1)
    ∷ Call.deletes (pos 2)
    ∷ []

delete_host_blocked_example :
    Fails (calls later opened).tables (delete_host (pos 2) (calls later opened))
    × (has host_id (pos 2) (calls later opened).tables.hosts ≡ true)
delete_host_blocked_example =
    delete_host_blocked day (codes "s2") (pos 2) (codes "hop-s2") [] (calm fleet) opened later
      opened_lem
