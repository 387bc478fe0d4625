-- ===== src/Tests/Tables.antt =====
-- Credentials, chats and web paths at small tables.
use hopskip.Base.{
  ◌+◌, ◌≡◌, refl, ◌≢◌, inr, true, false, not, ◌&&◌, some, List, [], ◌∷◌, ◌++◌, if◌then◌else◌, ◌==◌,
  nat_eq, bytes_eq, bytes_beq, pair_eq, pos, int_eq, length, keep, any, all,
}
use hopskip.Text.{Bytes, codes}
use hopskip.Store.Rows.{next_id, has, row}
use hopskip.Store.Db.{ok, Db, calm}
use mathlib.Core.Option
use hopskip.Base.{bytes_beq}
use hopskip.Store.Credentials.{credential_id, add_llm_credential}
use hopskip.Store.Credentials.Active.{actives}
use hopskip.Store.Credentials.Faults.{add_llm_credential_uncounted}
use hopskip.Store.Tables.{Tables}
use hopskip.Store.Credentials.Active.{IsSound}
use hopskip.Store.Credentials.Changes.{Change, run, run-IsSound, Activates, set_active-atomic}
use hopskip.Store.Chats.{chat_id, add_chat_message, transcript}
use hopskip.Store.Chats.Titles.{after_message, add_chat_message-transcript}
use hopskip.Text.{replace}
use hopskip.Text.Parts.{split, join, separated}
use hopskip.Text.Trim.{trim_space, trim_left}
use hopskip.Store.Rows.Laws.{is_some}
use hopskip.Store.Web.{normalize_web_path, slash}
use hopskip.Store.Web.Paths.{
  IsKey, stripped, is_dot_dot, is_skipped, normalize_web_path-IsKey, is_some-normalize_web_path,
}
use hopskip.Tests.Hosts.{empty, day}

abbrev keys : Tables
keys = record empty {
  llm_credentials =
      record {
        id = pos 1;
        label = codes "a";
        provider = codes "openai";
        token = codes "t";
        model = [];
        active = true;
        created_at = day;
      }
      ∷ record {
        id = pos 2;
        label = codes "b";
        provider = codes "anthropic";
        token = codes "u";
        model = [];
        active = false;
        created_at = day;
      }
      ∷ [];
}

keys-IsSound : IsSound keys
unfolding any keep
keys-IsSound = record { distinct = (refl, (refl, tt)); one_active = inr refl }

abbrev rotation : List Change
rotation =
    Change.activate (pos 2)
    ∷ Change.remove (pos 2)
    ∷ Change.add day (codes "c") (codes "openai") (codes "v") []
    ∷ Change.remove (pos 1)
    ∷ []

run-IsSound_example : IsSound (run rotation keys)
run-IsSound_example = run-IsSound rotation keys keys-IsSound

abbrev locked : Db
locked = record { tables = keys; faults = false ∷ true ∷ [] }

set_active-atomic_example : Activates (pos 2) locked
set_active-atomic_example = set_active-atomic (pos 2) locked

abbrev pub talk : Tables
talk = record empty {
  chats = record { id = codes "c1"; title = []; created_at = day; updated_at = day } ∷ [];
  chat_messages =
      record {
        id = pos 1;
        chat_id = codes "c1";
        role = codes "ai";
        text = codes "hi";
        created_at = day;
      }
      ∷ [];
}

pub c1-has : has chat_id (codes "c1") talk.chats ≡ true
unfolding any bytes_beq
c1-has = refl

add_chat_message-transcript_example :
    (u : Tables) × (add_chat_message day
        (codes "c1")
        (codes "user")
        (codes "list the hosts")
        (calm talk)
      ≡ (ok tt, calm u))
    × (transcript (codes "c1") u
        ≡ transcript (codes "c1") talk
          ++ record { role = codes "user"; text = codes "list the hosts"; created_at = day } ∷ [])
    × ((j : Bytes) → j ≢ codes "c1" → transcript j u ≡ transcript j talk)
    × ((j : Bytes)
        → row chat_id j u.chats ≡ (
            if j == codes "c1"
            then Option.map
                (after_message day (codes "user") (codes "list the hosts"))
                (row chat_id j talk.chats)
            else row chat_id j talk.chats))
add_chat_message-transcript_example =
    add_chat_message-transcript day (codes "c1") (codes "user") (codes "list the hosts") talk c1-has

written : normalize_web_path (codes "/js//./app.js") ≡ some (codes "js/app.js")
unfolding normalize_web_path trim_space trim_left replace split join separated bytes_beq
written = refl

normalize_web_path-IsKey_example : IsKey (codes "js/app.js")
normalize_web_path-IsKey_example = normalize_web_path-IsKey (codes "/js//./app.js") written

trimmed : trim_space (codes "js/app.js") ≡ codes "js/app.js"
unfolding trim_space
trimmed = refl

app-IsKey : IsKey (codes "js/app.js")
app-IsKey = normalize_web_path-IsKey (codes "/js//./app.js") written

is_some-normalize_web_path_example : is_some (normalize_web_path (codes "a/../b")) ≡ (
    not (any is_dot_dot (split slash (stripped (codes "a/../b"))))
    && not (all is_skipped (split slash (stripped (codes "a/../b")))))
is_some-normalize_web_path_example = is_some-normalize_web_path (codes "a/../b")

-- White space behind the leading slash stays in the first answer, and goes in the second.
not_idempotent : ¬ ((p n : Bytes) → normalize_web_path p ≡ some n → normalize_web_path n ≡ some n)
unfolding normalize_web_path trim_space trim_left replace split join separated bytes_beq
not_idempotent all_same = cc (all_same (codes "/ a") (codes " a") refl)

add_llm_credential_uncounted_example :
    (u : Tables) × (add_llm_credential day
        (codes "c")
        (codes "openai")
        (codes "v")
        []
        (record { tables = keys; faults = true ∷ [] })
      ≡ (ok (next_id credential_id keys.llm_credentials), calm u))
    × (length (actives u.llm_credentials) ≡ length (actives keys.llm_credentials) + 1)
add_llm_credential_uncounted_example =
    add_llm_credential_uncounted day (codes "c") (codes "openai") (codes "v") [] keys
