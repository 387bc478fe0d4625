-- ===== src/Tests/Notes.antt =====
-- The notes of a small fleet.
use hopskip.Base.{
  ◌≡◌, ◌≢◌, refl, true, false, [], ◌∷◌, ◌++◌, nat_eq, bytes_eq, bytes_beq, bytes_leb, pair_eq,
  int_eq, pos, any, keep, lookup,
}
use hopskip.Text.{Bytes, codes}
use hopskip.Text.Parts.{join}
use hopskip.Text.Trim.{trim_space}
use hopskip.Text.Search.{has_prefix, contains}
use hopskip.Store.Db.{ok, calm, ◌>>=◌}
use hopskip.Store.Rows.{order_by}
use hopskip.Store.Tables.{Tables}
use hopskip.Store.Hosts.{Host, list_hosts, hydrate_all, hydrate, load_tags, load_facts}
use hopskip.Agent.Prompts.{
  note_line, note_of, host_mentioned_in, inventory_prompt, pre_connect_reminder, join_tags,
}
use hopskip.Agent.Prompts.Notes.{Holds, Reaches, Types, inventory_prompt-pre_connect_reminder}
use hopskip.Tests.Hosts.{empty, day}

abbrev lab : Tables
lab = record empty {
  hosts =
      record { id = pos 1; name = codes "devbox"; notes = codes "run kinit"; created_at = day }
      ∷ record { id = pos 2; name = codes "web"; notes = []; created_at = day }
      ∷ [];
}

abbrev devbox : Host
devbox = record {
  id = pos 1;
  name = codes "devbox";
  notes = codes "run kinit";
  created_at = day;
  tags = [];
  facts = [];
}

abbrev web : Host
web = record { id = pos 2; name = codes "web"; notes = []; created_at = day; tags = []; facts = [] }

lab_listed : list_hosts (calm lab) ≡ (ok ([] ++ (devbox ∷ web ∷ [])), calm lab)
unfolding list_hosts hydrate_all hydrate load_tags load_facts ◌>>=◌ order_by bytes_leb keep
lab_listed = refl

join_tags_test :
    join_tags ((codes "ssh", codes "me@x") ∷ (codes "env", codes "dev") ∷ [])
    ≡ codes "env=dev, ssh=me@x"
unfolding join_tags join order_by bytes_leb
join_tags_test = refl

-- A host is meant by the name of another that begins with its own.
mentioned_by_prefix : host_mentioned_in (codes "ssh root@devbox-staging") devbox ≡ true
unfolding host_mentioned_in any keep bytes_beq contains
mentioned_by_prefix = refl

mentioned_by_word : host_mentioned_in (codes "ssh devbox-staging") devbox ≡ false
unfolding host_mentioned_in any keep bytes_beq contains trim_space lookup
mentioned_by_word = refl

devbox_noted : note_of devbox ≢ []
unfolding trim_space
devbox_noted e = absurd cc

ssh_typed : contains (codes "ssh root@devbox; ls") (codes "ssh") ≡ true
unfolding contains has_prefix
ssh_typed = refl

inventory_prompt-pre_connect_reminder_example :
    ((prompt : Bytes) × (inventory_prompt (calm lab) ≡ (ok prompt, calm lab))
      × Holds (note_line (note_of devbox)) prompt)
    × ((text : Bytes) × (pre_connect_reminder (codes "ssh root@devbox; ls") (calm lab)
          ≡ (ok text, calm lab))
        × (text ≢ []))
inventory_prompt-pre_connect_reminder_example =
    inventory_prompt-pre_connect_reminder (calm lab) (calm lab) [] devbox (web ∷ [])
      (codes "root@devbox") (codes "ssh root@devbox; ls") lab_listed devbox_noted ssh_typed
      (refl, (refl, (refl, (refl, (refl, (refl, (refl, (refl, (refl, (refl, (refl, tt)))))))))))
      (λ e. absurd cc) (Reaches.with_user (codes "root") [])
      (Types.further (codes "ssh") 32 (codes "root@devbox; ls") refl
        (Types.first (codes "; ls") refl))
