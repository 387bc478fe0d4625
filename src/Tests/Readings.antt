-- ===== src/Tests/Readings.antt =====
-- Settings, web files, extensions, sessions, a screen and a clipped text.
use hopskip.Base.{
  ◌≤◌, ◌≡◌, refl, ◌⊎◌, Bool, false, none, some, List, [], ◌∷◌, ◌++◌, map, if◌then◌else◌, ◌==◌,
  nat_eq, bytes_eq, bytes_beq, pair_eq, pos, int_eq, length, keep, any,
}
use hopskip.Text.{Bytes, codes}
use hopskip.Store.Rows.{row, Keyed}
use hopskip.Store.Db.{ok, calm}
use hopskip.Store.Tables.{Tables, Extension, Status}
use hopskip.Store.Web.{extension_slug, upsert_extension}
use hopskip.Store.Web.Reading.{inserted, upsert_extension_lem}
use hopskip.Store.Sessions.{session_id, close_row, mark_stale_sessions_closed}
use hopskip.Store.Sessions.Stale.{is_stale, mark_stale_sessions_closed_lem}
use hopskip.Text.Trim.{trim_right}
use hopskip.Text.Parts.{split, join}
use hopskip.Session.Screen.{newline, is_blank, normalize_screen}
use hopskip.Session.Screen.Tidy.{is_text, IsSpaced, StartsInText}
use hopskip.Session.Screen.Edges.{IsClosed, normalize_screen-tidy}
use hopskip.Base.{concat}
use hopskip.Text.{ellipsis}
use hopskip.Agent.Events.{clip}
use hopskip.Agent.Events.Clip.{IsRune, clip-IsRune}
use hopskip.Session.Manager.{close_all_in_db}
use hopskip.Session.Manager.Live
use hopskip.Session.Manager.Live.{IsLive, run-IsLive}
use hopskip.Tests.Hosts.{day, empty, fleet}
use hopskip.Agent.Tools.{no_extension}

abbrev set_up : Tables
set_up = record empty {
  app_settings = record { key = codes "max_steps"; value = codes "64" } ∷ [];
  web_files =
      record {
        path = codes "app.js";
        content = codes "old";
        content_type = [];
        created_by = codes "agent";
        updated_at = day;
      }
      ∷ [];
  web_extensions =
      record no_extension {
        id = pos 7;
        slug = codes "connect";
        created_by = codes "operator";
        created_at = day;
      }
      ∷ [];
}

abbrev again : Extension
again = record no_extension { slug = codes "connect"; kind = codes "route" }

upsert_extension_lem_example :
    (u : Tables) × (upsert_extension day again (calm set_up) ≡ (ok tt, calm u))
    × ((slug : Bytes)
        → row extension_slug slug u.web_extensions ≡ (
            if slug == again.slug
            then some (elim (row extension_slug again.slug set_up.web_extensions) [
              | none ↦ inserted day set_up again
              | some old ↦ record again {
                id = old.id;
                slug = old.slug;
                created_by = old.created_by;
                created_at = old.created_at;
                updated_at = day;
              }
            ])
            else row extension_slug slug set_up.web_extensions))
upsert_extension_lem_example = upsert_extension_lem day again set_up

abbrev none_alive : Bytes → Bool
none_alive name = false

abbrev running : Tables
running = record fleet {
  sessions =
      record {
        id = codes "s1";
        host_id = none;
        tmux_name = codes "pty:1";
        label = [];
        status = Status.opened;
        opened_at = day;
        closed_at = none;
      }
      ∷ record {
        id = codes "s2";
        host_id = none;
        tmux_name = codes "pty:2";
        label = [];
        status = Status.closed;
        opened_at = day;
        closed_at = some day;
      }
      ∷ [];
}

running-Keyed : Keyed session_id running.sessions
unfolding any bytes_beq
running-Keyed = (refl, (refl, tt))

mark_stale_sessions_closed_lem_example :
    mark_stale_sessions_closed day none_alive (calm running) ≡ (
      ok tt,
      calm (record running {
        sessions = map (λ s. if is_stale none_alive s then close_row day s else s) running.sessions;
      }),
    )
mark_stale_sessions_closed_lem_example =
    mark_stale_sessions_closed_lem day none_alive running running-Keyed

normalize_screen-tidy_example :
    (ls : List Bytes) × (normalize_screen (codes "\n\n$ ls \n\n\na\t\n\n") ≡ join (newline ∷ []) ls)
    × IsSpaced ls
    × StartsInText ls
    × IsClosed ls
    × (keep is_text ls
        ≡ keep is_text (map (trim_right is_blank) (split newline (codes "\n\n$ ls \n\n\na\t\n\n"))))
normalize_screen-tidy_example = normalize_screen-tidy (codes "\n\n$ ls \n\n\na\t\n\n")

-- The third shell ends before its row is written.
abbrev doings : List Live.Event
doings =
    Live.starts (codes "a1b2c3d4")
    ∷ Live.records day (codes "a1b2c3d4") (codes "pty:7") [] none
    ∷ Live.starts (codes "s9")
    ∷ Live.records day (codes "s9") (codes "pty:8") [] (some (pos 99))
    ∷ Live.closes day (codes "a1b2c3d4")
    ∷ Live.starts (codes "s3")
    ∷ Live.ends day (codes "s3")
    ∷ Live.records day (codes "s3") (codes "pty:9") [] none
    ∷ []

run-IsLive_example :
    IsLive
      (Live.orphans doings [] (close_all_in_db day (calm running)))
      (Live.run doings (close_all_in_db day (calm running)))
run-IsLive_example = run-IsLive day doings running running-Keyed

abbrev e_acute : Bytes
e_acute = 0xc3 ∷ 0xa9 ∷ []

e_acute-IsRune : IsRune e_acute
e_acute-IsRune = record {
  first = 0xc3;
  tail = 0xa9 ∷ [];
  split = refl;
  start = refl;
  continued = (refl, tt);
}

clip-IsRune_example :
    ((length (concat (e_acute ∷ e_acute ∷ [])) ≤ 3)
      × (clip (concat (e_acute ∷ e_acute ∷ [])) 3 ≡ concat (e_acute ∷ e_acute ∷ [])))
    ⊎ ((pre : List Bytes) × (suf : List Bytes) × (e_acute ∷ e_acute ∷ [] ≡ pre ++ suf)
        × (length (concat pre) ≤ 3)
        × (clip (concat (e_acute ∷ e_acute ∷ [])) 3 ≡ concat pre ++ ellipsis))
clip-IsRune_example = clip-IsRune (e_acute ∷ e_acute ∷ []) 3 (e_acute-IsRune, (e_acute-IsRune, tt))
