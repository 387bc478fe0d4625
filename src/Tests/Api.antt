-- ===== src/Tests/Api.antt =====
-- The API at a small fleet.
use mathlib.Core.List.{tail-eq_of_cons-eq}
use hopskip.Base.{
  ◌≡◌, ◌≢◌, refl, true, false, Option, none, some, List, [], ◌∷◌, ◌++◌, arith, ◌==◌, nat_eq,
  bytes_eq, bytes_beq, pair_eq, pos, int_eq, any, lookup,
}
use hopskip.Text.{Bytes, codes}
use hopskip.Text.{replace}
use hopskip.Text.Trim.{trim_space, trim_left}
use hopskip.Text.Parts.{split, join, separated}
use hopskip.Store.Rows.{has}
use hopskip.Store.Db.{ok, calm}
use hopskip.Store.Tables.{Tables}
use hopskip.Store.Hosts.{Host, host_name}
use hopskip.Store.Web.{normalize_web_path}
use hopskip.Store.Web.Paths.{normalize_web_path-IsKey}
use hopskip.Agent.Limits.{atoi, default_max_steps, default_max_retries}
use hopskip.Agent.Operator.{
  current_max_steps, current_max_retries, max_steps_setting, max_retries_setting,
}
use hopskip.Agent.Tools.Calls.{HasKeys}
use hopskip.Session.Manager.{lives}
use hopskip.Server.Api.{Body}
use hopskip.Server.Hosts.{AddHostReq, handle_add_host, handle_get_host}
use hopskip.Server.Hosts.Adding.{asked, last_value, handle_add_host-handle_get_host}
use hopskip.Server.Credentials.{mask_token}
use hopskip.Server.Credentials.Masking.{unmasked, unmasked-mask_token}
use hopskip.Server.Settings.{at_least, not_positive, not_whole}
use hopskip.Server.Settings.Tuning.{Tunes, handle_set_setting-Tunes}
use hopskip.Server.Static.{web_name, read_static}
use hopskip.Server.Static.Names.{IsName, web_name_lem}
use hopskip.Server.Web.{Write, World, handle_web_export, torn, written}
use hopskip.Server.Web.Exporting.{handle_web_export-read_static}
use hopskip.Server.Routes.{Request, Call, Daemon, serve, serve_all}
use hopskip.Server.Routes.Answers.{Answered, serve-Answered}
use hopskip.Server.Routes.Admitted.{IsAdmitted, serve_all-IsAdmitted}
use hopskip.Server.Settings.{setting_defs}
use hopskip.Base.{find, all}
use hopskip.Tests.Hosts.{empty, day, fleet, fleet-IsInOrder}

abbrev absolute : Bytes → Option Bytes
absolute dir = some (b'/' ∷ dir)

abbrev below : Bytes → Bytes → Bytes
below dir name = dir ++ (b'/' ∷ name)

abbrev shell : Bytes → Option Bytes
shell name = none

abbrev gpu : AddHostReq
gpu = record {
  name = codes " gpu ";
  notes = [];
  ssh = codes "me@gpu";
  via = [];
  provider = codes "lab";
  tags = (codes "env", codes "dev") ∷ (codes "ssh", codes "you@gpu") ∷ [];
}

-- The store fails the third statement.
abbrev office : Daemon
office = record {
  manager = record {
    live = [];
    db = record { tables = fleet; faults = false ∷ false ∷ true ∷ [] };
  };
  chats = [];
  disk = [];
  writes = torn none ∷ [];
}

serve-Answered_example :
    Answered office
      (serve absolute below shell (Call.asks (Request.add_host day (some gpu))) office)
serve-Answered_example =
    serve-Answered absolute below shell (Call.asks (Request.add_host day (some gpu))) office

abbrev stocked : Tables
stocked = record fleet {
  llm_credentials =
      record {
        id = pos 1;
        label = codes "main";
        provider = codes "openai";
        token = codes "sk-1";
        model = [];
        active = true;
        created_at = day;
      }
      ∷ [];
  app_settings =
      record { key = codes "max_steps"; value = codes "5" }
      ∷ record { key = codes "upstream_proxy"; value = [] }
      ∷ [];
  knowledge = record { id = pos 1; text = codes "web is idle"; created_at = day } ∷ [];
}

stocked-IsAdmitted : IsAdmitted stocked
unfolding setting_defs find bytes_beq atoi all
stocked-IsAdmitted = record {
  hosts = (refl, (refl, tt));
  credentials = ((refl, refl), tt);
  settings = ((_, refl, refl), ((_, refl, refl), tt));
  knowledge = (refl, tt);
}

abbrev store : Daemon
store = record office {
  manager = record { live = []; db = record { tables = stocked; faults = false ∷ true ∷ [] } };
}

abbrev morning : List Call
morning =
    Call.asks (Request.add_host day (some gpu))
    ∷ Call.asks (Request.add_host day (some (record gpu { name = codes " " })))
    ∷ Call.asks (Request.update_host (codes "2") none)
    ∷ Call.asks (Request.set_setting (codes "max_steps") (some (codes "0")))
    ∷ Call.asks (Request.add_knowledge day (some (codes "  ")))
    ∷ Call.open_session day (codes "s2") lives (codes "pty:1") [] (some (pos 2))
    ∷ Call.asks (Request.set_setting (codes "max_steps") (some (codes "9")))
    ∷ Call.web_export
    ∷ []

serve_all-IsAdmitted_example :
    IsAdmitted (serve_all absolute below shell morning store).manager.db.tables
serve_all-IsAdmitted_example =
    serve_all-IsAdmitted absolute below shell morning store stocked-IsAdmitted

abbrev site : Tables
site = record empty {
  web_files =
      record {
        path = codes "app.js";
        content = codes "new";
        content_type = [];
        created_by = codes "agent";
        updated_at = day;
      }
      ∷ record {
        path = codes "ext/a.mjs";
        content = codes "a";
        content_type = [];
        created_by = codes "agent";
        updated_at = day;
      }
      ∷ [];
}

app_path : normalize_web_path (codes "/app.js") ≡ some (codes "app.js")
unfolding normalize_web_path trim_space trim_left replace split join separated bytes_beq
app_path = refl

ext_path : normalize_web_path (codes "ext/a.mjs") ≡ some (codes "ext/a.mjs")
unfolding normalize_web_path trim_space trim_left replace split join separated bytes_beq
ext_path = refl

site-HasKeys : HasKeys site.web_files
site-HasKeys = (
  normalize_web_path-IsKey (codes "/app.js") app_path,
  (normalize_web_path-IsKey (codes "ext/a.mjs") ext_path, tt),
)

below_apart : (dir p q : Bytes) → below dir p ≡ below dir q → p ≡ q
below_apart [] p q e = tail-eq_of_cons-eq e
below_apart (c ∷ dir) p q e = below_apart dir p q (tail-eq_of_cons-eq e)

-- The first file is saved, and then the disk is full.
abbrev half : List Write
half = written ∷ torn (some (codes "?")) ∷ []

handle_web_export-read_static_example :
    let w : World = record {
      db = record { tables = site; faults = false ∷ false ∷ [] };
      disk = [];
      writes = half;
    } in
    let w1 = (handle_web_export absolute below w).1 in
    (read_static absolute below shell [] (codes "/app.js") w1.disk (calm w1.db.tables)).0
    ≡ (read_static absolute below shell [] (codes "/app.js") [] (calm site)).0
handle_web_export-read_static_example =
    handle_web_export-read_static absolute below shell (λ d p q _ _ e. below_apart d p q e)
      (codes "/app.js") site [] [] half site-HasKeys

gpu_named : trim_space gpu.name ≢ []
unfolding trim_space
gpu_named = cc

gpu_free : has host_name (trim_space gpu.name) fleet.hosts ≡ false
unfolding any bytes_beq trim_space
gpu_free = refl

handle_add_host-handle_get_host_example :
    (u : Tables) × (h : Host) × (handle_add_host day (some gpu) (calm fleet)
      ≡ (ok (record { code = 201; body = Body.host h }), calm u))
    × (h.name ≡ trim_space gpu.name)
    × (h.notes ≡ trim_space gpu.notes)
    × ((k : Bytes) → lookup k h.tags ≡ last_value k (asked gpu) none)
    × ((text : Bytes)
        → atoi text ≡ some h.id
        → handle_get_host text (calm u) ≡ (ok (record { code = 200; body = Body.host h }), calm u))
handle_add_host-handle_get_host_example =
    handle_add_host-handle_get_host day gpu fleet fleet-IsInOrder gpu_named gpu_free

handle_set_setting-Tunes_example :
    Tunes max_steps_setting current_max_steps not_positive default_max_steps
      (codes " 40")
      fleet
      (trim_space (codes " 40") == [])
      (at_least 1 (atoi (trim_space (codes " 40"))))
    × Tunes max_retries_setting current_max_retries not_whole default_max_retries
        (codes " 40")
        fleet
        (trim_space (codes " 40") == [])
        (at_least 0 (atoi (trim_space (codes " 40"))))
handle_set_setting-Tunes_example = handle_set_setting-Tunes (codes " 40") fleet

web_name_lem_example :
    IsName (web_name (codes "/a/../../etc/passwd"))
    × (IsName (codes "/a/../../etc/passwd")
        → web_name (codes "/a/../../etc/passwd") ≡ codes "/a/../../etc/passwd")
web_name_lem_example = web_name_lem (codes "/a/../../etc/passwd")

unmasked-mask_token_example : unmasked 10 (mask_token (codes "sk-ant-xyz")) ≡ codes "sk-ant-xyz"
unmasked-mask_token_example = unmasked-mask_token (codes "sk-ant-xyz") (omega arith) (omega arith)
