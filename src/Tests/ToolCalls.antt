-- ===== src/Tests/ToolCalls.antt =====
-- Calls of tools at a small table.
use hopskip.Base.{
  any, all, find, ℤ, ◌&&◌, lookup, if◌then◌else◌, ◌==◌, ◌≡◌, refl, true, false, Option, none, some,
  List, [], ◌∷◌, nat_eq, bytes_eq, bytes_beq, pair_eq, pos, int_eq, length, take,
}
use hopskip.Text.{Bytes, codes}
use hopskip.Store.Rows.{row}
use hopskip.Store.Tables.{HostRow}
use hopskip.Store.Hosts.{Host, host_id, name_taken}
use hopskip.Store.Hosts.Reading.{tag_at}
use hopskip.Agent.Tools.{
  is_digits, done, one_host, renamed, tag_host_tool, get_host_tool, rename_host_tool,
}
use hopskip.Agent.Tools.Tagging.{target, tag_host_tool-get_host_tool, rename_host_tool_lem}
use hopskip.Store.Db.{ok, Db, calm}
use hopskip.Base.{bytes_beq}
use hopskip.Text.{replace}
use hopskip.Text.Parts.{split, join, separated}
use hopskip.Text.Trim.{trim_space, trim_left}
use hopskip.Store.Tables.{Tables}
use hopskip.Store.Web.{normalize_web_path}
use hopskip.Agent.Tools.{overlay_file, written, read_web_file_tool, write_web_file_tool}
use hopskip.Agent.Tools.Files.{write_web_file_tool-read_web_file_tool}
use hopskip.Agent.Tools.{Args, no_args}
use hopskip.Agent.Tools.Calls.{Request, dispatch_all, HasKeys, dispatch_all-HasKeys}
use hopskip.Tests.Hosts.{day, fleet, fleet-IsInOrder}

abbrev requests : List Request
requests =
    Request.asks day (codes "add_host") (some (record no_args { name = codes " gpu " }))
    ∷ Request.asks day (codes "tag_host")
        (some (record no_args { host = codes "gpu"; key = codes "env"; value = codes "dev" }))
    ∷ Request.asks day (codes "write_web_file")
        (some (record no_args { path = codes "/ext//a.mjs"; content = codes "x" }))
    ∷ Request.opens day (codes "s7") (some (pos 1)) (codes "pty:7") []
    ∷ Request.asks day (codes "write_web_file")
        (some (record no_args { path = codes "../a"; content = codes "x" }))
    ∷ Request.asks day (codes "rename_host") none
    ∷ Request.ends day (codes "s7")
    ∷ []

abbrev faulty : Db
faulty = record { tables = fleet; faults = false ∷ false ∷ true ∷ [] }

abbrev hash : Bytes → Bytes
hash s = take 4 s

abbrev embedded : Bytes → Option Bytes
embedded path = none

dispatch_all-HasKeys_example :
    HasKeys (dispatch_all hash [] embedded requests faulty).tables.web_files
dispatch_all-HasKeys_example = dispatch_all-HasKeys hash [] embedded requests faulty tt

abbrev script : Args
script = record no_args { path = codes "/ext//a.mjs"; content = codes "x" }

script_path : normalize_web_path script.path ≡ some (codes "ext/a.mjs")
unfolding normalize_web_path trim_space trim_left replace split join separated bytes_beq
script_path = refl

write_web_file_tool-read_web_file_tool_example :
    (u : Tables) × (write_web_file_tool day script (calm fleet)
      ≡ (ok (written (codes "ext/a.mjs") (length script.content)), calm u))
    × ((shell : Bytes → Option Bytes) (other : Args)
        → normalize_web_path other.path ≡ some (codes "ext/a.mjs")
        → read_web_file_tool shell other (calm u) ≡ (
          ok (overlay_file (codes "ext/a.mjs") script.content (trim_space script.content_type)),
          calm u,
        ))
write_web_file_tool-read_web_file_tool_example =
    write_web_file_tool-read_web_file_tool day (codes "ext/a.mjs") script fleet script_path

abbrev web : HostRow
web = record { id = pos 2; name = codes "web"; notes = codes "gpu"; created_at = day }

abbrev to_web : Args
to_web = record no_args {
  host = codes " web";
  key = codes "env";
  value = codes "dev";
  name = codes " gpu-1 ";
}

aimed_lem : target to_web.host fleet ≡ some web
unfolding target is_digits all find trim_space trim_left bytes_beq
aimed_lem = refl

gpu_free : name_taken (pos 2) (trim_space to_web.name) fleet ≡ false
unfolding any trim_space trim_left bytes_beq
gpu_free = refl

gpu_filled : (trim_space to_web.name == []) ≡ false
unfolding trim_space trim_left bytes_beq
gpu_filled = refl

tag_host_tool-get_host_tool_example :
    (u : Tables) × (h : Host) × (tag_host_tool to_web (calm fleet) ≡ (ok done, calm u))
    × (get_host_tool to_web (calm u) ≡ (ok (one_host h), calm u))
    × (h.id ≡ pos 2)
    × (h.name ≡ codes "web")
    × ((k : Bytes)
        → lookup k h.tags
          ≡ (if k == codes "env" then some (codes "dev") else tag_at (pos 2) k fleet))
    × ((j : ℤ) (k : Bytes)
        → tag_at j k u
          ≡ (if j == pos 2 && k == codes "env" then some (codes "dev") else tag_at j k fleet))
tag_host_tool-get_host_tool_example =
    tag_host_tool-get_host_tool to_web fleet web fleet-IsInOrder aimed_lem

rename_host_tool_lem_example :
    (u : Tables) × (rename_host_tool to_web (calm fleet)
      ≡ (ok (renamed (pos 2) (trim_space to_web.name)), calm u))
    × ((j : ℤ)
        → row host_id j u.hosts ≡ (
            if j == pos 2
            then some (record web { name = trim_space to_web.name })
            else row host_id j fleet.hosts))
    × (u.host_tags ≡ fleet.host_tags)
    × (u.host_facts ≡ fleet.host_facts)
rename_host_tool_lem_example =
    rename_host_tool_lem to_web fleet web fleet-IsInOrder aimed_lem gpu_filled gpu_free
