-- ===== src/Server/Hosts.antt =====
-- internal/server/server.go: the handlers of the inventory. The time of a call is its first argument.
pub mod Adding
use hopskip.Base.{
  ◌++◌, Option, none, some, List, [], ◌∷◌, if◌then◌else◌, ◌==◌, nat_eq, bytes_eq, pair_eq, ℤ,
  int_eq,
}
use hopskip.Text.{Bytes, codes}
use hopskip.Text.Trim.{trim_space}
use hopskip.Store.Tables.{
  Error, not_found, unique_violation, foreign_key_violation, driver_failure, message,
}
use hopskip.Store.Db.{M, pure, catch, ◌>>=◌, ◌>>◌}
use hopskip.Store.Hosts.{
  Host, list_hosts, add_host, tag_host, delete_tag, get_host, update_host, delete_host,
}
use hopskip.Server.Api.{
  Reply, Body, write_json, write_err, internal_error, attempt, with_body, with_id,
}

-- `tags` are the entries of the Go map in the order in which the loop meets them.
pub record AddHostReq : Type 0 where
  pub name : Bytes
  pub notes : Bytes
  pub ssh : Bytes
  pub via : Bytes
  pub provider : Bytes
  pub tags : List (Bytes × Bytes)

pub record UpdateHostReq : Type 0 where
  pub name : Option Bytes
  pub notes : Option Bytes
  pub ssh : Option Bytes
  pub via : Option Bytes
  pub provider : Option Bytes

abbrev pub ssh_key : Bytes
ssh_key = codes "ssh"

abbrev pub via_key : Bytes
via_key = codes "via"

abbrev pub provider_key : Bytes
provider_key = codes "provider"

abbrev pub is_required : Bytes
is_required = codes "name is required"

unfoldable pub handle_list_hosts : M Reply
handle_list_hosts = attempt list_hosts internal_error λ hosts. write_json 200 (Body.hosts hosts)

-- The text of an error of the driver holds "UNIQUE" where the constraint on the name is broken.
abbrev pub host_refused : Bytes → Error → M Reply
host_refused name unique_violation =
    write_err 409 (codes "a host named " ++ name ++ codes " already exists")
host_refused name not_found = internal_error not_found
host_refused name foreign_key_violation = internal_error foreign_key_violation
host_refused name driver_failure = internal_error driver_failure
host_refused name (message text) = internal_error (message text)

abbrev pub host_missing : Error → M Reply
host_missing not_found = write_err 404 (codes "host not found")
host_missing unique_violation = internal_error unique_violation
host_missing foreign_key_violation = internal_error foreign_key_violation
host_missing driver_failure = internal_error driver_failure
host_missing (message text) = internal_error (message text)

-- `_ = m`
abbrev pub quietly : M Unit → M Unit
quietly m = catch m >>= λ _. pure tt

-- A tag from a field of its own, where the field is not blank.
unfoldable pub tag_unless_blank : ℤ → Bytes → Bytes → M Unit
tag_unless_blank id key value =
    if trim_space value == [] then pure tt else quietly (tag_host id key (trim_space value))

unfoldable pub tag_entry : ℤ → Bytes → Bytes → M Unit
tag_entry id key value =
    if trim_space key == [] then pure tt else quietly (tag_host id (trim_space key) value)

unfoldable pub tag_each : ℤ → List (Bytes × Bytes) → M Unit
unfolding tag_entry
tag_each id [] = pure tt
tag_each id ((key, value) ∷ entries) = tag_entry id key value >> tag_each id entries

unfoldable pub tag_all : ℤ → AddHostReq → M Unit
unfolding tag_unless_blank tag_each
tag_all id req =
    tag_unless_blank id ssh_key req.ssh
    >> tag_unless_blank id via_key req.via
    >> tag_unless_blank id provider_key req.provider
    >> tag_each id req.tags

-- Behind `AddHost`.
unfoldable pub added_host : AddHostReq → ℤ → M Reply
unfolding tag_all
added_host req id =
    tag_all id req >> attempt (get_host id) internal_error λ host. write_json 201 (Body.host host)

unfoldable pub handle_add_host : Bytes → Option AddHostReq → M Reply
unfolding added_host
handle_add_host now body = with_body body λ req.
    let name = trim_space req.name in
    if name == []
    then write_err 400 is_required
    else attempt (add_host now name (trim_space req.notes)) (host_refused name) (added_host req)

unfoldable pub handle_get_host : Bytes → M Reply
handle_get_host id_text =
    with_id id_text λ id. attempt (get_host id) host_missing λ host. write_json 200 (Body.host host)

-- A tag that a PATCH names: set, or deleted where it is blank.
unfoldable pub retag : ℤ → Bytes → Option Bytes → M Unit
retag id key none = pure tt
retag id key (some value) =
    if trim_space value == []
    then quietly (delete_tag id key)
    else quietly (tag_host id key (trim_space value))

abbrev pub trimmed_or : Option Bytes → Bytes → Bytes
trimmed_or none old = old
trimmed_or (some text) old = trim_space text

unfoldable pub retag_all : ℤ → UpdateHostReq → M Unit
unfolding retag
retag_all id req =
    retag id ssh_key req.ssh >> retag id via_key req.via >> retag id provider_key req.provider

-- Behind `UpdateHost`.
unfoldable pub updated_host : ℤ → UpdateHostReq → M Reply
unfolding retag_all
updated_host id req =
    retag_all id req >> attempt (get_host id) internal_error λ host. write_json 200 (Body.host host)

-- Behind `GetHost`: the body is read after the host.
unfoldable pub revised_host : ℤ → Option UpdateHostReq → Host → M Reply
unfolding updated_host
revised_host id body host = with_body body λ req.
    let name = trimmed_or req.name host.name in
    let notes = trimmed_or req.notes host.notes in
    if name == []
    then write_err 400 is_required
    else attempt (update_host id name notes) (host_refused name) λ _. updated_host id req

unfoldable pub handle_update_host : Bytes → Option UpdateHostReq → M Reply
unfolding revised_host
handle_update_host id_text body =
    with_id id_text λ id. attempt (get_host id) host_missing (revised_host id body)

unfoldable pub handle_delete_host : Bytes → M Reply
handle_delete_host id_text =
    with_id id_text λ id. attempt (delete_host id) host_missing λ _. write_json 200 Body.confirmed
