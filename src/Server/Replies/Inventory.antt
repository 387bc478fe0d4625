-- ===== src/Server/Replies/Inventory.antt =====
-- The handlers of the inventory and of the sessions' list.
use hopskip.Base.{
  refl, Option, none, some, List, [], ◌∷◌, ◌==◌, nat_eq, bytes_eq, pair_eq, ℤ, int_eq,
}
use hopskip.Text.{Bytes}
use hopskip.Text.Trim.{trim_space}
use hopskip.Store.Tables.{
  Error, not_found, unique_violation, foreign_key_violation, driver_failure, message,
}
use hopskip.Store.Db.Failing.{Reads}
use hopskip.Store.Hosts.{Host, get_host}
use hopskip.Store.Hosts.Reads.{get_host-Keeps}
use hopskip.Store.Hosts.Failing.{add_host-Atomic, update_host-Atomic, delete_host-Atomic}
use hopskip.Server.Hosts.{
  AddHostReq, UpdateHostReq, host_refused, host_missing, tag_unless_blank, tag_entry, tag_each,
  tag_all, added_host, retag, retag_all, updated_host, revised_host, trimmed_or, handle_list_hosts,
  handle_add_host, handle_get_host, handle_update_host, handle_delete_host,
}
use hopskip.Server.Sessions.{handle_list_sessions}
use hopskip.Server.Replies.{
  Settles, Accepts, Succeeds, write_json-Accepts, write_json-Settles, internal_error-Accepts,
  internal_error-Settles, Accepts-Settles, attempt-Accepts, attempt-Settles, attempt_change-Settles,
  bind-Accepts, pure-Succeeds, if-Succeeds, bind-Succeeds, quietly-Succeeds, if-Settles,
  with_body-Settles, with_id-Settles,
}

get_host-Reads : (id : ℤ) → Reads (get_host id)
get_host-Reads id = record { at = λ old. get_host-Keeps id }

host_refused-Settles : (name : Bytes) (e : Error) → Settles (host_refused name e)
host_refused-Settles name unique_violation = write_json-Settles _ _ refl
host_refused-Settles name not_found = internal_error-Settles _
host_refused-Settles name foreign_key_violation = internal_error-Settles _
host_refused-Settles name driver_failure = internal_error-Settles _
host_refused-Settles name (message text) = internal_error-Settles _

host_missing-Settles : (e : Error) → Settles (host_missing e)
host_missing-Settles not_found = write_json-Settles _ _ refl
host_missing-Settles unique_violation = internal_error-Settles _
host_missing-Settles foreign_key_violation = internal_error-Settles _
host_missing-Settles driver_failure = internal_error-Settles _
host_missing-Settles (message text) = internal_error-Settles _

pub handle_list_hosts-Settles : Settles handle_list_hosts
unfolding handle_list_hosts
handle_list_hosts-Settles =
    Accepts-Settles _
      (attempt-Accepts _ _ _ internal_error-Accepts λ hosts. write_json-Accepts _ _ refl)

tag_unless_blank-Succeeds : (id : ℤ) (key value : Bytes) → Succeeds (tag_unless_blank id key value)
unfolding tag_unless_blank
tag_unless_blank-Succeeds id key value =
    if-Succeeds (trim_space value == []) _ _ (pure-Succeeds tt) (quietly-Succeeds _)

tag_entry-Succeeds : (id : ℤ) (key value : Bytes) → Succeeds (tag_entry id key value)
unfolding tag_entry
tag_entry-Succeeds id key value =
    if-Succeeds (trim_space key == []) _ _ (pure-Succeeds tt) (quietly-Succeeds _)

tag_each-Succeeds : (id : ℤ) (entries : List (Bytes × Bytes)) → Succeeds (tag_each id entries)
unfolding tag_each
tag_each-Succeeds id [] = pure-Succeeds tt
tag_each-Succeeds id ((key, value) ∷ entries) =
    bind-Succeeds _ _ (tag_entry-Succeeds id key value) λ u. tag_each-Succeeds id entries

tag_all-Succeeds : (id : ℤ) (req : AddHostReq) → Succeeds (tag_all id req)
unfolding tag_all
tag_all-Succeeds id req =
    bind-Succeeds _ _
      (bind-Succeeds _ _
        (bind-Succeeds _ _ (tag_unless_blank-Succeeds id _ req.ssh)
          λ u. tag_unless_blank-Succeeds id _ req.via)
        λ u. tag_unless_blank-Succeeds id _ req.provider)
      λ u. tag_each-Succeeds id req.tags

added_host-Accepts : (req : AddHostReq) (id : ℤ) → Accepts (added_host req id)
unfolding added_host
added_host-Accepts req id =
    bind-Accepts _ _ (tag_all-Succeeds id req)
      λ u. attempt-Accepts _ _ _ internal_error-Accepts λ host. write_json-Accepts _ _ refl

pub handle_add_host-Settles :
    (now : Bytes) (body : Option AddHostReq) → Settles (handle_add_host now body)
unfolding handle_add_host
handle_add_host-Settles now body = with_body-Settles body _ λ req.
    if-Settles (trim_space req.name == []) _ _ (write_json-Settles _ _ refl) (
      attempt_change-Settles _ _ _
        (add_host-Atomic now (trim_space req.name) (trim_space req.notes))
        (host_refused-Settles (trim_space req.name)) (added_host-Accepts req))

pub handle_get_host-Settles : (text : Bytes) → Settles (handle_get_host text)
unfolding handle_get_host
handle_get_host-Settles text = with_id-Settles text _ λ id.
    attempt-Settles _ _ _ (get_host-Reads id) host_missing-Settles
      λ host. write_json-Settles _ _ refl

retag-Succeeds : (id : ℤ) (key : Bytes) (o : Option Bytes) → Succeeds (retag id key o)
unfolding retag
retag-Succeeds id key none = pure-Succeeds tt
retag-Succeeds id key (some value) =
    if-Succeeds (trim_space value == []) _ _ (quietly-Succeeds _) (quietly-Succeeds _)

retag_all-Succeeds : (id : ℤ) (req : UpdateHostReq) → Succeeds (retag_all id req)
unfolding retag_all
retag_all-Succeeds id req =
    bind-Succeeds _ _
      (bind-Succeeds _ _ (retag-Succeeds id _ req.ssh) λ u. retag-Succeeds id _ req.via)
      λ u. retag-Succeeds id _ req.provider

updated_host-Accepts : (id : ℤ) (req : UpdateHostReq) → Accepts (updated_host id req)
unfolding updated_host
updated_host-Accepts id req =
    bind-Accepts _ _ (retag_all-Succeeds id req)
      λ u. attempt-Accepts _ _ _ internal_error-Accepts λ host. write_json-Accepts _ _ refl

revised_host-Settles :
    (id : ℤ) (body : Option UpdateHostReq) (host : Host) → Settles (revised_host id body host)
unfolding revised_host
revised_host-Settles id body host = with_body-Settles body _ λ req.
    let name = trimmed_or req.name host.name in
    let notes = trimmed_or req.notes host.notes in
    if-Settles (name == []) _ _ (write_json-Settles _ _ refl) (
      attempt_change-Settles _ _ _ (update_host-Atomic id name notes) (host_refused-Settles name)
        λ u. updated_host-Accepts id req)

pub handle_update_host-Settles :
    (text : Bytes) (body : Option UpdateHostReq) → Settles (handle_update_host text body)
unfolding handle_update_host
handle_update_host-Settles text body = with_id-Settles text _ λ id.
    attempt-Settles _ _ _ (get_host-Reads id) host_missing-Settles (revised_host-Settles id body)

pub handle_delete_host-Settles : (text : Bytes) → Settles (handle_delete_host text)
unfolding handle_delete_host
handle_delete_host-Settles text = with_id-Settles text _ λ id.
    attempt_change-Settles _ _ _ (delete_host-Atomic id) host_missing-Settles
      λ u. write_json-Accepts _ _ refl

pub handle_list_sessions-Settles : Settles handle_list_sessions
unfolding handle_list_sessions
handle_list_sessions-Settles =
    Accepts-Settles _
      (attempt-Accepts _ _ _ internal_error-Accepts λ ss. write_json-Accepts _ _ refl)
