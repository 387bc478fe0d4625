-- ===== src/Agent/Fetching.antt =====
-- internal/agent/tools.go: fetch_url and http_request. What the network gives for a request, how the
-- writing of a file ends, `filepath.Join` and the path of a URL by net/url are arguments.
pub mod Bodies
pub mod FileNames
pub mod Names
pub mod Previews
pub mod Stays
use hopskip.Base.{
  ℕ, zero, suc, ◌+◌, ◌-◌, ◌*◌, ◌||◌, ◌&&◌, not, Bool, true, false, Option, none, some, List, [],
  ◌∷◌, ◌++◌, map, any, keep, take, length, leb, ltb, if◌then◌else◌, ◌==◌, nat_eq, bytes_eq, pair_eq,
  int_eq,
}
use hopskip.Text.{Bytes, codes}
use hopskip.Text.{replace}
use hopskip.Text.Trim.{trim_space, trim_right}
use hopskip.Text.Search.{has_prefix, contains, to_lower}
use hopskip.Agent.Fetching.Bodies.{concat, cap_all, looks_textual}
use hopskip.Agent.Fetching.FileNames.{safe_name, filename_from_url}

-- What comes back: the parts of the body in the order in which they are read, and whether reading
-- them ended without an error.
pub record Response : Type 0 where
  pub status : ℕ
  pub content_type : Bytes
  pub parts : List Bytes
  pub complete : Bool

pub data Received : Type 0 where
  failed : Bytes → Received
  responded : Response → Received

pub record HttpRequest : Type 0 where
  pub url : Bytes
  pub method : Bytes
  pub headers : List (Bytes × Bytes)
  pub body : Bytes

-- `NewRequest` and `Do`
abbrev pub Client : Type 0
Client = HttpRequest → Received

-- The end of a write: done, no directory, no file, or a file that holds only part.
pub data Saving : Type 0 where
  saves unmade uncreated : Saving
  cut_short : Bytes → Saving

abbrev pub Disk : Type 0
Disk = List (Bytes × Bytes)

-- The JSON of an answer: `refusal` is an error with a text of its own, `failure` one of the network
-- or of the operating system.
pub record Fetched : Type 0 where
  pub status : ℕ
  pub content_type : Bytes
  pub bytes : ℕ
  pub path : Bytes
  -- none where the note on copying stands instead
  pub text : Option Bytes

-- Less the headers of the response and the text of its status.
pub record Exchanged : Type 0 where
  pub method : Bytes
  pub status : ℕ
  pub bytes : ℕ
  pub truncated : Bool
  pub path : Option Bytes
  pub body : Option Bytes
  pub has_note : Bool

pub data Answer : Type 0 where
  refusal : Bytes → Answer
  failure : Answer
  fetched : Fetched → Answer
  exchanged : Exchanged → Answer

-- An answer, whether it is an error, and the files.
abbrev pub Fetch : Type 0
Fetch = (Answer × Bool) × Disk

abbrev pub is_http : Bytes → Bool
is_http url = has_prefix url (codes "http://") || has_prefix url (codes "https://")

abbrev pub max_preview : ℕ
max_preview = 64 * 1024

abbrev pub hard_cap : ℕ
hard_cap = 8 * (1024 * 1024)

abbrev pub max_inline : ℕ
max_inline = 256 * 1024

abbrev pub is_failure_status : ℕ → Bool
is_failure_status status = leb 400 status

abbrev pub refuse : Bytes → Disk → Fetch
refuse text disk = ((Answer.refusal text, true), disk)

-- The text of a body that was copied whole, where it is short and textual.
unfoldable pub preview_text : Response → Option Bytes
unfolding concat cap_all looks_textual
preview_text r =
    let preview = cap_all max_preview [] r.parts in
    if leb (length (concat r.parts)) max_preview && looks_textual r.content_type preview
    then some preview
    else none

abbrev pub name_or : Bytes → Bytes → Bytes
name_or save_as other = if save_as == [] then other else save_as

-- `strings.ToUpper` of ASCII letters.
unfoldable pub to_upper : Bytes → Bytes
to_upper = map (λ c. if leb b'a' c && leb c b'z' then c - 32 else c)

abbrev pub method_or_get : Bytes → Bytes
method_or_get method = if method == [] then codes "GET" else method

module _ (client : Client) (join_path : Bytes → Bytes → Bytes) (url_path : Bytes → Option Bytes)
    (dl_dir : Bytes) where
  -- A file of the download directory.
  abbrev pub file_for : Bytes → Bytes
  file_for name = join_path dl_dir (safe_name name)

  -- Behind the copy of the body.
  abbrev pub copied : Bytes → Response → Disk → Fetch
  copied path r disk =
      if r.complete
      then (
        (
          Answer.fetched (record {
            status = r.status;
            content_type = r.content_type;
            bytes = length (concat r.parts);
            path = path;
            text = preview_text r;
          }),
          is_failure_status r.status,
        ),
        (path, concat r.parts) ∷ disk,
      )
      else ((Answer.failure, true), (path, concat r.parts) ∷ disk)

  abbrev pub fetched_into : Bytes → Saving → Received → Disk → Fetch
  fetched_into path saving (failed e) disk = ((Answer.failure, true), disk)
  fetched_into path saves (responded r) disk = copied path r disk
  fetched_into path unmade (responded r) disk = ((Answer.failure, true), disk)
  fetched_into path uncreated (responded r) disk = ((Answer.failure, true), disk)
  fetched_into path (cut_short left) (responded r) disk =
      ((Answer.failure, true), (path, left) ∷ disk)

  unfoldable pub fetch_url : (raw_url save_as : Bytes) → Saving → Disk → Fetch
  unfolding safe_name filename_from_url preview_text
  fetch_url raw_url save_as saving disk =
      let name = name_or save_as (filename_from_url (url_path raw_url)) in
      let request : HttpRequest = record {
        url = raw_url;
        method = codes "GET";
        headers = (codes "User-Agent", codes "hopskip-fetch/1") ∷ [];
        body = [];
      } in
      if raw_url == []
      then refuse (codes "url is required") disk
      else if not (is_http raw_url)
      then refuse (codes "url must start with http:// or https://") disk
      else fetched_into (file_for name) saving (client request) disk

  -- The answer before its body: what is read of it is bounded.
  abbrev pub plain : Bytes → Response → Bytes → Exchanged
  plain method r body = record {
    method = method;
    status = r.status;
    bytes = length (take hard_cap body);
    truncated = ltb hard_cap (length body);
    path = none;
    body = none;
    has_note = false;
  }

  abbrev pub exchanged_as : Response → Exchanged → Disk → Fetch
  exchanged_as r e disk = ((Answer.exchanged e, is_failure_status r.status), disk)

  -- An explicit save: an error where it fails.
  abbrev pub saved_as :
      Bytes → Saving → Response → Exchanged → (inline : Option Bytes) → Bytes → Disk → Fetch
  saved_as path saves r e inline body disk =
      exchanged_as r (record e { path = some path; body = inline }) ((path, body) ∷ disk)
  saved_as path unmade r e inline body disk = ((Answer.failure, true), disk)
  saved_as path uncreated r e inline body disk = ((Answer.failure, true), disk)
  saved_as path (cut_short left) r e inline body disk =
      ((Answer.failure, true), (path, left) ∷ disk)

  -- A save of what cannot be shown: no error where it fails, only no path.
  abbrev pub put_aside : Bytes → Saving → Response → Exchanged → Bytes → Disk → Fetch
  put_aside path saves r e body disk =
      exchanged_as r (record e { path = some path; has_note = true }) ((path, body) ∷ disk)
  put_aside path unmade r e body disk = exchanged_as r (record e { has_note = true }) disk
  put_aside path uncreated r e body disk = exchanged_as r (record e { has_note = true }) disk
  put_aside path (cut_short left) r e body disk =
      exchanged_as r (record e { has_note = true }) ((path, left) ∷ disk)

  unfoldable pub delivered : (raw_url save_as method : Bytes) → Saving → Response → Disk → Fetch
  unfolding looks_textual safe_name filename_from_url concat
  delivered raw_url save_as method saving r disk =
      let whole = concat r.parts in
      let body = take hard_cap whole in
      let e = plain method r whole in
      let small = looks_textual r.content_type body && leb (length body) max_inline in
      if not (save_as == [])
      then saved_as (file_for save_as) saving r e (if small then some body else none) body disk
      else if small
      then exchanged_as r (record e { body = some body }) disk
      else if length body == 0
      then exchanged_as r e disk
      else put_aside (file_for (filename_from_url (url_path raw_url))) saving r e body disk

  abbrev pub received : (raw_url save_as method : Bytes) → Saving → Received → Disk → Fetch
  received raw_url save_as method saving (failed e) disk = ((Answer.failure, true), disk)
  received raw_url save_as method saving (responded r) disk =
      if r.complete || ltb hard_cap (length (concat r.parts))
      then delivered raw_url save_as method saving r disk
      else ((Answer.failure, true), disk)

  unfoldable pub http_request :
      (raw_url method : Bytes) (headers : List (Bytes × Bytes)) (body save_as : Bytes)
      → Saving
      → Disk
      → Fetch
  unfolding delivered to_upper
  http_request raw_url method headers body save_as saving disk =
      let verb = method_or_get (to_upper (trim_space method)) in
      let request : HttpRequest = record {
        url = raw_url;
        method = verb;
        headers = (codes "User-Agent", codes "hopskip-http/1") ∷ headers;
        body = body;
      } in
      if raw_url == []
      then refuse (codes "url is required") disk
      else if not (is_http raw_url)
      then refuse (codes "url must start with http:// or https://") disk
      else received raw_url save_as verb saving (client request) disk
