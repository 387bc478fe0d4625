-- ===== src/Tests/Fetches.antt =====
-- Downloads from a small server.
use hopskip.Base.{
  ◌≡◌, refl, true, false, Option, none, some, [], ◌∷◌, ◌++◌, take, arith, ◌==◌, nat_eq, bytes_eq,
  pair_eq, int_eq, bytes_beq, if◌then◌else◌, any, keep,
}
use hopskip.Text.{Bytes, codes}
use hopskip.Text.{replace}
use hopskip.Text.Trim.{trim_right, trim_space}
use hopskip.Text.Parts.{split}
use hopskip.Text.Search.{has_prefix, contains, to_lower}
use hopskip.Agent.Fetching.{
  Response, failed, responded, Client, Saving, Fetch, Answer, fetch_url, http_request, refuse,
}
use hopskip.Agent.Fetching.Bodies.{concat, cap_all, looks_textual}
use hopskip.Agent.Fetching.FileNames.{safe_name, filename_from_url}
use hopskip.Agent.Fetching.Previews.{cap_all-take}
use hopskip.Agent.Fetching.Stays.{IsContained, downloads-IsContained}

abbrev below : Bytes → Bytes → Bytes
below dir name = dir ++ (b'/' ∷ name)

abbrev no_path : Bytes → Option Bytes
no_path url = none

abbrev downloads : Bytes
downloads = codes "/dl"

abbrev greeting : Response
greeting = record {
  status = 200;
  content_type = codes "text/plain";
  parts = codes "hello " ∷ codes "world" ∷ [];
  complete = true;
}

abbrev answering : Client
answering request =
    if request.method == codes "GET" then responded greeting else failed (codes "no")

abbrev sly : Bytes
sly = codes "..\\..\\etc/my file"

safe_name_test : safe_name sly ≡ codes "my_file"
unfolding safe_name bytes_beq replace split trim_right
safe_name_test = refl

safe_name_root : safe_name (codes "\\\\") ≡ codes "/"
unfolding safe_name bytes_beq replace split trim_right
safe_name_root = refl

safe_name_parent : safe_name (codes "a/..") ≡ codes "download"
unfolding safe_name bytes_beq replace split trim_right
safe_name_parent = refl

filename_from_url_test : filename_from_url (some (codes "/a/b.tar/")) ≡ codes "b.tar"
unfolding filename_from_url bytes_beq split trim_right
filename_from_url_test = refl

looks_textual_test : looks_textual [] (0x63 ∷ 0xc3 ∷ 0xa9 ∷ []) ≡ true
unfolding looks_textual any contains to_lower bytes_beq keep
looks_textual_test = refl

looks_textual_torn : looks_textual [] (0x63 ∷ 0xc3 ∷ []) ≡ false
unfolding looks_textual any contains to_lower bytes_beq
looks_textual_torn = refl

abbrev fetched_greeting : Fetch
fetched_greeting = (
  (
    Answer.fetched (record {
      status = 200;
      content_type = codes "text/plain";
      bytes = 11;
      path = codes "/dl/my_file";
      text = some (codes "hello world");
    }),
    false,
  ),
  (codes "/dl/my_file", codes "hello world") ∷ [],
)

fetch_url_test :
    fetch_url answering below no_path downloads (codes "http://h/x") sly Saving.saves []
    ≡ fetched_greeting
unfolding fetch_url bytes_beq has_prefix replace any split contains trim_right to_lower
fetch_url_test = refl

fetch_url_refused :
    fetch_url answering below no_path downloads (codes "file:///etc/passwd") [] Saving.saves []
    ≡ refuse (codes "url must start with http:// or https://") []
unfolding fetch_url bytes_beq has_prefix
fetch_url_refused = refl

http_request_posted :
    (http_request answering below no_path downloads
      (codes "http://h/x")
      (codes " post")
      []
      []
      []
      Saving.saves
      []).0.1
    ≡ true
unfolding http_request bytes_beq has_prefix trim_space
http_request_posted = refl

cap_all-take_example :
    cap_all 8 (codes "so: ") (codes "hello " ∷ codes "world" ∷ [])
    ≡ take 8 (codes "so: " ++ concat (codes "hello " ∷ codes "world" ∷ []))
cap_all-take_example =
    cap_all-take 8 (codes "so: ") (codes "hello " ∷ codes "world" ∷ []) (omega arith)

downloads-IsContained_example :
    IsContained below downloads []
      (fetch_url answering below no_path downloads (codes "http://h/x") sly Saving.saves [])
    × IsContained below downloads [] (
        http_request answering below no_path downloads
          (codes "http://h/x")
          (codes "get")
          []
          []
          sly
          Saving.saves
          [])
downloads-IsContained_example =
    downloads-IsContained answering below no_path downloads (codes "http://h/x") (codes "get") [] []
      sly Saving.saves []
