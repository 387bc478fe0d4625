-- ===== src/Agent/Fetching/Stays.antt =====
-- Where the downloads go, and how much of them is shown to a model.
use hopskip.Base.{
  ◌≤◌, ◌≡◌, ◌⊎◌, refl, inl, inr, Bool, true, false, not, ◌||◌, ◌&&◌, Option, none, some, List, [],
  ◌∷◌, take, length, arith, leb, ltb, if◌then◌else◌, Bool-cases, ◌==◌, nat_eq, bytes_eq, pair_eq,
  int_eq,
}
use hopskip.Text.{Bytes, codes}
use hopskip.Text.Trim.{trim_space}
use hopskip.Agent.Fetching.{
  Response, Received, failed, responded, HttpRequest, Client, Saving, saves, unmade, uncreated,
  cut_short, Disk, filename_from_url, Exchanged, Answer, Fetch, is_http, max_preview, hard_cap,
  max_inline, preview_text, name_or, to_upper, method_or_get, copied, fetched_into, fetch_url,
  plain, saved_as, put_aside, delivered, received, http_request,
}
use hopskip.Agent.Fetching.Bodies.{concat, cap_all, looks_textual}
use hopskip.Agent.Fetching.FileNames.{safe_name, filename_from_url}
use hopskip.Agent.Fetching.Previews.{length-take, cap_all-take}
use hopskip.Agent.Fetching.Names.{IsFileName, safe_name-IsFileName}

-- The disk is as it was, or has one file more, of the download directory.
abbrev Stays : (Bytes → Bytes → Bytes) → Bytes → Disk → Disk → Type 0
Stays join_path dl_dir old new =
    (new ≡ old)
    ⊎ (name : Bytes) × (content : Bytes) × IsFileName name
      × (new ≡ (join_path dl_dir name, content) ∷ old)

-- What a model is shown of a body, and what is held of it.
abbrev IsBounded : Answer → Type 0
IsBounded (Answer.refusal text) = Unit
IsBounded Answer.failure = Unit
IsBounded (Answer.fetched f) = (text : Bytes) → f.text ≡ some text → length text ≤ max_preview
IsBounded (Answer.exchanged e) =
    (e.bytes ≤ hard_cap) × ((body : Bytes) → e.body ≡ some body → length body ≤ max_inline)

pub record IsContained (join_path : Bytes → Bytes → Bytes) (dl_dir : Bytes) (old : Disk) (f : Fetch)
    : Type 0 where
  pub stays : Stays join_path dl_dir old f.1
  pub bounded : IsBounded f.0.0

module _ (client : Client) (join_path : Bytes → Bytes → Bytes) (url_path : Bytes → Option Bytes)
    (dl_dir : Bytes) where
  abbrev Contained : Disk → Fetch → Type 0
  Contained = IsContained join_path dl_dir

  -- One file more.
  one_more :
      (name content : Bytes) (disk : Disk)
      → Stays join_path dl_dir disk ((join_path dl_dir (safe_name name), content) ∷ disk)
  one_more name content disk = inr (safe_name name, content, safe_name-IsFileName name, refl)

  -- An error with no file.
  plainly : (a : Answer) (b : Bool) (disk : Disk) → IsBounded a → Contained disk ((a, b), disk)
  plainly a b disk h = record { stays = inl refl; bounded = h }

  preview-le :
      (r : Response) (text : Bytes) → preview_text r ≡ some text → length text ≤ max_preview
  unfolding preview_text
  preview-le r text e =
      let preview = cap_all max_preview [] r.parts in
      let bound : length preview ≤ max_preview =
        rw (cap_all-take max_preview [] r.parts (omega arith))
          (length-take max_preview (concat r.parts)) in
      ground (arith, e, bound)

  copied-Contained :
      (name : Bytes) (r : Response) (disk : Disk)
      → Contained disk
          (copied client join_path url_path dl_dir (join_path dl_dir (safe_name name)) r disk)
  copied-Contained name r disk = elim (Bool-cases r.complete) [
    | inl e ↦
        simp e (record { stays = one_more name (concat r.parts) disk; bounded = preview-le r })
    | inr e ↦ simp e (record { stays = one_more name (concat r.parts) disk; bounded = tt })
  ]

  fetched_into-Contained :
      (name : Bytes) (saving : Saving) (got : Received) (disk : Disk)
      → Contained disk (
          fetched_into client join_path url_path dl_dir
            (join_path dl_dir (safe_name name))
            saving
            got
            disk)
  fetched_into-Contained name saving (failed e) disk = plainly _ _ disk tt
  fetched_into-Contained name saves (responded r) disk = copied-Contained name r disk
  fetched_into-Contained name unmade (responded r) disk = plainly _ _ disk tt
  fetched_into-Contained name uncreated (responded r) disk = plainly _ _ disk tt
  fetched_into-Contained name (cut_short left) (responded r) disk = record {
    stays = one_more name left disk;
    bounded = tt;
  }

  if-Contained :
      (b : Bool) (f g : Fetch) (disk : Disk)
      → Contained disk f
      → Contained disk g
      → Contained disk (if b then f else g)
  if-Contained true f g disk h k = h
  if-Contained false f g disk h k = k

  pub fetch_url-Contained :
      (raw_url save_as : Bytes) (saving : Saving) (disk : Disk)
      → Contained disk (fetch_url client join_path url_path dl_dir raw_url save_as saving disk)
  unfolding fetch_url
  fetch_url-Contained raw_url save_as saving disk =
      if-Contained (raw_url == []) _ _ disk (plainly _ _ disk tt) (
        if-Contained (not (is_http raw_url)) _ _ disk (plainly _ _ disk tt) (
          fetched_into-Contained (name_or save_as (filename_from_url (url_path raw_url))) saving _
            disk))

  inline-le :
      (content_type whole body : Bytes)
      → (if looks_textual content_type whole && leb (length whole) max_inline
          then some whole
          else none)
        ≡ some body
      → length body ≤ max_inline
  inline-le content_type whole body e = ground (arith, e)

  no_body : (body : Bytes) → none ≡ some body → length body ≤ max_inline
  no_body body e = absurd (cc)

  saved_as-Contained :
      (name : Bytes) (saving : Saving) (r : Response) (e : Exchanged) (inline : Option Bytes)
      (body : Bytes) (disk : Disk)
      → e.bytes ≤ hard_cap
      → ((b : Bytes) → inline ≡ some b → length b ≤ max_inline)
      → Contained disk (
          saved_as client join_path url_path dl_dir
            (join_path dl_dir (safe_name name))
            saving
            r
            e
            inline
            body
            disk)
  saved_as-Contained name saves r e inline body disk h k = record {
    stays = one_more name body disk;
    bounded = (h, k);
  }
  saved_as-Contained name unmade r e inline body disk h k = plainly _ _ disk tt
  saved_as-Contained name uncreated r e inline body disk h k = plainly _ _ disk tt
  saved_as-Contained name (cut_short left) r e inline body disk h k = record {
    stays = one_more name left disk;
    bounded = tt;
  }

  put_aside-Contained :
      (name : Bytes) (saving : Saving) (r : Response) (e : Exchanged) (body : Bytes) (disk : Disk)
      → e.bytes ≤ hard_cap
      → ((b : Bytes) → e.body ≡ some b → length b ≤ max_inline)
      → Contained disk (
          put_aside client join_path url_path dl_dir
            (join_path dl_dir (safe_name name))
            saving
            r
            e
            body
            disk)
  put_aside-Contained name saves r e body disk h k = record {
    stays = one_more name body disk;
    bounded = (h, k);
  }
  put_aside-Contained name unmade r e body disk h k = plainly _ _ disk (h, k)
  put_aside-Contained name uncreated r e body disk h k = plainly _ _ disk (h, k)
  put_aside-Contained name (cut_short left) r e body disk h k = record {
    stays = one_more name left disk;
    bounded = (h, k);
  }

  delivered-Contained :
      (raw_url save_as method : Bytes) (saving : Saving) (r : Response) (disk : Disk)
      → Contained disk
          (delivered client join_path url_path dl_dir raw_url save_as method saving r disk)
  unfolding delivered
  delivered-Contained raw_url save_as method saving r disk =
      let body = take hard_cap (concat r.parts) in
      let e = plain client join_path url_path dl_dir method r (concat r.parts) in
      let held : length body ≤ hard_cap = length-take hard_cap (concat r.parts) in
      let small = looks_textual r.content_type body && leb (length body) max_inline in
      if-Contained (not (save_as == [])) _ _ disk
        (saved_as-Contained save_as saving r e _ body disk held (inline-le r.content_type body))
        (elim (Bool-cases small) [
          | inl s ↦ rw s (plainly _ _ disk (held, λ b k. inline-le r.content_type body b (rw s k)))
          | inr s ↦ rw s (
              if-Contained (length body == 0) _ _ disk (plainly _ _ disk (held, no_body)) (
                put_aside-Contained (filename_from_url (url_path raw_url)) saving r e body disk held
                  no_body))
        ])

  received-Contained :
      (raw_url save_as method : Bytes) (saving : Saving) (got : Received) (disk : Disk)
      → Contained disk
          (received client join_path url_path dl_dir raw_url save_as method saving got disk)
  received-Contained raw_url save_as method saving (failed e) disk = plainly _ _ disk tt
  received-Contained raw_url save_as method saving (responded r) disk =
      if-Contained (r.complete || ltb hard_cap (length (concat r.parts))) _ _ disk
        (delivered-Contained raw_url save_as method saving r disk) (plainly _ _ disk tt)

  pub http_request-Contained :
      (raw_url method : Bytes) (headers : List (Bytes × Bytes)) (body save_as : Bytes)
      (saving : Saving) (disk : Disk)
      → Contained disk (
          http_request client join_path url_path dl_dir raw_url method headers body save_as saving
            disk)
  unfolding http_request
  http_request-Contained raw_url method headers body save_as saving disk =
      let verb = method_or_get (to_upper (trim_space method)) in
      let request : HttpRequest = record {
        url = raw_url;
        method = verb;
        headers = (codes "User-Agent", codes "hopskip-http/1") ∷ headers;
        body = body;
      } in
      if-Contained (raw_url == []) _ _ disk (plainly _ _ disk tt) (
        if-Contained (not (is_http raw_url)) _ _ disk (plainly _ _ disk tt)
          (received-Contained raw_url save_as verb saving (client request) disk))

  -- What the model asks to be fetched, saved as whatever name and answered by whatever server,
  -- leaves the disk as it was or adds one file, whose name in the download directory is a single
  -- segment without slashes or backslashes, or "/"; at most 8 MiB of a response are held, and the
  -- text that a model is shown is at most 64 KiB of a download and 256 KiB of a response.
  pub downloads-IsContained :
      (raw_url method : Bytes) (headers : List (Bytes × Bytes)) (body save_as : Bytes)
      (saving : Saving) (disk : Disk)
      → IsContained join_path dl_dir disk
          (fetch_url client join_path url_path dl_dir raw_url save_as saving disk)
        × IsContained join_path dl_dir disk (
            http_request client join_path url_path dl_dir raw_url method headers body save_as saving
              disk)
  downloads-IsContained raw_url method headers body save_as saving disk = (
    fetch_url-Contained raw_url save_as saving disk,
    http_request-Contained raw_url method headers body save_as saving disk,
  )
