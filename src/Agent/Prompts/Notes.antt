-- ===== src/Agent/Prompts/Notes.antt =====
-- When the model is told the notes of a host.
use hopskip.Base.{
  ℕ, ◌≡◌, ◌≢◌, refl, ap, sym, ◌∙◌, Bool, true, false, not, ◌||◌, List, [], ◌∷◌, ◌++◌, append_assoc,
  any, keep, All, Bool-cases, inl, inr, arith, ◌==◌, nat_eq, bytes_eq, bytes_beq, bytes_beq_iff,
  pair_eq, int_eq,
}
use hopskip.Text.{Bytes, codes}
use hopskip.Text.Search.{has_prefix, contains}
use hopskip.Text.Prefixes.{has_prefix-append}
use hopskip.Store.Db.{ok, Db, pure, catch, caught, continue, ◌>>=◌, result_or}
use hopskip.Store.Hosts.{Host, list_hosts}
use hopskip.Agent.Prompts.{
  listed, concat_map, section, note_of, note_line, heading, host_lines, inventory_title,
  inventory_prompt, is_separator, split_by, fields_func, targets, host_mentioned_in, reminder_for,
  reminder_among, pre_connect_reminder,
}

-- A word of the keys: no separators in it, and a separator or an end on both sides.
abbrev pub IsPlain : Bytes → Type 0
IsPlain = All (λ c. is_separator c ≡ false)

-- The words by which a host is meant: its name, somebody's account at it or at a host whose name
-- begins with its, a port or a path there.
pub data Reaches (name : Bytes) : Bytes → Type 0 where
  by_name : Reaches name name
  with_user : (user rest : Bytes) → Reaches name (user ++ ((b'@' ∷ name) ++ rest))
  with_port : (rest : Bytes) → Reaches name ((name ++ b':' ∷ []) ++ rest)

contains-append : (s t u : Bytes) → contains (s ++ (t ++ u)) t ≡ true
unfolding contains has_prefix
contains-append [] [] [] = refl
contains-append [] [] (c ∷ u) = refl
contains-append [] (c ∷ t) u = let h = has_prefix-append (c ∷ t) u in ground (arith, h)
contains-append (c ∷ s) t u = let h = contains-append s t u in ground (arith, h)

targets-Reaches : (name word : Bytes) → Reaches name word → targets name word ≡ true
targets-Reaches name word by_name =
    let e : (name == name) ≡ true = (bytes_beq_iff name name).1 refl in rw e refl
targets-Reaches name word (with_user user rest) =
    let found = contains-append user (b'@' ∷ name) rest in ground (arith, found)
targets-Reaches name word (with_port rest) =
    let found = has_prefix-append (name ++ b':' ∷ []) rest in ground (arith, found)

abbrev pub IsClosed : Bytes → Type 0
IsClosed [] = Unit
IsClosed (c ∷ s) = is_separator c ≡ true

-- The keys hold the word, between separators or the ends.
pub data Types (word : Bytes) : Bytes → Type 0 where
  first : (behind : Bytes) → IsClosed behind → Types word (word ++ behind)
  further :
      (before : Bytes) (c : ℕ) (rest : Bytes)
      → is_separator c ≡ true
      → Types word rest
      → Types word (before ++ (c ∷ rest))

split_by-word :
    (word behind : Bytes)
    → IsPlain word
    → IsClosed behind
    → (rest : List Bytes) × (split_by is_separator (word ++ behind) ≡ word ∷ rest)
unfolding split_by
split_by-word [] [] _ _ = ([], refl)
split_by-word [] (c ∷ s) _ h = (split_by is_separator s, rw h refl)
split_by-word (c ∷ word) behind (plain, plains) h =
    let (rest, e) = split_by-word word behind plains h in (rest, rw (plain, e) refl)

split_by-further :
    (before : Bytes) (c : ℕ) (s : Bytes)
    → is_separator c ≡ true
    → (p : Bytes) × (ps : List Bytes) × (split_by is_separator (before ++ (c ∷ s))
        ≡ p ∷ (ps ++ split_by is_separator s))
unfolding split_by
split_by-further [] c s h = ([], [], rw h refl)
split_by-further (d ∷ before) c s h =
    let (p, ps, e) = split_by-further before c s h in
    elim (Bool-cases (is_separator d)) [
      | inl sep ↦ ([], p ∷ ps, rw (sep, e) refl)
      | inr plain ↦ (d ∷ p, ps, rw (plain, e) refl)
    ]

module _ (q : Bytes → Bool) where
  abbrev AnyFilled : List Bytes → Type 0
  AnyFilled ps = any q (keep (λ f. not (f == [])) ps) ≡ true

  AnyFilled-cons : (p : Bytes) (ps : List Bytes) → AnyFilled ps → AnyFilled (p ∷ ps)
  unfolding any keep bytes_beq
  AnyFilled-cons [] ps h = h
  AnyFilled-cons (c ∷ p) ps h = ground (arith, h)

  AnyFilled-here : (p : Bytes) (ps : List Bytes) → p ≢ [] → q p ≡ true → AnyFilled (p ∷ ps)
  unfolding any keep bytes_beq
  AnyFilled-here [] ps filled h = absurd (filled refl)
  AnyFilled-here (c ∷ p) ps filled h = rw h refl

  AnyFilled-append : (ps rest : List Bytes) → AnyFilled rest → AnyFilled (ps ++ rest)
  AnyFilled-append [] rest h = h
  AnyFilled-append (p ∷ ps) rest h = AnyFilled-cons p (ps ++ rest) (AnyFilled-append ps rest h)

  any-fields_func :
      (word keys : Bytes)
      → IsPlain word
      → word ≢ []
      → q word ≡ true
      → Types word keys
      → any q (fields_func is_separator keys) ≡ true
  unfolding fields_func
  any-fields_func word keys plain filled h (first behind closed) =
      let (rest, e) = split_by-word word behind plain closed in
      rw e (AnyFilled-here word rest filled h)
  any-fields_func word keys plain filled h (further before c rest sep k) =
      let (p, ps, e) = split_by-further before c rest sep in
      rw e (
        AnyFilled-cons p (ps ++ split_by is_separator rest) (
          AnyFilled-append ps (split_by is_separator rest)
            (any-fields_func word rest plain filled h k)))

host_mentioned_in-Reaches :
    (h : Host) (word keys : Bytes)
    → IsPlain word
    → word ≢ []
    → Reaches h.name word
    → Types word keys
    → host_mentioned_in keys h ≡ true
unfolding host_mentioned_in
host_mentioned_in-Reaches h word keys plain filled reaches types =
    let found =
      any-fields_func (targets h.name) word keys plain filled (targets-Reaches h.name word reaches)
        types in
    ground (arith, found)

is_filled : (s : Bytes) → s ≢ [] → (s == []) ≡ false
unfolding bytes_beq
is_filled [] h = absurd (h refl)
is_filled (c ∷ s) h = refl

reminder_for-filled : (h : Host) → reminder_for h ≢ []
reminder_for-filled h e = absurd cc

reminder_among-filled :
    (keys : Bytes) (before : List Host) (h : Host) (behind : List Host)
    → note_of h ≢ []
    → host_mentioned_in keys h ≡ true
    → reminder_among keys (before ++ (h ∷ behind)) ≢ []
unfolding reminder_among
reminder_among-filled keys [] h behind noted mentioned =
    rw (is_filled (note_of h) noted, mentioned) (reminder_for-filled h)
reminder_among-filled keys (g ∷ before) h behind noted mentioned =
    elim (Bool-cases (note_of g == [] || not (host_mentioned_in keys g))) [
      | inl skip ↦ rw skip (reminder_among-filled keys before h behind noted mentioned)
      | inr told ↦ rw told (reminder_for-filled g)
    ]

-- A line stands in its section.
concat_map-append :
    (f : Host → Bytes) (before : List Host) (h : Host) (behind : List Host)
    → concat_map f (before ++ (h ∷ behind)) ≡ concat_map f before ++ (f h ++ concat_map f behind)
unfolding concat_map
concat_map-append f [] h behind = refl
concat_map-append f (g ∷ before) h behind =
    ap (◌++◌ (f g)) (concat_map-append f before h behind)
    ∙ sym (append_assoc (f g) (concat_map f before) (f h ++ concat_map f behind))

-- A line of the text.
abbrev pub Holds : (line text : Bytes) → Type 0
Holds line text = (before : Bytes) × (behind : Bytes) × (text ≡ before ++ (line ++ behind))

section-filled :
    (title : Bytes) (f : Host → Bytes) (before : List Host) (h : Host) (behind : List Host)
    → section title f (before ++ (h ∷ behind)) ≡ title ++ concat_map f (before ++ (h ∷ behind))
section-filled title f [] h behind = refl
section-filled title f (g ∷ before) h behind = refl

section-Holds :
    (title : Bytes) (f : Host → Bytes) (before : List Host) (h : Host) (behind : List Host)
    (start line : Bytes)
    → f h ≡ start ++ line
    → Holds line (section title f (before ++ (h ∷ behind)))
section-Holds title f before h behind start line e =
    let front = concat_map f before in
    let back = concat_map f behind in
    (
      (title ++ front) ++ start,
      back,
      section-filled title f before h behind
          ∙ ap (◌++◌ title) (concat_map-append f before h behind ∙ ap (λ l. front ++ (l ++ back)) e)
          ∙ simp append_assoc refl,
    )

host_lines-noted :
    (h : Host) → note_of h ≢ [] → (start : Bytes) × (host_lines h ≡ start ++ note_line (note_of h))
host_lines-noted h noted = (heading h, rw (is_filled (note_of h) noted) refl)

-- The M-level readings of the hosts.
told_of :
    {B : Type 0}
    → (f : List Host → B) (hosts : List Host) (db db1 : Db) → list_hosts db ≡ (ok hosts, db1)
    → (listed list_hosts >>= λ hs. pure (f hs)) db ≡ (ok (f hosts), db1)
unfolding ◌>>=◌ continue caught catch pure
told_of f hosts db db1 e = ap (λ r. (ok (f (result_or r.0 [])), r.1)) e

-- Where the hosts can be listed, the note of each host that has one stands in the inventory of the
-- prompt, cut to 400 bytes; and keys with "ssh" in them that hold a word by which the host is
-- meant, one without separators and between separators or the ends, give the model a reminder.
pub inventory_prompt-pre_connect_reminder :
    (db db1 : Db) (before : List Host) (h : Host) (behind : List Host) (word keys : Bytes)
    → list_hosts db ≡ (ok (before ++ (h ∷ behind)), db1)
    → note_of h ≢ []
    → contains keys (codes "ssh") ≡ true
    → IsPlain word
    → word ≢ []
    → Reaches h.name word
    → Types word keys
    → ((prompt : Bytes) × (inventory_prompt db ≡ (ok prompt, db1))
        × Holds (note_line (note_of h)) prompt)
      × ((text : Bytes) × (pre_connect_reminder keys db ≡ (ok text, db1)) × (text ≢ []))
unfolding inventory_prompt pre_connect_reminder
inventory_prompt-pre_connect_reminder db db1 before h behind word keys e noted ssh plain filled
      reaches types =
    let hosts = before ++ (h ∷ behind) in
    let (start, lines) = host_lines-noted h noted in
    let mentioned = host_mentioned_in-Reaches h word keys plain filled reaches types in
    (
      (
        section inventory_title host_lines hosts,
        told_of (section inventory_title host_lines) hosts db db1 e,
        section-Holds inventory_title host_lines before h behind start (note_line (note_of h))
            lines,
      ),
      (
        reminder_among keys hosts,
        rw ssh (told_of (reminder_among keys) hosts db db1 e),
        reminder_among-filled keys before h behind noted mentioned,
      ),
    )
