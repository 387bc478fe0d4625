-- ===== src/Agent/Prompts.antt =====
-- internal/agent/tools.go: what the model is told of the operator's facts and hosts, in the prompt
-- and when it types ssh.
pub mod Notes
use hopskip.Base.{
  ℕ, zero, suc, ◌+◌, ◌≡◌, ◌≢◌, refl, ap, sym, ◌∙◌, Bool, true, false, not, ◌&&◌, ◌||◌, Option, none,
  some, List, [], ◌∷◌, ◌++◌, append_assoc, map, any, keep, lookup, All, if◌then◌else◌, Bool-cases,
  ◌⊎◌, inl, inr, arith, ◌==◌, nat_eq, bytes_eq, bytes_beq, pair_eq, int_eq, bytes_leb, ℤ, pos,
  negsuc,
}
use hopskip.Text.{Bytes, codes}
use hopskip.Text.Trim.{trim_space}
use hopskip.Text.Parts.{push, join}
use hopskip.Text.Search.{has_prefix, contains}
use hopskip.Store.Rows.{order_by}
use hopskip.Store.Tables.{Knowledge}
use hopskip.Store.Db.{Result, ok, err, Db, M, pure, catch, ◌>>=◌, result_or}
use hopskip.Store.Hosts.{Host, list_hosts}
use hopskip.Store.Settings.{list_knowledge}
use hopskip.Agent.Events.{clip}
use hopskip.Agent.Limits.{itoa}

-- What a query gives, nothing where it fails.
abbrev pub listed : {A : Type 0} → M (List A) → M (List A)
listed m = catch m >>= λ r. pure (result_or r [])

abbrev pub show_id : ℤ → Bytes
show_id (pos n) = itoa n
show_id (negsuc n) = b'-' ∷ itoa (suc n)

abbrev em_dash : Bytes
em_dash = 0xe2 ∷ 0x80 ∷ 0x94 ∷ []

abbrev pub knowledge_line : Knowledge → Bytes
knowledge_line k = codes "- (#" ++ show_id k.id ++ codes ") " ++ k.text ++ codes "\n"

-- The lines of a section.
unfoldable pub concat_map {ℓ} : {A : Type ℓ} → (A → Bytes) → List A → Bytes
concat_map f [] = []
concat_map f (x ∷ xs) = f x ++ concat_map f xs

-- A section of the prompt, which is not there where it has no lines.
abbrev pub section {ℓ} : {A : Type ℓ} → (title : Bytes) → (A → Bytes) → List A → Bytes
section title f [] = []
section title f (x ∷ xs) = title ++ concat_map f (x ∷ xs)

abbrev pub knowledge_title : Bytes
knowledge_title =
    codes "\n\nOPERATOR KNOWLEDGE "
    ++ em_dash
    ++ codes
        " durable facts and instructions the operator told you to remember. Treat them as authoritative and apply them:\n"

unfoldable pub knowledge_prompt : M Bytes
unfolding concat_map
knowledge_prompt = listed list_knowledge >>= λ ks. pure (section knowledge_title knowledge_line ks)

unfoldable pub join_tags : List (Bytes × Bytes) → Bytes
join_tags tags =
    join (codes ", ")
      (map (λ t. t.0 ++ codes "=" ++ t.1) (order_by (λ a b. bytes_leb a.0 b.0) tags))

abbrev pub note_of : Host → Bytes
note_of h = trim_space h.notes

abbrev pub max_note : ℕ
max_note = 400

abbrev pub tags_part : List (Bytes × Bytes) → Bytes
tags_part [] = []
tags_part (t ∷ ts) = codes " [" ++ join_tags (t ∷ ts) ++ codes "]"

abbrev pub note_line : Bytes → Bytes
note_line note = codes "    note: " ++ clip note max_note ++ codes "\n"

abbrev pub heading : Host → Bytes
heading h = codes "- " ++ h.name ++ tags_part h.tags ++ codes "\n"

abbrev pub host_lines : Host → Bytes
host_lines h = heading h ++ (if note_of h == [] then [] else note_line (note_of h))

abbrev pub inventory_title : Bytes
inventory_title =
    codes "\n\nFLEET INVENTORY "
    ++ em_dash
    ++ codes
        " the operator's hosts, with their notes and tags. A host NOTE IS AUTHORITATIVE: if it states something to do before connecting (e.g. \"run X first\"), you MUST do it in a laptop session BEFORE you ssh to that host. Re-read the note each time you connect to that host.\n"

unfoldable pub inventory_prompt : M Bytes
unfolding concat_map
inventory_prompt = listed list_hosts >>= λ hosts. pure (section inventory_title host_lines hosts)

abbrev pub is_separator : ℕ → Bool
is_separator c = c == 32 || c == 9 || c == 10 || c == 13 || c == b';' || c == b'&' || c == b'|'

-- The parts between the bytes that satisfy `p`.
unfoldable pub split_by : (p : ℕ → Bool) → Bytes → List Bytes
split_by p [] = [] ∷ []
split_by p (c ∷ s) = let rest = split_by p s in if p c then [] ∷ rest else push c rest

-- `strings.FieldsFunc`
unfoldable pub fields_func : (p : ℕ → Bool) → Bytes → List Bytes
unfolding split_by
fields_func p s = keep (λ f. not (f == [])) (split_by p s)

-- A typed word that names the host.
abbrev pub targets : (name : Bytes) → Bytes → Bool
targets name f = f == name || contains f (b'@' ∷ name) || has_prefix f (name ++ b':' ∷ [])

abbrev pub found_or_empty : Option Bytes → Bytes
found_or_empty none = []
found_or_empty (some v) = v

abbrev pub ssh_tag : Host → Bytes
ssh_tag h = trim_space (found_or_empty (lookup (codes "ssh") h.tags))

unfoldable pub host_mentioned_in : Bytes → Host → Bool
unfolding fields_func
host_mentioned_in keys h =
    any (targets h.name) (fields_func is_separator keys)
    || (not (ssh_tag h == []) && contains keys (ssh_tag h))

abbrev pub reminder_for : Host → Bytes
reminder_for h =
    codes "host '"
    ++ h.name
    ++ codes "' has an operator note: "
    ++ clip (note_of h) max_note
    ++ codes " "
    ++ em_dash
    ++ codes
        " if it requires a pre-connection step you have NOT done yet, exit back to the laptop, do it, then reconnect."

-- That of the first host with a note that the keys mention.
unfoldable pub reminder_among : Bytes → List Host → Bytes
unfolding host_mentioned_in
reminder_among keys [] = []
reminder_among keys (h ∷ hs) =
    let rest = reminder_among keys hs in
    if note_of h == [] || not (host_mentioned_in keys h) then rest else reminder_for h

unfoldable pub pre_connect_reminder : Bytes → M Bytes
unfolding reminder_among
pre_connect_reminder keys =
    if contains keys (codes "ssh")
    then (listed list_hosts >>= λ hosts. pure (reminder_among keys hosts))
    else pure []
