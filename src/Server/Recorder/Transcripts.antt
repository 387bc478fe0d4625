-- ===== src/Server/Recorder/Transcripts.antt =====
-- What the recorder stores, step by step.
use hopskip.Base.{
  ℕ, ◌≡◌, refl, sym, ap, ◌∙◌, ◌≢◌, inl, inr, true, false, Option, none, some, List, [], ◌∷◌, ◌++◌,
  map, append-nil, append_assoc, if◌then◌else◌, Bool-cases, ◌==◌, eq_refl, nat_eq, bytes_eq,
  bytes_beq, bytes_beq_iff, pair_eq, int_eq,
}
use hopskip.Text.{Bytes, codes}
use hopskip.Store.Rows.{has, row}
use hopskip.Store.Db.{Db, calm}
use mathlib.Core.Option
use hopskip.Base.{bytes_beq}
use hopskip.Store.Tables.{Tables}
use hopskip.Store.Rows.Laws.{has-row, is_some}
use hopskip.Store.Chats.{ChatMessage, chat_id, transcript}
use hopskip.Store.Chats.Titles.{add_chat_message-transcript}
use hopskip.Agent.Events.{Event, thinking, done, token, tool_use, tool_result, notice, error, usage}
use hopskip.Server.Recorder.{Recorder, assistant, store_line, flush_assistant, emit_all}

-- Text of the assistant byte by byte, and the other lines whole.
pub data Piece : Type 0 where
  byte : ℕ → Piece
  line : (role text : Bytes) → Piece

abbrev pub bytes_of : Bytes → List Piece
bytes_of = map byte

unfoldable pub stored_pieces : List ChatMessage → List Piece
stored_pieces [] = []
stored_pieces (m ∷ ms) =
    (if m.role == assistant then bytes_of m.text else line m.role m.text ∷ []) ++ stored_pieces ms

-- What an event shows of it, if anything.
abbrev pub shows : Event → List Piece
shows (token text) = bytes_of text
shows (tool_use text) = line (codes "tool") text ∷ []
shows (tool_result text) = line (codes "tool-result") text ∷ []
shows (notice text) = line (codes "notice") text ∷ []
shows (error text) = line (codes "error") text ∷ []
shows done = []
shows thinking = []
shows (usage i o) = []

unfoldable pub streamed_pieces : List Event → List Piece
streamed_pieces [] = []
streamed_pieces (e ∷ es) = shows e ++ streamed_pieces es

-- From one state of the tables to another, these lines have been added to the chat and to no other.
pub record Adds (id : Bytes) (t u : Tables) (ls : List ChatMessage) : Type 0 where
  pub there : has chat_id id u.chats ≡ true
  pub stored : transcript id u ≡ transcript id t ++ ls
  pub others : (j : Bytes) → j ≢ id → transcript j u ≡ transcript j t

Adds-none : {id : Bytes} (t : Tables) → has chat_id id t.chats ≡ true → Adds id t t []
Adds-none t h = record { there = h; stored = sym (append-nil _); others = λ j ne. refl }

Adds-trans :
    {id : Bytes} {t u v : Tables} {ls ms : List ChatMessage}
    → Adds id t u ls
    → Adds id u v ms
    → Adds id t v (ls ++ ms)
Adds-trans {id} {t} {u} {v} {ls} {ms} a b = record {
  there = b.there;
  stored = b.stored ∙ rw a.stored (append_assoc (transcript id t) ls ms);
  others = λ j ne. b.others j ne ∙ a.others j ne;
}

stored_pieces-append :
    (ls ms : List ChatMessage) → stored_pieces (ls ++ ms) ≡ stored_pieces ls ++ stored_pieces ms
unfolding stored_pieces
stored_pieces-append [] ms = refl
stored_pieces-append (l ∷ ls) ms = rw (stored_pieces-append ls ms, append_assoc) refl

is_some-map {ℓ κ} :
    {A : Type ℓ} {B : Type κ} (f : A → B) (o : Option A) → is_some (Option.map f o) ≡ is_some o
is_some-map f none = refl
is_some-map f (some a) = refl

abbrev message_of : (now role text : Bytes) → ChatMessage
message_of now role text = record { role = role; text = text; created_at = now }

store_line-Adds :
    (now : Bytes) (r : Recorder) (role text : Bytes) (t : Tables)
    → has chat_id r.chat_id t.chats ≡ true
    → (u : Tables) × (store_line now r role text (calm t) ≡ calm u)
      × Adds r.chat_id t u (message_of now role text ∷ [])
unfolding store_line
store_line-Adds now r role text t h =
    let (u, ran, stored, others, rows) = add_chat_message-transcript now r.chat_id role text t h in
    (
      u,
      ap (λ x. x.1) ran,
      record {
        there =
            has-row chat_id r.chat_id u.chats
            ∙ ap is_some (rows r.chat_id)
            ∙ rw (eq_refl r.chat_id) (
                is_some-map _ (row chat_id r.chat_id t.chats)
                ∙ sym (has-row chat_id r.chat_id t.chats)
                ∙ h);
        stored = stored;
        others = others;
      },
    )

-- What a step of the recorder stores, which leaves nothing unstored.
pub record Stores (id : Bytes) (t : Tables) (r1 : Recorder) (result : Recorder × Db)
    (pieces : List Piece) : Type 0 where
  pub after : Tables
  pub lines : List ChatMessage
  pub ran : result ≡ (r1, calm after)
  pub adds : Adds id t after lines
  pub same : stored_pieces lines ≡ pieces

abbrev pub emptied : Recorder → Recorder
emptied r = record r { asst = [] }

pub flush-Stores :
    (now : Bytes) (r : Recorder) (t : Tables)
    → has chat_id r.chat_id t.chats ≡ true
    → Stores r.chat_id t (emptied r) (flush_assistant now r (calm t)) (bytes_of r.asst)
unfolding flush_assistant stored_pieces bytes_beq
flush-Stores now r t h = elim (Bool-cases (r.asst == [])) [
  | inl e ↦
      let nothing : r.asst ≡ [] = (bytes_beq_iff r.asst []).0 e in
      record {
        after = t;
        lines = [];
        ran = rw e (ap (λ a. (record r { asst = a }, calm t)) nothing);
        adds = Adds-none t h;
        same = rw nothing refl;
      }
  | inr e ↦
      let (u, ran, adds) = store_line-Adds now r assistant r.asst t h in
      record {
        after = u;
        lines = message_of now assistant r.asst ∷ [];
        ran = rw e (ap (λ db. (emptied r, db)) ran);
        adds = adds;
        same = append-nil (bytes_of r.asst);
      }
]

-- A role that is not the assistant's.
abbrev pub IsOther : Bytes → Type 0
IsOther role = (role == assistant) ≡ false

pub store-Stores :
    (now : Bytes) (r : Recorder) (role text : Bytes) (t : Tables)
    → IsOther role
    → has chat_id r.chat_id t.chats ≡ true
    → Stores r.chat_id t r (r, store_line now r role text (calm t)) (line role text ∷ [])
unfolding stored_pieces
store-Stores now r role text t other h =
    let (u, ran, adds) = store_line-Adds now r role text t h in
    record {
      after = u;
      lines = message_of now role text ∷ [];
      ran = ap (λ db. (r, db)) ran;
      adds = adds;
      same = rw other refl;
    }

-- The whole of a run's events, from a recorder with some text unstored.
abbrev pub Records : (now : Bytes) → List Event → Recorder → Tables → Type 0
Records now es r t =
    Stores r.chat_id t (emptied r) (emit_all now es r (calm t))
      (bytes_of r.asst ++ streamed_pieces es)

-- One step, and then the rest.
pub then-Records :
    {id : Bytes} {t : Tables} {r1 r2 : Recorder} {first second : Recorder × Db}
    {ps qs all : List Piece}
    → (a : Stores id t r1 first ps) → Stores id a.after r2 second qs
    → ps ++ qs ≡ all
    → Stores id t r2 second all
then-Records a b e = record {
  after = b.after;
  lines = a.lines ++ b.lines;
  ran = b.ran;
  adds = Adds-trans a.adds b.adds;
  same = stored_pieces-append a.lines b.lines ∙ rw (a.same, b.same) e;
}
