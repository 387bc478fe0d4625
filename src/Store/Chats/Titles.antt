-- ===== src/Store/Chats/Titles.antt =====
-- Transcripts and titles of chats, on a driver that fails nothing.
use hopskip.Base.{
  ◌≡◌, refl, ap, ◌∙◌, ◌≢◌, inl, inr, Bool, true, false, ◌&&◌, none, List, [], ◌∷◌, ◌++◌, map,
  append-nil, arith, if◌then◌else◌, Bool-cases, ◌==◌, eq_refl, nat_eq, bytes_eq, bytes_beq_iff,
  pair_eq, int_eq, int_leb, keep, find,
}
use hopskip.Text.{Bytes}
use mathlib.Core.Option
use hopskip.Base.{All-keep}
use hopskip.Store.Tables.{Tables, ChatMeta, MessageRow, foreign_key_violation}
use hopskip.Store.Rows.Laws.{row-delete, order-append, next_id-last}
use hopskip.Store.Rows.{update_where, delete_where, order_by, next_id, at_key, has, row}
use hopskip.Store.Db.{ok, err, calm, ◌>>=◌}
use hopskip.Store.Chats.{
  ChatMessage, trunc_title, chat_id, delete_chat, message_id, user, insert_message, touch, entitle,
  untitled, title_from, add_chat_message, shown, transcript,
}

-- The chat after a message: its time is the message's, and a message of the user gives a title to
-- a chat that has none.
abbrev pub after_message : Bytes → Bytes → Bytes → ChatMeta → ChatMeta
after_message now role text c =
    if role == user && c.title == []
    then record c { updated_at = now; title = trunc_title text }
    else record c { updated_at = now }

abbrev new_message : Bytes → Bytes → Bytes → Bytes → Tables → MessageRow
new_message now id role text t = record {
  id = next_id message_id t.chat_messages;
  chat_id = id;
  role = role;
  text = text;
  created_at = now;
}

abbrev retitled : Bytes → Bytes → Bytes → Bytes → List ChatMeta → List ChatMeta
retitled now id role text cs =
    let touched = update_where (at_key chat_id id) (touch now) cs in
    if role == user then update_where (untitled id) (entitle text) touched else touched

add_chat_message_lem :
    (now id role text : Bytes) (t : Tables)
    → has chat_id id t.chats ≡ true
    → add_chat_message now id role text (calm t) ≡ (
      ok tt,
      calm (record t {
        chat_messages = t.chat_messages ++ new_message now id role text t ∷ [];
        chats = retitled now id role text t.chats;
      }),
    )
unfolding add_chat_message ◌>>=◌ insert_message title_from
add_chat_message_lem now id role text t there = elim (Bool-cases (role == user)) [
  | inl e ↦ rw (there, e)
  | inr e ↦ rw (there, e)
]

row-retitled :
    (now id role text j : Bytes) (cs : List ChatMeta)
    → row chat_id j (retitled now id role text cs) ≡ (
        if j == id
        then Option.map (after_message now role text) (row chat_id j cs)
        else row chat_id j cs)
unfolding update_where find
row-retitled now id role text j [] = ground arith
row-retitled now id role text j (c ∷ cs) = ground (
  arith,
  row-retitled now id role text j cs,
  bytes_beq_iff c.id id,
  bytes_beq_iff c.id j,
  bytes_beq_iff j id,
)

in_chat : Bytes → MessageRow → Bool
in_chat id m = m.chat_id == id

keep-append :
    (p : MessageRow → Bool) (ms : List MessageRow) (m : MessageRow)
    → keep p (ms ++ m ∷ []) ≡ keep p ms ++ (if p m then m ∷ [] else [])
unfolding keep
keep-append p [] m = ground arith
keep-append p (x ∷ ms) m = ground (arith, keep-append p ms m)

map-append_one :
    (ms : List MessageRow) (m : MessageRow)
    → map shown (ms ++ m ∷ []) ≡ map shown ms ++ shown m ∷ []
map-append_one [] m = refl
map-append_one (x ∷ ms) m = ap (◌∷◌ (shown x)) (map-append_one ms m)

transcript-append :
    (now id role text : Bytes) (t : Tables) (chats : List ChatMeta)
    → transcript id (record t {
      chat_messages = t.chat_messages ++ new_message now id role text t ∷ [];
      chats = chats;
    })
      ≡ transcript id t ++ record { role = role; text = text; created_at = now } ∷ []
transcript-append now id role text t chats =
    rw
      (
        keep-append (λ m. m.chat_id == id) t.chat_messages (new_message now id role text t),
        eq_refl id,
      )
      (rw
        (order-append _ (new_message now id role text t) _ (
          All-keep _ (λ m. m.chat_id == id) t.chat_messages
            (next_id-last message_id t.chat_messages)))
        (map-append_one _ _))

transcript_other :
    (now id role text j : Bytes) (t : Tables) (chats : List ChatMeta)
    → j ≢ id
    → transcript j (record t {
      chat_messages = t.chat_messages ++ new_message now id role text t ∷ [];
      chats = chats;
    })
      ≡ transcript j t
transcript_other now id role text j t chats ne =
    let off : (id == j) ≡ false = ground (arith, bytes_beq_iff id j) in
    rw (
      keep-append (λ m. m.chat_id == j) t.chat_messages (new_message now id role text t),
      off,
      append-nil,
    )

-- With a driver that fails nothing, a message to a chat of the table is stored as the last line of
-- the chat's transcript and leaves the other transcripts alone; the chat gets the message's time
-- and, if the message is the user's and the chat has no title, a title from the text; the other
-- chats stay as they are.
pub add_chat_message-transcript :
    (now id role text : Bytes) (t : Tables)
    → has chat_id id t.chats ≡ true
    → (u : Tables) × (add_chat_message now id role text (calm t) ≡ (ok tt, calm u))
      × (transcript id u
          ≡ transcript id t ++ record { role = role; text = text; created_at = now } ∷ [])
      × ((j : Bytes) → j ≢ id → transcript j u ≡ transcript j t)
      × ((j : Bytes)
          → row chat_id j u.chats ≡ (
              if j == id
              then Option.map (after_message now role text) (row chat_id j t.chats)
              else row chat_id j t.chats))
add_chat_message-transcript now id role text t there = (
  record t {
    chat_messages = t.chat_messages ++ new_message now id role text t ∷ [];
    chats = retitled now id role text t.chats;
  },
  add_chat_message_lem now id role text t there,
  transcript-append now id role text t (retitled now id role text t.chats),
  λ j. transcript_other now id role text j t (retitled now id role text t.chats),
  λ j. row-retitled now id role text j t.chats,
)

keep-delete_self :
    (id : Bytes) (ms : List MessageRow)
    → keep (λ m. m.chat_id == id) (delete_where (λ m. m.chat_id == id) ms) ≡ []
unfolding keep delete_where
keep-delete_self id [] = refl
keep-delete_self id (m ∷ ms) = ground (arith, keep-delete_self id ms)

keep-delete_other :
    (id j : Bytes) (ms : List MessageRow)
    → j ≢ id
    → keep (λ m. m.chat_id == j) (delete_where (λ m. m.chat_id == id) ms)
      ≡ keep (λ m. m.chat_id == j) ms
unfolding keep delete_where
keep-delete_other id j [] ne = refl
keep-delete_other id j (m ∷ ms) ne =
    ground
      (arith, keep-delete_other id j ms ne, bytes_beq_iff m.chat_id id, bytes_beq_iff m.chat_id j)

abbrev pub in_order : List MessageRow → List ChatMessage
in_order ms = map shown (order_by (λ a b. int_leb a.id b.id) ms)

in_order-nil : in_order [] ≡ []
unfolding order_by
in_order-nil = refl

-- With a driver that fails nothing, a deleted chat is gone with its transcript, and the other chats
-- and transcripts stay.
pub delete_chat-transcript :
    (id : Bytes) (t : Tables)
    → (u : Tables) × (delete_chat id (calm t) ≡ (ok tt, calm u))
      × (transcript id u ≡ [])
      × ((j : Bytes) → j ≢ id → transcript j u ≡ transcript j t)
      × ((j : Bytes) → row chat_id j u.chats ≡ (if j == id then none else row chat_id j t.chats))
unfolding delete_chat ◌>>=◌
delete_chat-transcript id t = (
  record t {
    chats = delete_where (at_key chat_id id) t.chats;
    chat_messages = delete_where (λ m. m.chat_id == id) t.chat_messages;
  },
  refl,
  ap in_order (keep-delete_self id t.chat_messages) ∙ in_order-nil,
  λ j ne. ap in_order (keep-delete_other id j t.chat_messages ne),
  λ j. row-delete chat_id j id t.chats,
)

-- A chat whose row is missing refuses messages, even with a driver that fails nothing, and nothing
-- is stored.
pub add_chat_message_missing :
    (now id role text : Bytes) (t : Tables)
    → has chat_id id t.chats ≡ false
    → add_chat_message now id role text (calm t) ≡ (err foreign_key_violation, calm t)
unfolding add_chat_message ◌>>=◌ insert_message
add_chat_message_missing now id role text t gone = rw gone
