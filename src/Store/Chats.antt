-- ===== src/Store/Chats.antt =====
-- internal/store/chat.go: saved conversations and their transcripts.
pub mod Titles
pub mod Reads
use hopskip.Base.{
  ℕ, zero, suc, ◌+◌, ◌-◌, ◌≤◌, ◌<◌, ◌≡◌, refl, sym, ap, ◌∙◌, ◌≢◌, ◌↔◌, ◌⊎◌, inl, inr, Bool, true,
  false, not, ◌&&◌, ◌||◌, Option, none, some, List, [], ◌∷◌, ◌++◌, map, append-nil, append_assoc,
  arith, ltb, leb, if◌then◌else◌, Bool-cases, Option-cases, Eq, ◌==◌, eq_iff, eq_refl, nat_eq,
  bytes_eq, bytes_beq_iff, pair_eq, bytes_leb, ℤ, pos, negsuc, int_eq, int_leb, int_beq_iff, length,
  take, drop, keep, find, any, all, All,
}
use hopskip.Text.{Bytes, codes}
use hopskip.Text.{replace, ellipsis}
use hopskip.Text.Trim.{trim_space}
use hopskip.Store.Tables.{
  Tables, ChatMeta, MessageRow, Error, not_found, unique_violation, foreign_key_violation,
}
use hopskip.Store.Rows.{
  update_where, delete_where, order_by, next_id, at_key, has, row, upsert, Keyed,
}
use hopskip.Store.Db.{
  Result, ok, err, Db, M, calm, pure, fail, exec, query, catch, ◌>>=◌, ◌>>◌, transaction, result_or,
}

pub record ChatMessage : Type 0 where
  pub role : Bytes
  pub text : Bytes
  pub created_at : Bytes

abbrev pub newline : ℕ
newline = 10

unfoldable pub cut_at : ℕ → Bytes → Bytes
cut_at n s = if ltb n (length s) then take n s ++ ellipsis else s

unfoldable pub trunc_title : Bytes → Bytes
unfolding cut_at
trunc_title s = cut_at 48 (trim_space (replace newline b' ' s))

abbrev pub chat_id : ChatMeta → Bytes
chat_id c = c.id

abbrev pub empty_chat : Bytes → Bytes → ChatMeta
empty_chat now id = record { id = id; title = []; created_at = now; updated_at = now }

-- The id is 8 random bytes in hexadecimal.
unfoldable pub create_chat : Bytes → Bytes → M Bytes
create_chat now random_id = exec λ t.
    if has chat_id random_id t.chats
    then err unique_violation
    else ok (random_id, record t { chats = t.chats ++ empty_chat now random_id ∷ [] })

pub ensure_chat : Bytes → Bytes → M Unit
ensure_chat now id = exec λ t.
    if has chat_id id t.chats
    then ok (tt, t)
    else ok (tt, record t { chats = t.chats ++ empty_chat now id ∷ [] })

pub list_chats : M (List ChatMeta)
list_chats = query (λ t. order_by (λ a b. bytes_leb b.updated_at a.updated_at) t.chats)

-- The messages go with their chat (ON DELETE CASCADE).
unfoldable pub delete_chat : Bytes → M Unit
delete_chat id = exec λ t. ok (
  tt,
  record t {
    chats = delete_where (at_key chat_id id) t.chats;
    chat_messages = delete_where (λ m. m.chat_id == id) t.chat_messages;
  },
)

unfoldable pub rename_chat : Bytes → Bytes → M Unit
rename_chat id title = exec λ t. ok (
  tt,
  record t { chats = update_where (at_key chat_id id) (λ c. record c { title = title }) t.chats },
)

abbrev pub message_id : MessageRow → ℤ
message_id m = m.id

abbrev pub user : Bytes
user = codes "user"

pub insert_message : Bytes → Bytes → Bytes → Bytes → M Unit
insert_message now id role text = exec λ t.
    let new : MessageRow = record {
      id = next_id message_id t.chat_messages;
      chat_id = id;
      role = role;
      text = text;
      created_at = now;
    } in
    if has chat_id id t.chats
    then ok (tt, record t { chat_messages = t.chat_messages ++ new ∷ [] })
    else err foreign_key_violation

abbrev pub touch : Bytes → ChatMeta → ChatMeta
touch now c = record c { updated_at = now }

abbrev pub entitle : Bytes → ChatMeta → ChatMeta
entitle text c = record c { title = trunc_title text }

abbrev pub untitled : Bytes → ChatMeta → Bool
untitled id c = c.id == id && c.title == []

pub title_from : Bytes → Bytes → Bytes → M Unit
title_from id role text =
    if role == user
    then (do
      catch (
          exec
            (λ t. ok (tt, record t { chats = update_where (untitled id) (entitle text) t.chats })))
      pure tt)
    else pure tt

-- Only an error of the INSERT is returned.
pub add_chat_message : Bytes → Bytes → Bytes → Bytes → M Unit
unfolding insert_message title_from
add_chat_message now id role text = do
  insert_message now id role text
  catch
      (exec λ t. ok (tt, record t { chats = update_where (at_key chat_id id) (touch now) t.chats }))
  title_from id role text

abbrev pub shown : MessageRow → ChatMessage
shown m = record { role = m.role; text = m.text; created_at = m.created_at }

abbrev pub transcript : Bytes → Tables → List ChatMessage
transcript id t =
    map shown (order_by (λ a b. int_leb a.id b.id) (keep (λ m. m.chat_id == id) t.chat_messages))

pub list_chat_messages : Bytes → M (List ChatMessage)
list_chat_messages id = query (transcript id)
