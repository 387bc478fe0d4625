-- ===== src/Server/Recorder.antt =====
-- internal/server/ws.go: the recorder, which persists what a run streams; and the sizes of a
-- terminal.
pub mod Transcripts
pub mod Runs
use hopskip.Base.{
  ℕ, zero, suc, ◌+◌, ◌-◌, ◌*◌, ◌≤◌, ◌<◌, ◌≡◌, refl, sym, ap, ◌∙◌, ◌≢◌, ◌↔◌, ◌⊎◌, inl, inr, Bool,
  true, false, not, ◌&&◌, ◌||◌, Option, none, some, List, [], ◌∷◌, ◌++◌, map, append-nil,
  append_assoc, arith, ltb, leb, if◌then◌else◌, Bool-cases, Option-cases, Eq, ◌==◌, eq_iff, eq_refl,
  nat_eq, bytes_eq, bytes_beq, bytes_beq_iff, pair_eq, bytes_leb, ℤ, pos, negsuc, int_eq, int_leb,
  int_beq_iff, length, take, drop, min, keep, find, any, all, All,
}
use hopskip.Text.{Bytes, codes}
use hopskip.Store.Rows.{
  update_where, delete_where, order_by, insert_by, next_id, at_key, has, row, upsert, Keyed,
}
use hopskip.Store.Db.{
  Result, ok, err, Db, M, calm, pure, fail, exec, query, catch, ◌>>=◌, ◌>>◌, transaction, result_or,
}
use hopskip.Store.Tables.{Tables}
use hopskip.Store.Chats.{add_chat_message}
use hopskip.Agent.Events.{Event, thinking, done, token, tool_use, tool_result, notice, error, usage}

pub record Recorder : Type 0 where
  pub chat_id : Bytes
  -- the text of the assistant that is not yet stored
  pub asst : Bytes

abbrev pub assistant : Bytes
assistant = codes "assistant"

-- The error of a message that could not be stored is read by nobody.
unfoldable pub store_line : (now : Bytes) → Recorder → (role text : Bytes) → Db → Db
store_line now r role text db = (add_chat_message now r.chat_id role text db).1

unfoldable pub flush_assistant : Bytes → Recorder → Db → Recorder × Db
unfolding store_line
flush_assistant now r db =
    if r.asst == [] then (r, db) else (record r { asst = [] }, store_line now r assistant r.asst db)

-- The kinds of event that are stored, with what has been streamed stored before them.
abbrev pub flush_and_store : Bytes → (role text : Bytes) → Recorder → Db → Recorder × Db
flush_and_store now role text r db =
    let (r1, db1) = flush_assistant now r db in (r1, store_line now r1 role text db1)

-- `emit`, less the frame that goes to the browser.
unfoldable pub emit : (now : Bytes) → Event → Recorder → Db → Recorder × Db
unfolding flush_assistant
emit now (token text) r db = (record r { asst = r.asst ++ text }, db)
emit now (tool_use text) r db = flush_and_store now (codes "tool") text r db
emit now (tool_result text) r db = (r, store_line now r (codes "tool-result") text db)
emit now (notice text) r db = flush_and_store now (codes "notice") text r db
emit now (error text) r db = flush_and_store now (codes "error") text r db
emit now done r db = flush_assistant now r db
emit now thinking r db = (r, db)
emit now (usage i o) r db = (r, db)

unfoldable pub emit_all : (now : Bytes) → List Event → Recorder → Db → Recorder × Db
unfolding emit
emit_all now [] r db = (r, db)
emit_all now (e ∷ es) r db = let (r1, db1) = emit now e r db in emit_all now es r1 db1

unfoldable pub uint16_from : (default n : ℕ) → Bytes → ℕ
uint16_from default n [] = if n == 0 then default else n
uint16_from default n (c ∷ s) =
    let m = n * 10 + (c - b'0') in
    let rest = uint16_from default m s in
    if not (leb b'0' c && leb c b'9') then default else if ltb 65535 m then default else rest

-- `parseUint16`
unfoldable pub parse_uint16 : Bytes → ℕ → ℕ
unfolding uint16_from
parse_uint16 s default = if s == [] then default else uint16_from default 0 s
