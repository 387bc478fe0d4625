-- ===== src/Server/Recorder/Runs.antt =====
-- The recorder on the events of a whole run.
use hopskip.Base.{
  ℕ, ◌≡◌, refl, sym, ap, ◌∙◌, ◌≢◌, true, List, [], ◌∷◌, ◌++◌, append-nil, append_assoc, nat_eq,
  bytes_eq, bytes_beq, pair_eq, int_eq,
}
use hopskip.Text.{Bytes, codes}
use hopskip.Store.Rows.{has}
use hopskip.Store.Db.{calm}
use hopskip.Store.Tables.{Tables}
use hopskip.Base.{bytes_beq}
use hopskip.Store.Chats.{ChatMessage, chat_id, transcript}
use hopskip.Agent.Events.{Event, tool_use, tool_result, notice, error}
use hopskip.Agent.Trace.{Transcript, finishes, asks, works, streams, notes, fails, counts}
use hopskip.Server.Recorder.{Recorder, store_line, flush_and_store, emit, emit_all}
use hopskip.Server.Recorder.Transcripts.{
  Piece, stored_pieces, byte, line, bytes_of, streamed_pieces, Stores, emptied, flush-Stores,
  store-Stores, Records, then-Records, IsOther,
}

-- The step first, the rest of the events behind it.
next-Records :
    (now : Bytes) (e : Event) (es : List Event) (r r1 r2 : Recorder) (t : Tables)
    {ps qs : List Piece} (total : List Piece)
    → (a : Stores r.chat_id t r1 (emit now e r (calm t)) ps)
    → Stores r.chat_id a.after r2 (emit_all now es r1 (calm a.after)) qs
    → ps ++ qs ≡ total
    → Stores r.chat_id t r2 (emit_all now (e ∷ es) r (calm t)) total
unfolding emit_all
next-Records now e es r r1 r2 t total a b h =
    then-Records a
      (record {
        after = b.after;
        lines = b.lines;
        ran = ap (λ x. emit_all now es x.0 x.1) a.ran ∙ b.ran;
        adds = b.adds;
        same = b.same;
      })
      h

flush_and_store-Stores :
    (now : Bytes) (r : Recorder) (role text : Bytes) (t : Tables)
    → IsOther role
    → has chat_id r.chat_id t.chats ≡ true
    → Stores r.chat_id t
        (emptied r)
        (flush_and_store now role text r (calm t))
        (bytes_of r.asst ++ line role text ∷ [])
flush_and_store-Stores now r role text t other h =
    let a = flush-Stores now r t h in
    let b = store-Stores now (emptied r) role text a.after other a.adds.there in
    then-Records a
      (record {
        after = b.after;
        lines = b.lines;
        ran = ap (λ x. (x.0, store_line now x.0 role text x.1)) a.ran ∙ b.ran;
        adds = b.adds;
        same = b.same;
      })
      refl

map-append_bytes : (s t : Bytes) → bytes_of (s ++ t) ≡ bytes_of s ++ bytes_of t
map-append_bytes [] t = refl
map-append_bytes (c ∷ s) t = ap (◌∷◌ (byte c)) (map-append_bytes s t)

emit_all-Records :
    (now : Bytes) {n : ℕ} {es : List Event} (run : Transcript n es) (r : Recorder) (t : Tables)
    → has chat_id r.chat_id t.chats ≡ true
    → Records now es r t
unfolding emit_all emit streamed_pieces bytes_beq
emit_all-Records now finishes r t h =
    let a = flush-Stores now r t h in
    record {
      after = a.after;
      lines = a.lines;
      ran = a.ran;
      adds = a.adds;
      same = a.same ∙ sym (append-nil (bytes_of r.asst));
    }
emit_all-Records now (asks run) r t h = emit_all-Records now run r t h
emit_all-Records now (counts i o run) r t h = emit_all-Records now run r t h
emit_all-Records now (streams {es} text run) r t h =
    let a = emit_all-Records now run (record r { asst = r.asst ++ text }) t h in
    record {
      after = a.after;
      lines = a.lines;
      ran = a.ran;
      adds = a.adds;
      same = a.same ∙ rw (map-append_bytes r.asst text, append_assoc) refl;
    }
emit_all-Records now (notes {es} text run) r t h =
    let a = flush_and_store-Stores now r (codes "notice") text t refl h in
    next-Records now (notice text) es r (emptied r) (emptied r) t _ a
      (emit_all-Records now run (emptied r) a.after a.adds.there)
      (append_assoc (bytes_of r.asst) _ _)
emit_all-Records now (fails {es} text run) r t h =
    let a = flush_and_store-Stores now r (codes "error") text t refl h in
    next-Records now (error text) es r (emptied r) (emptied r) t _ a
      (emit_all-Records now run (emptied r) a.after a.adds.there)
      (append_assoc (bytes_of r.asst) _ _)
emit_all-Records now (works {es} call out run) r t h =
    let a = flush_and_store-Stores now r (codes "tool") call t refl h in
    let b = store-Stores now (emptied r) (codes "tool-result") out a.after refl a.adds.there in
    let c = emit_all-Records now run (emptied r) b.after b.adds.there in
    next-Records now (tool_use call) (tool_result out ∷ es) r (emptied r) (emptied r) t _ a
      (next-Records now (tool_result out) es (emptied r) (emptied r) (emptied r) a.after _ b c refl)
      (append_assoc (bytes_of r.asst) _ _)

-- With a driver that fails nothing, for a chat of the table and the events of a whole run: the lines
-- that the recorder adds to the chat show what was streamed, in its order, each tool call, result,
-- notice and error as a line of its role and the assistant's text without a byte lost or moved; at
-- the end no text is left unstored; and the other chats are as before.
pub transcript-emit_all :
    (now id : Bytes) {n : ℕ} {es : List Event} (run : Transcript n es) (t : Tables)
    → has chat_id id t.chats ≡ true
    → (u : Tables) × (ls : List ChatMessage) × (emit_all now es
          (record { chat_id = id; asst = [] })
          (calm t)
        ≡ (record { chat_id = id; asst = [] }, calm u))
      × (transcript id u ≡ transcript id t ++ ls)
      × (stored_pieces ls ≡ streamed_pieces es)
      × ((j : Bytes) → j ≢ id → transcript j u ≡ transcript j t)
transcript-emit_all now id run t h =
    let a = emit_all-Records now run (record { chat_id = id; asst = [] }) t h in
    (a.after, a.lines, a.ran, a.adds.stored, a.same, a.adds.others)
