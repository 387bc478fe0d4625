-- ===== src/Session/Stream.antt =====
-- internal/session/manager.go and attach.go: the output of one session, on its way to the replay ring
-- and to the browsers that are attached. Each function is one critical section of `ls.mu`.
pub mod Ring
pub mod Browser
pub mod Delivery
use hopskip.Base.{
  ℕ, zero, suc, ◌+◌, ◌-◌, ◌*◌, ◌≤◌, ◌<◌, ◌≡◌, refl, sym, ap, ◌∙◌, ◌≢◌, ◌↔◌, ◌⊎◌, inl, inr, Bool,
  true, false, not, ◌&&◌, ◌||◌, Option, none, some, List, [], ◌∷◌, ◌++◌, map, append-nil,
  append_assoc, arith, ltb, leb, if◌then◌else◌, Bool-cases, Option-cases, Eq, ◌==◌, eq_iff, eq_refl,
  nat_eq, bytes_eq, bytes_beq, bytes_beq_iff, pair_eq, bytes_leb, ℤ, pos, negsuc, int_eq, int_leb,
  int_beq_iff, length, take, drop, min, keep, find, any, all, All,
}
use hopskip.Text.{Bytes, codes}

abbrev pub ring_cap : ℕ
ring_cap = 512 * 1024

abbrev pub sub_buf : ℕ
sub_buf = 256

abbrev pub default_rows : ℕ
default_rows = 50

abbrev pub default_cols : ℕ
default_cols = 200

-- A subscriber's channel. It is in the map `subs` as long as it is open, since whoever deletes it
-- there closes it; a closed channel still hands out what it holds.
pub record Channel : Type 0 where
  pub sub_id : ℕ
  pub queue : List Bytes
  pub is_open : Bool

pub record LiveSession : Type 0 where
  pub id : Bytes
  pub ring : Bytes
  pub channels : List Channel
  pub next_id : ℕ
  pub closed : Bool
  pub rows : ℕ
  pub cols : ℕ

abbrev pub new_session : Bytes → LiveSession
new_session id = record {
  id = id;
  ring = [];
  channels = [];
  next_id = 0;
  closed = false;
  rows = default_rows;
  cols = default_cols;
}

-- `ring[len(ring)-cap:]` where the ring is longer than the cap.
unfoldable pub trim_ring : ℕ → Bytes → Bytes
trim_ring cap ring = if ltb cap (length ring) then drop (length ring - cap) ring else ring

-- A chunk is dropped where the channel is full.
abbrev pub offer : Bytes → Channel → Channel
offer b c =
    if c.is_open && ltb (length c.queue) sub_buf then record c { queue = c.queue ++ b ∷ [] } else c

-- The body of the loop in `pump`, for one read of the PTY.
unfoldable pub pump : Bytes → LiveSession → LiveSession
unfolding trim_ring
pump b ls = record ls {
  ring = trim_ring ring_cap (ls.ring ++ b);
  channels = map (offer b) ls.channels;
}

abbrev pub close_channel : Channel → Channel
close_channel c = record c { is_open = false }

unfoldable pub teardown : LiveSession → LiveSession
teardown ls =
    if ls.closed then ls else record ls { closed = true; channels = map close_channel ls.channels }

-- One browser; `rpos` bytes of `replay` are read.
pub record Attach : Type 0 where
  pub sub_id : ℕ
  pub replay : Bytes
  pub rpos : ℕ
  pub detached : Bool

unfoldable pub resize : ℕ → ℕ → LiveSession → LiveSession
resize rows cols ls = if rows == 0 || cols == 0 then ls else record ls { rows = rows; cols = cols }

-- `io.EOF` where the session is closed.
unfoldable pub attach : ℕ → ℕ → LiveSession → Option (Attach × LiveSession)
unfolding resize
attach rows cols ls =
    let new : Channel = record { sub_id = ls.next_id; queue = []; is_open = true } in
    let a : Attach = record { sub_id = ls.next_id; replay = ls.ring; rpos = 0; detached = false } in
    if ls.closed
    then none
    else some
        (a, resize rows cols (record ls { channels = new ∷ ls.channels; next_id = ls.next_id + 1 }))

abbrev pub channel : ℕ → LiveSession → Option Channel
channel id ls = find (λ c. c.sub_id == id) ls.channels

abbrev pub on_channel : ℕ → (Channel → Channel) → LiveSession → LiveSession
on_channel id f ls = record ls {
  channels = map (λ c. if c.sub_id == id then f c else c) ls.channels;
}

-- `Attach.Close`
unfoldable pub detach : Attach → LiveSession → Attach × LiveSession
detach a ls =
    if a.detached
    then (a, ls)
    else (record a { detached = true }, on_channel a.sub_id close_channel ls)

-- What one call of `Attach.Read` does: it returns bytes, or the end, or waits for output.
pub data Got : Type 0 where
  bytes : Bytes → Got
  eof blocked : Got

abbrev pop : Channel → Channel
pop c = record c { queue = drop 1 c.queue }

-- A chunk from the channel, for a buffer of n bytes: what does not fit is kept for the next read.
received : ℕ → Bytes → Attach → LiveSession → Got × Attach × LiveSession
received n b a ls = (
  bytes (take n b),
  if ltb n (length b) then record a { replay = drop n b; rpos = 0 } else a,
  on_channel a.sub_id pop ls,
)

receive : ℕ → Attach → LiveSession → Bool → List Bytes → Got × Attach × LiveSession
unfolding received
receive n a ls is_open [] = (if is_open then blocked else eof, a, ls)
receive n a ls is_open (b ∷ _) = received n b a ls

receive_from : ℕ → Attach → LiveSession → Option Channel → Got × Attach × LiveSession
unfolding receive
receive_from n a ls none = (eof, a, ls)
receive_from n a ls (some c) = receive n a ls c.is_open c.queue

unfoldable pub read : ℕ → Attach → LiveSession → Got × Attach × LiveSession
unfolding receive_from
read n a ls =
    let rest = drop a.rpos a.replay in
    if ltb a.rpos (length a.replay)
    then (bytes (take n rest), record a { rpos = a.rpos + min n (length rest) }, ls)
    else receive_from n a ls (channel a.sub_id ls)
