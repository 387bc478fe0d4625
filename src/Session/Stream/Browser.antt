-- ===== src/Session/Stream/Browser.antt =====
-- A browser that is attached to a session, and what happens to the two.
pub mod Prints
pub mod Reading
use hopskip.Base.{
  ℕ, ◌+◌, ◌<◌, ◌≡◌, refl, sym, ap, ◌∙◌, inl, inr, Bool, true, false, not, ◌&&◌, ◌||◌, Option, none,
  some, List, [], ◌∷◌, ◌++◌, map, append-nil, append_assoc, arith, ltb, if◌then◌else◌, Bool-cases,
  ◌==◌, eq_refl, nat_eq, bytes_eq, pair_eq, int_eq, length, take, drop, min, find, all,
}
use hopskip.Text.{Bytes}
use mathlib.Core.Option
use hopskip.Base.{
  concat, concat-append, drop-drop, drop_all, take_all, take-append-drop, take-append-drop-min,
}
use hopskip.Session.Stream.{
  sub_buf, Channel, LiveSession, Attach, Got, pump, offer, teardown, close_channel, resize, attach,
  channel, detach, pop, receive, read,
}

-- What can happen to a session that a browser is attached to.
pub data Event : Type 0 where
  -- the shell prints
  prints : Bytes → Event
  -- the browser's connection reads, with a buffer of this size
  reads : ℕ → Event
  -- another browser attaches, with its rows and columns
  joins : ℕ → ℕ → Event
  -- a browser detaches
  leaves : Attach → Event
  -- the session ends
  ends : Event

-- The session, the browser, and the history: the bytes read so far, those printed while the
-- browser's channel was open, and whether a chunk found the channel full.
pub record Client : Type 0 where
  pub session : LiveSession
  pub me : Attach
  pub seen : Bytes
  pub printed : Bytes
  pub lost : Bool

abbrev pub open_at : Option Channel → Bool
open_at none = false
open_at (some c) = c.is_open

abbrev pub full_at : Option Channel → Bool
full_at none = false
full_at (some c) = c.is_open && not (ltb (length c.queue) sub_buf)

abbrev pub mine : Client → Option Channel
mine c = channel c.me.sub_id c.session

abbrev pub joined : LiveSession → Option (Attach × LiveSession) → LiveSession
joined old none = old
joined old (some (a, ls)) = ls

abbrev pub got : Got → Bytes
got (Got.bytes b) = b
got Got.eof = []
got Got.blocked = []

unfoldable pub step : Event → Client → Client
step (prints b) c = record c {
  session = pump b c.session;
  printed = if open_at (mine c) then c.printed ++ b else c.printed;
  lost = c.lost || full_at (mine c);
}
step (reads n) c =
    let (g, me, ls) = read n c.me c.session in
    record c { session = ls; me = me; seen = c.seen ++ got g }
step (joins rows cols) c = record c { session = joined c.session (attach rows cols c.session) }
step (leaves a) c = record c { session = (detach a c.session).1 }
step ends c = record c { session = teardown c.session }

unfoldable pub run : List Event → Client → Client
run [] c = c
run (e ∷ es) c = run es (step e c)

-- What the browser has still to read.
abbrev pub waiting : Attach → Channel → Bytes
waiting me ch = drop me.rpos me.replay ++ concat ch.queue

-- `start` is the ring as it was when the browser attached.
pub record IsFaithful (start : Bytes) (c : Client) : Type 0 where
  pub ch : Channel
  pub found : mine c ≡ some ch
  pub older : c.me.sub_id < c.session.next_id
  pub exact : c.lost ≡ false → c.seen ++ waiting c.me ch ≡ start ++ c.printed
