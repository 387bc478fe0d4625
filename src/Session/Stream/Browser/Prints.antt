-- ===== src/Session/Stream/Browser/Prints.antt =====
-- What the shell prints, and the other browsers, for the one that is attached.
use hopskip.Base.{
  ℕ, ◌<◌, ◌≡◌, refl, sym, ◌∙◌, inl, inr, Bool, true, false, ◌||◌, Option, some, List, [], ◌∷◌, ◌++◌,
  map, append-nil, append_assoc, arith, ltb, if◌then◌else◌, Bool-cases, ◌==◌, nat_eq, bytes_eq,
  pair_eq, int_eq, length, find,
}
use hopskip.Text.{Bytes}
use mathlib.Core.Option
use hopskip.Base.{concat-append}
use hopskip.Session.Stream.{
  sub_buf, Channel, LiveSession, Attach, pump, offer, teardown, close_channel, resize, attach,
  detach,
}
use hopskip.Session.Stream.Browser.{
  prints, joins, leaves, ends, Client, open_at, full_at, mine, step, waiting, IsFaithful,
}

pub channel-map :
    (id : ℕ) (f : Channel → Channel) (keeps : (c : Channel) → (f c).sub_id ≡ c.sub_id)
    (cs : List Channel)
    → find (λ c. c.sub_id == id) (map f cs) ≡ Option.map f (find (λ c. c.sub_id == id) cs)
unfolding find
channel-map id f keeps [] = refl
channel-map id f keeps (c ∷ cs) = ground (arith, channel-map id f keeps cs, keeps c)

offer-id : (b : Bytes) (c : Channel) → (offer b c).sub_id ≡ c.sub_id
offer-id b c = ground arith

waiting-offer :
    (b : Bytes) (me : Attach) (ch : Channel)
    → full_at (some ch) ≡ false
    → waiting me (offer b ch) ≡ waiting me ch ++ (if ch.is_open then b else [])
waiting-offer b me ch room = elim (Bool-cases ch.is_open) [
  | inl o ↦
      let small : ltb (length ch.queue) sub_buf ≡ true = ground arith in
      rw (o, small, concat-append, append-nil, append_assoc)
  | inr o ↦ rw (o, append-nil)
]

printed-if : (o : Bool) (s b : Bytes) → (if o then s ++ b else s) ≡ s ++ (if o then b else [])
printed-if true s b = refl
printed-if false s b = sym (append-nil s)

regroup : (a w s p x : Bytes) → a ++ w ≡ s ++ p → a ++ (w ++ x) ≡ s ++ (p ++ x)
regroup a w s p x h = rw (← append_assoc a w x, h, append_assoc)

prints-exact :
    (start b : Bytes) (c : Client) (ch : Channel) (o : Option Channel)
    → o ≡ some ch
    → (c.lost ≡ false → c.seen ++ waiting c.me ch ≡ start ++ c.printed)
    → c.lost || full_at o ≡ false
    → c.seen ++ waiting c.me (offer b ch)
      ≡ start ++ (if open_at o then c.printed ++ b else c.printed)
prints-exact start b c ch o e h kept =
    let room : full_at (some ch) ≡ false = ground (arith, e) in
    let old : c.lost ≡ false = ground arith in
    rw (e, waiting-offer b c.me ch room, printed-if ch.is_open c.printed b)
      (regroup c.seen (waiting c.me ch) start c.printed (if ch.is_open then b else []) (h old))

pub prints-IsFaithful :
    (start b : Bytes) (c : Client) → IsFaithful start c → IsFaithful start (step (prints b) c)
unfolding step pump
prints-IsFaithful start b c v = record {
  ch = offer b v.ch;
  found = channel-map c.me.sub_id (offer b) (offer-id b) c.session.channels ∙ rw v.found;
  older = v.older;
  exact = prints-exact start b c v.ch (mine c) v.found v.exact;
}

-- Closing channels, all or one, takes nothing from them.
closed-IsFaithful :
    (start : Bytes) (c : Client) (f : Channel → Channel) (ls : LiveSession)
    → ((x : Channel) → (f x).sub_id ≡ x.sub_id)
    → ((x : Channel) → (f x).queue ≡ x.queue)
    → ls.channels ≡ map f c.session.channels
    → ls.next_id ≡ c.session.next_id
    → IsFaithful start c
    → IsFaithful start (record c { session = ls })
closed-IsFaithful start c f ls ids queues e n v = record {
  ch = f v.ch;
  found = rw e (channel-map c.me.sub_id f ids c.session.channels ∙ rw v.found);
  older = rw n v.older;
  exact = λ h. rw (queues v.ch) (v.exact h);
}

close_one-id :
    (i : ℕ) (c : Channel) → (if c.sub_id == i then close_channel c else c).sub_id ≡ c.sub_id
close_one-id i c = ground arith

close_one-queue :
    (i : ℕ) (c : Channel) → (if c.sub_id == i then close_channel c else c).queue ≡ c.queue
close_one-queue i c = ground arith

pub leaves-IsFaithful :
    (start : Bytes) (a : Attach) (c : Client)
    → IsFaithful start c
    → IsFaithful start (step (leaves a) c)
unfolding step detach
leaves-IsFaithful start a c v = elim (Bool-cases a.detached) [
  | inl d ↦ rw d v
  | inr d ↦
      rw d (
        closed-IsFaithful start c _ _ (close_one-id a.sub_id) (close_one-queue a.sub_id) refl refl
          v)
]

pub ends-IsFaithful :
    (start : Bytes) (c : Client) → IsFaithful start c → IsFaithful start (step ends c)
unfolding step teardown
ends-IsFaithful start c v = elim (Bool-cases c.session.closed) [
  | inl d ↦ simp d v
  | inr d ↦ rw d (closed-IsFaithful start c close_channel _ (λ x. refl) (λ x. refl) refl refl v)
]

pub channels-resize :
    (rows cols : ℕ) (ls : LiveSession) → (resize rows cols ls).channels ≡ ls.channels
unfolding resize
channels-resize rows cols ls = ground arith

pub next_id-resize : (rows cols : ℕ) (ls : LiveSession) → (resize rows cols ls).next_id ≡ ls.next_id
unfolding resize
next_id-resize rows cols ls = ground arith

found_behind :
    (id : ℕ) (new : Channel) (cs : List Channel)
    → id < new.sub_id
    → find (λ c. c.sub_id == id) (new ∷ cs) ≡ find (λ c. c.sub_id == id) cs
unfolding find
found_behind id new cs h = ground arith

pub joins-IsFaithful :
    (start : Bytes) (rows cols : ℕ) (c : Client)
    → IsFaithful start c
    → IsFaithful start (step (joins rows cols) c)
unfolding step attach
joins-IsFaithful start rows cols c v = elim (Bool-cases c.session.closed) [
  | inl d ↦ simp d v
  | inr d ↦ rw d (record {
    ch = v.ch;
    found = rw channels-resize (found_behind c.me.sub_id _ c.session.channels v.older ∙ v.found);
    older = rw next_id-resize (omega (arith, v.older));
    exact = v.exact;
  })
]
