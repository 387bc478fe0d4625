-- ===== src/Session/Stream/Delivery.antt =====
-- What an attached browser gets of the output of its session.
use hopskip.Base.{
  ℕ, ◌+◌, ◌≡◌, refl, sym, ap, ◌∙◌, inl, inr, true, false, Option, none, some, List, [], ◌∷◌, ◌++◌,
  arith, Bool-cases, ◌==◌, eq_refl, nat_eq, bytes_eq, pair_eq, int_eq, find,
}
use hopskip.Text.{Bytes}
use hopskip.Session.Stream.{Channel, LiveSession, Attach, resize, attach}
use hopskip.Session.Stream.Browser.{
  Event, prints, reads, joins, leaves, ends, Client, mine, step, run, waiting, IsFaithful,
}
use hopskip.Session.Stream.Browser.Prints.{
  prints-IsFaithful, leaves-IsFaithful, ends-IsFaithful, joins-IsFaithful, channels-resize,
  next_id-resize,
}
use hopskip.Session.Stream.Browser.Reading.{reads-IsFaithful}

pub step-IsFaithful :
    (start : Bytes) (e : Event) (c : Client) → IsFaithful start c → IsFaithful start (step e c)
step-IsFaithful start (prints b) c v = prints-IsFaithful start b c v
step-IsFaithful start (reads n) c v = reads-IsFaithful start n c v
step-IsFaithful start (joins rows cols) c v = joins-IsFaithful start rows cols c v
step-IsFaithful start (leaves a) c v = leaves-IsFaithful start a c v
step-IsFaithful start ends c v = ends-IsFaithful start c v

pub run-IsFaithful_from :
    (start : Bytes) (es : List Event) (c : Client)
    → IsFaithful start c
    → IsFaithful start (run es c)
unfolding run
run-IsFaithful_from start [] c v = v
run-IsFaithful_from start (e ∷ es) c v =
    run-IsFaithful_from start es (step e c) (step-IsFaithful start e c v)

-- A browser that has just attached.
abbrev pub fresh : Attach × LiveSession → Client
fresh (a, ls) = record { session = ls; me = a; seen = []; printed = []; lost = false }

from : Attach × LiveSession → Option (Attach × LiveSession) → Attach × LiveSession
from r none = r
from r (some x) = x

-- What `attach` gives on a session that is not closed.
abbrev opened : ℕ → ℕ → LiveSession → Attach × LiveSession
opened rows cols ls =
    let new : Channel = record { sub_id = ls.next_id; queue = []; is_open = true } in
    (
      record { sub_id = ls.next_id; replay = ls.ring; rpos = 0; detached = false },
      resize rows cols (record ls { channels = new ∷ ls.channels; next_id = ls.next_id + 1 }),
    )

attach-opened :
    (rows cols : ℕ) (ls : LiveSession) (r : Attach × LiveSession)
    → attach rows cols ls ≡ some r
    → opened rows cols ls ≡ r
unfolding attach from
attach-opened rows cols ls r e = elim (Bool-cases ls.closed) [
  | inl d ↦ ground (arith, d, e)
  | inr d ↦
      let o : attach rows cols ls ≡ some (opened rows cols ls) = ground (arith, d) in
      ap (from r) (sym o ∙ e)
]

found_first :
    (id : ℕ) (new : Channel) (cs : List Channel)
    → new.sub_id ≡ id
    → find (λ c. c.sub_id == id) (new ∷ cs) ≡ some new
unfolding find
found_first id new cs h = ground (arith, h, eq_refl id)

opened-IsFaithful :
    (rows cols : ℕ) (ls : LiveSession) → IsFaithful ls.ring (fresh (opened rows cols ls))
opened-IsFaithful rows cols ls = record {
  ch = record { sub_id = ls.next_id; queue = []; is_open = true };
  found = rw channels-resize (found_first ls.next_id _ ls.channels refl);
  older = rw next_id-resize (omega arith);
  exact = λ h. refl;
}

fresh-IsFaithful :
    (rows cols : ℕ) (ls : LiveSession) (r : Attach × LiveSession)
    → attach rows cols ls ≡ some r
    → IsFaithful ls.ring (fresh r)
fresh-IsFaithful rows cols ls r e =
    rw (← attach-opened rows cols ls r e) (opened-IsFaithful rows cols ls)

-- Whatever then happens to a session, with other browsers that come and go, a browser has read, or
-- has still to read, the ring as it was when it attached and then each byte that the shell printed
-- since, in order, up to its detaching or the end of the session, if no chunk found its channel full.
pub run-delivery :
    (rows cols : ℕ) (ls : LiveSession) (r : Attach × LiveSession) (es : List Event)
    → attach rows cols ls ≡ some r
    → (run es (fresh r)).lost ≡ false
    → (ch : Channel) × (mine (run es (fresh r)) ≡ some ch)
      × ((run es (fresh r)).seen ++ waiting (run es (fresh r)).me ch
          ≡ ls.ring ++ (run es (fresh r)).printed)
run-delivery rows cols ls r es e kept =
    let v = run-IsFaithful_from ls.ring es (fresh r) (fresh-IsFaithful rows cols ls r e) in
    (v.ch, v.found, v.exact kept)
