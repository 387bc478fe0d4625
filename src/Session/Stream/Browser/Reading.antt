-- ===== src/Session/Stream/Browser/Reading.antt =====
-- What the attached browser reads.
use hopskip.Base.{
  ℕ, ◌+◌, ◌<◌, ◌≡◌, refl, sym, ap, ◌∙◌, inl, inr, Bool, true, false, some, List, [], ◌∷◌, ◌++◌,
  append-nil, append_assoc, arith, ltb, if◌then◌else◌, Bool-cases, ◌==◌, nat_eq, bytes_eq, pair_eq,
  int_eq, length, take, drop, min, find, all,
}
use hopskip.Text.{Bytes}
use hopskip.Base.{concat, drop-drop, drop_all, take_all, take-append-drop, take-append-drop-min}
use hopskip.Session.Stream.{Channel, LiveSession, Attach, Got, channel, pop, receive, read}
use hopskip.Session.Stream.Browser.{reads, Client, mine, got, step, waiting, IsFaithful}
use hopskip.Session.Stream.Browser.Prints.{channel-map}

read_replay :
    (n : ℕ) (a : Attach) (ls : LiveSession)
    → ltb a.rpos (length a.replay) ≡ true
    → read n a ls ≡ (
      Got.bytes (take n (drop a.rpos a.replay)),
      record a { rpos = a.rpos + min n (length (drop a.rpos a.replay)) },
      ls,
    )
unfolding read
read_replay n a ls h = ground arith

read-channel :
    (n : ℕ) (a : Attach) (ls : LiveSession) (ch : Channel)
    → ltb a.rpos (length a.replay) ≡ false
    → channel a.sub_id ls ≡ some ch
    → read n a ls ≡ receive n a ls ch.is_open ch.queue
unfolding read
read-channel n a ls ch h e = ground arith

-- Reading moves bytes from what waits to what is seen.
shift :
    (seen got rest all start : Bytes)
    → got ++ rest ≡ all
    → seen ++ all ≡ start
    → (seen ++ got) ++ rest ≡ start
shift seen g rest all start e h = append_assoc seen g rest ∙ ap (◌++◌ seen) e ∙ h

replayed :
    (n r : ℕ) (s q : Bytes)
    → take n (drop r s) ++ (drop (r + min n (length (drop r s))) s ++ q) ≡ drop r s ++ q
replayed n r s q = rw (← drop-drop r (min n (length (drop r s))) _ s refl) (
    sym (append_assoc (take n (drop r s)) _ q)
    ∙ ap (λ x. x ++ q) (take-append-drop-min n (drop r s)))

nothing_got : (o : Bool) → got (if o then Got.blocked else Got.eof) ≡ []
nothing_got true = refl
nothing_got false = refl

pop_one-id : (i : ℕ) (c : Channel) → (if c.sub_id == i then pop c else c).sub_id ≡ c.sub_id
pop_one-id i c = ground arith

found_id :
    (i : ℕ) (cs : List Channel) (ch : Channel)
    → find (λ c. c.sub_id == i) cs ≡ some ch
    → (ch.sub_id == i) ≡ true
unfolding find
found_id i [] ch e = ground (arith, e)
found_id i (c ∷ cs) ch e = ground (arith, e, found_id i cs ch)

received-waiting :
    (n : ℕ) (b : Bytes) (me : Attach) (ch : Channel) (q : List Bytes)
    → ch.queue ≡ b ∷ q
    → drop me.rpos me.replay ≡ []
    → take n b
        ++ waiting
            (if ltb n (length b) then record me { replay = drop n b; rpos = 0 } else me)
            (pop ch)
      ≡ concat (b ∷ q)
received-waiting n b me ch q e done = elim (Bool-cases (ltb n (length b))) [
  | inl h ↦
      rw (h, e)
        (sym (append_assoc (take n b) (drop n b) (concat q))
          ∙ ap (λ x. x ++ concat q) (take-append-drop n b))
  | inr h ↦ rw (h, e, done) (ap (λ x. x ++ concat q) (take_all n b (ground arith)))
]

me-received :
    (t : Bool) (me : Attach) (s : Bytes)
    → (if t then record me { replay = s; rpos = 0 } else me).sub_id ≡ me.sub_id
me-received t me s = ground arith

-- One round of `receive`, on a channel with a queue.
receive-IsFaithful :
    (start : Bytes) (n : ℕ) (c : Client) (ch : Channel) (q : List Bytes)
    → ch.queue ≡ q
    → mine c ≡ some ch
    → c.me.sub_id < c.session.next_id
    → drop c.me.rpos c.me.replay ≡ []
    → (c.lost ≡ false → c.seen ++ concat q ≡ start ++ c.printed)
    → IsFaithful start (
        let (g, me, ls) = receive n c.me c.session ch.is_open q in
        record c { session = ls; me = me; seen = c.seen ++ got g })
unfolding receive
receive-IsFaithful start n c ch [] e found older done h = record {
  ch = ch;
  found = found;
  older = older;
  exact = λ k. rw (e, done, nothing_got ch.is_open, append-nil c.seen) (h k);
}
receive-IsFaithful start n c ch (b ∷ q) e found older done h = record {
  ch = pop ch;
  found = rw me-received (
      channel-map c.me.sub_id _ (pop_one-id c.me.sub_id) c.session.channels
      ∙ rw (found, found_id c.me.sub_id c.session.channels ch found));
  older = rw me-received older;
  exact = λ k. shift c.seen (take n b) _ _ _ (received-waiting n b c.me ch q e done) (h k);
}

pub reads-IsFaithful :
    (start : Bytes) (n : ℕ) (c : Client) → IsFaithful start c → IsFaithful start (step (reads n) c)
unfolding step
reads-IsFaithful start n c v = elim (Bool-cases (ltb c.me.rpos (length c.me.replay))) [
  | inl h ↦ rw (read_replay n c.me c.session h) (record {
    ch = v.ch;
    found = v.found;
    older = v.older;
    exact = λ k.
        shift c.seen _ _ _ _ (replayed n c.me.rpos c.me.replay (concat v.ch.queue)) (v.exact k);
  })
  | inr h ↦
      let done : drop c.me.rpos c.me.replay ≡ [] = drop_all c.me.rpos c.me.replay (ground arith) in
      rw (read-channel n c.me c.session v.ch h v.found) (
        receive-IsFaithful start n c v.ch v.ch.queue refl v.found v.older done
          (λ k. rw done at (v.exact k)))
]
