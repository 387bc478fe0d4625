-- ===== src/Session/Stream/Ring.antt =====
-- The ring that a new browser is shown.
use hopskip.Base.{
  ℕ, ◌-◌, ◌≡◌, refl, ap, ◌∙◌, inl, inr, List, [], ◌∷◌, ◌++◌, append-nil, append_assoc, arith, ltb,
  Bool-cases, nat_eq, bytes_eq, pair_eq, int_eq, length, drop,
}
use hopskip.Text.{Bytes}
use hopskip.Base.{concat, drop-drop, drop-append, length-append, length-drop}
use hopskip.Session.Stream.{ring_cap, LiveSession, new_session, trim_ring, pump}

-- The last bytes of a text, `cap` of them or all.
abbrev pub last_bytes : ℕ → Bytes → Bytes
last_bytes cap s = drop (length s - cap) s

trim_ring-last_bytes : (cap : ℕ) (s : Bytes) → trim_ring cap s ≡ last_bytes cap s
unfolding trim_ring
trim_ring-last_bytes cap s = elim (Bool-cases (ltb cap (length s))) [
  | inl h ↦ rw h
  | inr h ↦ let e : length s - cap ≡ 0 = ground arith in rw (h, e)
]

last_bytes-append :
    (cap : ℕ) (s b : Bytes) → last_bytes cap (last_bytes cap s ++ b) ≡ last_bytes cap (s ++ b)
last_bytes-append cap s b =
    let k : ℕ = length s - cap in
    rw (drop-append k s b (omega arith))
      (drop-drop k _ _ (s ++ b) (omega (arith, length-append {0} s b, length-drop {0} k (s ++ b))))

pub pumped : List Bytes → LiveSession → LiveSession
pumped [] ls = ls
pumped (b ∷ bs) ls = pumped bs (pump b ls)

ring-pump : (b : Bytes) (ls : LiveSession) → (pump b ls).ring ≡ trim_ring ring_cap (ls.ring ++ b)
unfolding pump
ring-pump b ls = refl

next-last_bytes :
    (b : Bytes) (ls : LiveSession) (past : Bytes)
    → ls.ring ≡ last_bytes ring_cap past
    → (pump b ls).ring ≡ last_bytes ring_cap (past ++ b)
next-last_bytes b ls past h =
    ring-pump b ls
    ∙ trim_ring-last_bytes ring_cap (ls.ring ++ b)
    ∙ ap (λ r. last_bytes ring_cap (r ++ b)) h
    ∙ last_bytes-append ring_cap past b

ring-pumped_from :
    (bs : List Bytes) (ls : LiveSession) (past : Bytes)
    → ls.ring ≡ last_bytes ring_cap past
    → (pumped bs ls).ring ≡ last_bytes ring_cap (past ++ concat bs)
unfolding pumped
ring-pumped_from [] ls past h = rw append-nil h
ring-pumped_from (b ∷ bs) ls past h =
    rw (← append_assoc past b (concat bs))
      (ring-pumped_from bs (pump b ls) (past ++ b) (next-last_bytes b ls past h))

-- Whatever the shell has printed in a session, the ring holds the last bytes of it, up to its cap.
pub ring-pumped :
    (id : Bytes) (bs : List Bytes)
    → (pumped bs (new_session id)).ring ≡ last_bytes ring_cap (concat bs)
ring-pumped id bs = ring-pumped_from bs (new_session id) [] refl
