-- ===== src/Session/Sending/Stamps.antt =====
-- Which exit code a screen shows.
use hopskip.Base.{
  ℕ, ◌≡◌, ◌≢◌, refl, ap, sym, ◌∙◌, true, false, not, ◌&&◌, Option, none, some, [], ◌∷◌, ◌++◌, drop,
  length, arith, All, Bool-cases, ◌⊎◌, inl, inr, ◌==◌, nat_eq, bytes_eq, bytes_beq, pair_eq, int_eq,
}
use hopskip.Text.{Bytes, codes}
use hopskip.Text.Search.{has_prefix}
use hopskip.Text.Prefixes.{has_prefix-drop, has_prefix-append}
use hopskip.Agent.Limits.{is_digit}
use hopskip.Session.Screen.{sentinel}
use hopskip.Session.Sending.{span_digits, stamp_end, stamped, stamp_at, first_of, find_stamp}

abbrev IsDigit : ℕ → Type 0
IsDigit c = is_digit c ≡ true

-- A stamp with these digits and this nonce stands in the text.
pub record Shows (nonce s digits : Bytes) : Type 0 where
  pub before : Bytes
  pub behind : Bytes
  pub splits : s ≡ before ++ (sentinel ++ (digits ++ (stamp_end nonce ++ behind)))
  pub filled : digits ≢ []
  pub decimal : All IsDigit digits

span_digits-append : (s : Bytes) → s ≡ (span_digits s).0 ++ (span_digits s).1
unfolding span_digits
span_digits-append [] = refl
span_digits-append (c ∷ s) = elim (Bool-cases (is_digit c)) [
  | inl e ↦ simp e (ap (◌∷◌ c) (span_digits-append s))
  | inr e ↦ simp e refl
]

span_digits-All : (s : Bytes) → All IsDigit (span_digits s).0
unfolding span_digits
span_digits-All [] = tt
span_digits-All (c ∷ s) = elim (Bool-cases (is_digit c)) [
  | inl e ↦ simp e (refl, span_digits-All s)
  | inr e ↦ simp e tt
]

-- Digits end where there is a byte that is none.
span_digits-stop :
    (digits : Bytes) (c : ℕ) (s : Bytes)
    → All IsDigit digits
    → is_digit c ≡ false
    → span_digits (digits ++ c ∷ s) ≡ (digits, c ∷ s)
unfolding span_digits
span_digits-stop [] c s h e = simp e refl
span_digits-stop (d ∷ ds) c s (h, hs) e = simp (h, span_digits-stop ds c s hs e) refl

stamp_at-Shows : (nonce s digits : Bytes) → stamp_at nonce s ≡ some digits → Shows nonce s digits
unfolding stamp_at bytes_beq
stamp_at-Shows nonce s digits e =
    let rest = drop (length sentinel) s in
    let span = span_digits rest in
    let found : (has_prefix s sentinel && not (span.0 == []) && has_prefix span.1 (stamp_end nonce))
        ≡ true =
      ground (arith, e) in
    let same : span.0 ≡ digits = ground (arith, e) in
    let front : has_prefix s sentinel ≡ true = ground (arith, found) in
    let end : has_prefix span.1 (stamp_end nonce) ≡ true = ground (arith, found) in
    record {
      before = [];
      behind = drop (length (stamp_end nonce)) span.1;
      splits =
          has_prefix-drop s sentinel front
          ∙ ap (◌++◌ sentinel) (
              span_digits-append rest
              ∙ ap (λ d. d ++ span.1) same
              ∙ ap (◌++◌ digits) (has_prefix-drop span.1 (stamp_end nonce) end));
      filled = λ d.
          let empty : (span.0 == []) ≡ true = rw (same ∙ d) refl in
          let full : (span.0 == []) ≡ false = ground (arith, found) in absurd cc;
      decimal = rw (sym same) (span_digits-All rest);
    }

stamped_whole :
    (nonce digits rest : Bytes)
    → digits ≢ []
    → has_prefix rest (stamp_end nonce) ≡ true
    → stamped nonce true (digits, rest) ≡ some digits
unfolding bytes_beq
stamped_whole nonce [] rest filled h = absurd (filled refl)
stamped_whole nonce (d ∷ ds) rest filled h = rw h refl

stamp_at-stamp :
    (nonce digits s : Bytes)
    → digits ≢ []
    → All IsDigit digits
    → stamp_at nonce (sentinel ++ (digits ++ (stamp_end nonce ++ s))) ≡ some digits
unfolding stamp_at has_prefix
stamp_at-stamp nonce digits s filled h =
    let span = span_digits-stop digits b'_' ((nonce ++ codes "__") ++ s) h (ground arith) in
    ap (stamped nonce true) span
    ∙ stamped_whole nonce digits (stamp_end nonce ++ s) filled
        (has_prefix-append (stamp_end nonce) s)

-- A stamp further on is one of the whole text.
Shows-cons :
    (nonce : Bytes) (c : ℕ) (s digits : Bytes) → Shows nonce s digits → Shows nonce (c ∷ s) digits
Shows-cons nonce c s digits h = record {
  before = c ∷ h.before;
  behind = h.behind;
  splits = ap (◌∷◌ c) h.splits;
  filled = h.filled;
  decimal = h.decimal;
}

first_of-cases :
    (o later : Option Bytes) (digits : Bytes)
    → first_of o later ≡ some digits
    → (o ≡ some digits) ⊎ (later ≡ some digits)
first_of-cases none later digits e = inr e
first_of-cases (some code) later digits e = inl e

pub find_stamp-Shows :
    (nonce s digits : Bytes) → find_stamp nonce s ≡ some digits → Shows nonce s digits
unfolding find_stamp
find_stamp-Shows nonce [] digits e = absurd (cc)
find_stamp-Shows nonce (c ∷ s) digits e =
    elim (first_of-cases (stamp_at nonce (c ∷ s)) (find_stamp nonce s) digits e) [
      | inl here ↦ stamp_at-Shows nonce (c ∷ s) digits here
      | inr later ↦ Shows-cons nonce c s digits (find_stamp-Shows nonce s digits later)
    ]

first_of-none : (o later : Option Bytes) → first_of o later ≡ none → (o ≡ none) × (later ≡ none)
first_of-none none later e = (refl, e)
first_of-none (some code) later e = absurd (cc)

stamp_found :
    (nonce before digits behind : Bytes)
    → digits ≢ []
    → All IsDigit digits
    → find_stamp nonce (before ++ (sentinel ++ (digits ++ (stamp_end nonce ++ behind)))) ≢ none
unfolding find_stamp
stamp_found nonce [] digits behind filled h e =
    let missed : stamp_at nonce (sentinel ++ (digits ++ (stamp_end nonce ++ behind))) ≡ none =
      (first_of-none _ _ e).0 in
    let found = stamp_at-stamp nonce digits behind filled h in absurd (cc)
stamp_found nonce (c ∷ before) digits behind filled h e =
    stamp_found nonce before digits behind filled h (first_of-none _ _ e).1

-- Where no stamp is found there is none.
pub find_stamp-none : (nonce s digits : Bytes) → find_stamp nonce s ≡ none → ¬ Shows nonce s digits
find_stamp-none nonce s digits e h =
    stamp_found nonce h.before digits h.behind h.filled h.decimal
      (ap (find_stamp nonce) (sym h.splits) ∙ e)
