-- ===== src/Server/Credentials/Masking.antt =====
-- How much of a token is shown.
use hopskip.Base.{
  ℕ, ◌+◌, ◌-◌, ◌≤◌, ◌<◌, ◌≡◌, refl, ap, sym, ◌∙◌, false, [], ◌∷◌, ◌++◌, append_assoc, length, take,
  drop, length-append, arith, leb, nat_eq,
}
use hopskip.Text.{Bytes, ellipsis}
use hopskip.Server.Credentials.{mask_token}

take-append : (a b : Bytes) → take (length a) (a ++ b) ≡ a
take-append [] b = refl
take-append (c ∷ a) b = ap (◌∷◌ c) (take-append a b)

drop-append : (a b : Bytes) → drop (length a) (a ++ b) ≡ b
drop-append [] b = refl
drop-append (c ∷ a) b = drop-append a b

-- Of a token of ten bytes or more the first six and the last four are shown, and nothing of what is
-- between them: not even how long it is.
pub mask_token_lem :
    (front middle back : Bytes)
    → length front ≡ 6
    → length back ≡ 4
    → mask_token (front ++ (middle ++ back)) ≡ front ++ ellipsis ++ back
unfolding mask_token
mask_token_lem front middle back f b =
    let whole = front ++ (middle ++ back) in
    let size : length whole ≡ 6 + (length middle + 4) =
      length-append front (middle ++ back) ∙ rw (f, length-append middle back, b) refl in
    let first : take 6 whole ≡ front =
      sym (ap (λ n. take n whole) f) ∙ take-append front (middle ++ back) in
    let start : length whole - 4 ≡ length (front ++ middle) =
      rw (size, length-append front middle, f) (omega arith) in
    let last : drop (length whole - 4) whole ≡ back =
      rw (start, sym (append_assoc front middle back)) (drop-append (front ++ middle) back) in
    let long : leb (length whole) 8 ≡ false = rw size (ground arith) in rw (long, first, last) refl

-- The token, from its length and what is shown of it.
pub unmasked : ℕ → Bytes → Bytes
unmasked n shown = take 6 shown ++ drop (19 - n) shown

-- What is shown of a token of nine or ten bytes and the number of its bytes give the whole token.
pub unmasked-mask_token :
    (t : Bytes) → 8 < length t → length t ≤ 10 → unmasked (length t) (mask_token t) ≡ t
unfolding unmasked mask_token
unmasked-mask_token (a ∷ b ∷ c ∷ d ∷ e ∷ f ∷ g ∷ h ∷ i ∷ []) _ _ = refl
unmasked-mask_token (a ∷ b ∷ c ∷ d ∷ e ∷ f ∷ g ∷ h ∷ i ∷ j ∷ []) _ _ = refl
unmasked-mask_token (a ∷ b ∷ c ∷ d ∷ e ∷ f ∷ g ∷ h ∷ i ∷ j ∷ k ∷ t) _ short =
    absurd (omega (arith, short))
unmasked-mask_token [] long _ = absurd (omega (arith, long))
unmasked-mask_token (a ∷ []) long _ = absurd (omega (arith, long))
unmasked-mask_token (a ∷ b ∷ []) long _ = absurd (omega (arith, long))
unmasked-mask_token (a ∷ b ∷ c ∷ []) long _ = absurd (omega (arith, long))
unmasked-mask_token (a ∷ b ∷ c ∷ d ∷ []) long _ = absurd (omega (arith, long))
unmasked-mask_token (a ∷ b ∷ c ∷ d ∷ e ∷ []) long _ = absurd (omega (arith, long))
unmasked-mask_token (a ∷ b ∷ c ∷ d ∷ e ∷ f ∷ []) long _ = absurd (omega (arith, long))
unmasked-mask_token (a ∷ b ∷ c ∷ d ∷ e ∷ f ∷ g ∷ []) long _ = absurd (omega (arith, long))
unmasked-mask_token (a ∷ b ∷ c ∷ d ∷ e ∷ f ∷ g ∷ h ∷ []) long _ = absurd (omega (arith, long))
