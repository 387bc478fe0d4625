-- ===== src/Agent/Fetching/Previews.antt =====
-- What a preview keeps of a body.
use hopskip.Base.{
  ℕ, zero, suc, ◌-◌, ◌≤◌, ◌≡◌, refl, ap, sym, ◌∙◌, inl, inr, List, [], ◌∷◌, ◌++◌, append-nil,
  append_assoc, take, length, arith, ltb, Bool-cases, nat_eq, bytes_eq, pair_eq, int_eq,
}
use hopskip.Text.{Bytes}
use hopskip.Agent.Fetching.Bodies.{concat, cap_write, cap_all}

take-append_le : (n : ℕ) (s t : Bytes) → n ≤ length s → take n (s ++ t) ≡ take n s
take-append_le zero s t h = refl
take-append_le (suc n) [] t h = absurd (omega (arith, h))
take-append_le (suc n) (c ∷ s) t h = ap (◌∷◌ c) (take-append_le n s t (omega (arith, h)))

take-append_ge : (n : ℕ) (s t : Bytes) → length s ≤ n → take n (s ++ t) ≡ s ++ take (n - length s) t
take-append_ge n [] t h = let e : n - 0 ≡ n = omega arith in rw e refl
take-append_ge zero (c ∷ s) t h = absurd (omega (arith, h))
take-append_ge (suc n) (c ∷ s) t h =
    let e : suc n - suc (length s) ≡ n - length s = omega arith in
    rw e (ap (◌∷◌ c) (take-append_ge n s t (omega (arith, h))))

take_whole : (n : ℕ) (s : Bytes) → length s ≤ n → take n s ≡ s
take_whole zero [] h = refl
take_whole zero (c ∷ s) h = absurd (omega (arith, h))
take_whole (suc n) [] h = refl
take_whole (suc n) (c ∷ s) h = ap (◌∷◌ c) (take_whole n s (omega (arith, h)))

pub length-take : (n : ℕ) (s : Bytes) → length (take n s) ≤ n
length-take zero s = omega arith
length-take (suc n) [] = omega arith
length-take (suc n) (c ∷ s) = omega (arith, length-take n s)

take_absorbs : (n : ℕ) (s t : Bytes) → take n (take n s ++ t) ≡ take n (s ++ t)
take_absorbs zero s t = refl
take_absorbs (suc n) [] t = refl
take_absorbs (suc n) (c ∷ s) t = ap (◌∷◌ c) (take_absorbs n s t)

-- A write keeps the first bytes of all that was written.
cap_write-take :
    (max : ℕ) (buf p : Bytes) → length buf ≤ max → cap_write max buf p ≡ take max (buf ++ p)
unfolding cap_write
cap_write-take max buf p h = elim (Bool-cases (ltb (length buf) max)) [
  | inl e ↦ rw e (sym (take-append_ge max buf p h))
  | inr e ↦
      let full : max - length buf ≡ 0 = ground (arith, h, e) in
      rw (e, take-append_ge max buf p h, full) (sym (append-nil buf))
]

-- The preview of a body is the first bytes of it, in whatever parts it is read.
pub cap_all-take :
    (max : ℕ) (buf : Bytes) (ps : List Bytes)
    → length buf ≤ max
    → cap_all max buf ps ≡ take max (buf ++ concat ps)
unfolding cap_all concat
cap_all-take max buf [] h = sym (rw append-nil (take_whole max buf h))
cap_all-take max buf (p ∷ ps) h =
    let step = cap_write-take max buf p h in
    cap_all-take max (cap_write max buf p) ps (rw step (length-take max (buf ++ p)))
    ∙ ap (λ b. take max (b ++ concat ps)) step
    ∙ take_absorbs max (buf ++ p) (concat ps)
    ∙ ap (take max) (append_assoc buf p (concat ps))
