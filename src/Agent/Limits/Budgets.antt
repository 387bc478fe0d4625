-- ===== src/Agent/Limits/Budgets.antt =====
-- The budgets, whatever text the settings hold.
use hopskip.Base.{
  ℕ, zero, suc, ◌≤◌, ◌≡◌, inl, inr, Option, none, some, [], ◌∷◌, arith, if◌then◌else◌, Bool-cases,
  Option-cases, ◌==◌, nat_eq, bytes_eq, pair_eq, ℤ, pos, negsuc, int_eq,
}
use hopskip.Text.{Bytes}
use mathlib.Core.Option
use Prim.Native.Nat.{◌^◌}
use hopskip.Agent.Limits.{max_int, magnitude, atoi, minus, steps_of, max_steps}

-- A number that is read is within its bound.
magnitude-le : (bound n : ℕ) (s : Bytes) → magnitude bound s ≡ some n → n ≤ bound
unfolding magnitude
magnitude-le bound n s h = ground (arith, h)

-- A number that is not negative has 63 bits.
abbrev Fits : Option ℤ → Type 0
Fits none = Unit
Fits (some (pos n)) = n ≤ max_int
Fits (some (negsuc n)) = Unit

pos-Fits : (s : Bytes) → Fits (Option.map pos (magnitude max_int s))
pos-Fits s = elim (Option-cases (magnitude max_int s)) [
  | inl e ↦ rw e tt
  | inr (n, e) ↦ rw e (magnitude-le max_int n s e)
]

minus-Fits : (o : Option ℕ) → Fits (Option.map minus o)
unfolding minus
minus-Fits none = tt
minus-Fits (some zero) = omega arith
minus-Fits (some (suc n)) = tt

atoi-Fits : (v : Bytes) → Fits (atoi v)
unfolding atoi
atoi-Fits [] = tt
atoi-Fits (c ∷ rest) = elim (Bool-cases (c == b'-')) [
  | inl e ↦ rw e (minus-Fits (magnitude (2 ^ 63) rest))
  | inr e ↦ rw e (pos-Fits (if c == b'+' then rest else c ∷ rest))
]

steps_of-le : (o : Option ℤ) → Fits o → (1 ≤ steps_of o) × (steps_of o ≤ max_int)
steps_of-le none h = (omega arith, omega arith)
steps_of-le (some (pos n)) h = (ground arith, ground (arith, h))
steps_of-le (some (negsuc n)) h = (omega arith, omega arith)

-- Whatever text the setting holds, a number or not, zero, negative or too large, or none at all: the
-- budget of a run is at least one step and a positive number of 64 bits.
pub max_steps-le : (o : Option Bytes) → (1 ≤ max_steps o) × (max_steps o ≤ max_int)
unfolding max_steps
max_steps-le none = (omega arith, omega arith)
max_steps-le (some v) = steps_of-le (atoi v) (atoi-Fits v)
