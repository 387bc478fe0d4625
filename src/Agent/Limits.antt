-- ===== src/Agent/Limits.antt =====
-- internal/agent/agent.go: the budgets of a run, read from the settings; and decimal numbers.
pub mod Budgets
use hopskip.Base.{
  ℕ, zero, suc, ◌+◌, ◌-◌, ◌*◌, Bool, not, ◌&&◌, Option, none, some, [], ◌∷◌, leb, if◌then◌else◌,
  ◌==◌, nat_eq, bytes_eq, pair_eq, ℤ, pos, negsuc, int_eq, all,
}
use hopskip.Text.{Bytes}
use mathlib.Core.Option
use mathlib.Core.List.{reverse}
use Prim.Native.Nat.{◌/◌, ◌%◌, ◌^◌}

abbrev pub is_digit : ℕ → Bool
is_digit c = leb b'0' c && leb c b'9'

unfoldable pub digits_value : ℕ → Bytes → ℕ
digits_value n [] = n
digits_value n (c ∷ s) = digits_value (10 * n + (c - b'0')) s

abbrev pub max_int : ℕ
max_int = 2 ^ 63 - 1

-- Digits that make a number of at most 63 bits.
unfoldable pub magnitude : ℕ → Bytes → Option ℕ
unfolding digits_value
magnitude bound s =
    let n = digits_value 0 s in
    if not (s == []) && all is_digit s && leb n bound then some n else none

minus : ℕ → ℤ
minus zero = pos 0
minus (suc n) = negsuc n

-- `strconv.Atoi`: none where it reports an error.
unfoldable pub atoi : Bytes → Option ℤ
unfolding magnitude minus
atoi [] = none
atoi (c ∷ rest) =
    if c == b'-'
    then Option.map minus (magnitude (2 ^ 63) rest)
    else Option.map pos (magnitude max_int (if c == b'+' then rest else c ∷ rest))

-- Digits of n, the last one first, for at most `fuel` of them.
unfoldable pub digits : ℕ → ℕ → Bytes
digits zero n = []
digits (suc fuel) n = (b'0' + n % 10) ∷ elim (n / 10) [ zero ↦ [] | suc m ↦ digits fuel (suc m) ]

-- `strconv.Itoa` of a count: n has at most n + 1 digits.
unfoldable pub itoa : ℕ → Bytes
unfolding digits
itoa n = reverse (digits (n + 1) n)

abbrev pub default_max_steps : ℕ
default_max_steps = 512

abbrev pub default_max_retries : ℕ
default_max_retries = 8

abbrev pub steps_of : Option ℤ → ℕ
steps_of none = default_max_steps
steps_of (some (pos n)) = if n == 0 then default_max_steps else n
steps_of (some (negsuc n)) = default_max_steps

-- `MaxSteps`, from the setting "max_steps" where there is one.
unfoldable pub max_steps : Option Bytes → ℕ
max_steps none = default_max_steps
max_steps (some v) = steps_of (atoi v)

-- `MaxRetries`, from the setting "max_retries".
unfoldable pub max_retries : Option Bytes → ℕ
max_retries none = default_max_retries
max_retries (some v) = elim (atoi v) [
  | none ↦ default_max_retries
  | some (pos n) ↦ n
  | some (negsuc n) ↦ default_max_retries
]
