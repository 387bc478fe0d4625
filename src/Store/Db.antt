-- ===== src/Store/Db.antt =====
-- The connection: SQL statements against the tables, each of which the driver may fail. The outcomes
-- of the driver are given ahead, in the order of the statements; beyond their end none fails.

pub mod Keeps
pub mod Failing
use hopskip.Base.{Bool, true, false, List, [], ◌∷◌, Option, if◌then◌else◌}
use hopskip.Store.Tables.{Tables, Error, driver_failure}

pub data Result {ℓ} (A : Type ℓ) : Type ℓ where
  ok : A → Result A
  err : Error → Result A

pub record Db : Type 0 where
  pub tables : Tables
  -- `true` where the driver fails the statement
  pub faults : List Bool

-- A database whose driver fails nothing.
abbrev pub calm : Tables → Db
calm t = record { tables = t; faults = [] }

-- A method of the store: its result, error or not, and what it leaves behind.
abbrev pub M : Type 0 → Type 0
M A = Db → Result A × Db

module _ {A : Type 0} where
  unfoldable pub pure : A → M A
  pure a db = (ok a, db)

  unfoldable pub fail : Error → M A
  fail e db = (err e, db)

  unfoldable pub settle : List Bool → Tables → Result (A × Tables) → Result A × Db
  settle rest old (ok (a, t)) = (ok a, record { tables = t; faults = rest })
  settle rest old (err e) = (err e, record { tables = old; faults = rest })

  unfoldable pub strike : List Bool → Tables → (Tables → Result (A × Tables)) → Result A × Db
  unfolding settle
  strike [] t q = settle [] t (q t)
  strike (true ∷ rest) t q = (err driver_failure, record { tables = t; faults = rest })
  strike (false ∷ rest) t q = settle rest t (q t)

  -- A statement that changes rows: it may break a constraint, and then changes nothing.
  unfoldable pub exec : (Tables → Result (A × Tables)) → M A
  unfolding strike
  exec q db = strike db.faults db.tables q

  -- A statement that reads.
  unfoldable pub query : (Tables → A) → M A
  unfolding exec
  query q = exec (λ t. ok (q t, t))

  -- `_ = m`, `v, _ := m`: the error is looked at by nobody.
  unfoldable pub caught : Result A × Db → Result (Result A) × Db
  caught (r, db) = (ok r, db)

  unfoldable pub catch : M A → M (Result A)
  unfolding caught
  catch m db = caught (m db)

module _ {A B : Type 0} where
  unfoldable pub continue : Result A × Db → (A → M B) → Result B × Db
  continue (ok a, db) f = f a db
  continue (err e, db) f = (err e, db)

  infixl 5 ◌>>=◌ ◌>>◌
  unfoldable pub ◌>>=◌ : M A → (A → M B) → M B
  unfolding continue pure fail exec query catch
  ◌>>=◌ m f db = continue (m db) f

  abbrev pub ◌>>◌ : M A → M B → M B
  m >> k = m >>= λ _. k

-- A failed transaction leaves the rows as they were when it began.
module _ {A : Type 0} where
  unfoldable pub rolled_back : Tables → Result A × Db → Result A × Db
  rolled_back old (ok a, db) = (ok a, db)
  rolled_back old (err e, db) = (err e, record db { tables = old })

  unfoldable pub transaction : M A → M A
  unfolding rolled_back
  transaction m db = rolled_back db.tables (m db)

-- `value`, or what Go leaves in a variable that a failed scan did not set.
abbrev pub result_or {ℓ} : {A : Type ℓ} → Result A → A → A
result_or (ok a) d = a
result_or (err e) d = d
