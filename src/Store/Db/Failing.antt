-- ===== src/Store/Db/Failing.antt =====
-- What a method of the store leaves where it fails, a rule for each construct.
use mathlib.Core.Path.{subst}
use hopskip.Base.{◌≡◌, refl, Bool, true, false, List, [], ◌∷◌}
use hopskip.Store.Tables.{Tables}
use hopskip.Store.Db.{
  Result, ok, err, Db, M, exec, settle, strike, continue, ◌>>=◌, rolled_back, transaction,
}
use hopskip.Store.Db.Keeps.{Keeps}

-- Where it fails, nothing has changed.
abbrev pub Undone : {A : Type 0} → Tables → Result A × Db → Type 0
Undone old (err e, db) = db.tables ≡ old
Undone old (ok a, db) = Unit

pub record Atomic {A : Type 0} (m : M A) : Type 0 where
  pub at : (db : Db) → Undone db.tables (m db)

-- It changes no row, whether it succeeds or fails.
pub record Reads {A : Type 0} (m : M A) : Type 0 where
  pub at : (old : Tables) → Keeps (λ t. t ≡ old) m

module _ {A : Type 0} where
  settle-Undone :
      (rest : List Bool) (t : Tables) (r : Result (A × Tables)) → Undone t (settle rest t r)
  unfolding settle
  settle-Undone rest t (ok (a, u)) = tt
  settle-Undone rest t (err e) = refl

  strike-Undone :
      (faults : List Bool) (t : Tables) (q : Tables → Result (A × Tables))
      → Undone t (strike faults t q)
  unfolding strike
  strike-Undone [] t q = settle-Undone [] t (q t)
  strike-Undone (true ∷ rest) t q = refl
  strike-Undone (false ∷ rest) t q = settle-Undone rest t (q t)

  pub Atomic-exec : (q : Tables → Result (A × Tables)) → Atomic (exec q)
  unfolding exec
  Atomic-exec q = record { at = λ db. strike-Undone db.faults db.tables q }

  Reads-Undone : (old : Tables) (p : Result A × Db) → p.1.tables ≡ old → Undone old p
  Reads-Undone old (ok a, db) h = tt
  Reads-Undone old (err e, db) h = h

  pub Atomic-Reads : (m : M A) → Reads m → Atomic m
  Atomic-Reads m r = record {
    at = λ db. Reads-Undone db.tables (m db) ((r.at db.tables).at db refl);
  }

  rolled_back-Undone : (old : Tables) (p : Result A × Db) → Undone old (rolled_back old p)
  unfolding rolled_back
  rolled_back-Undone old (ok a, db) = tt
  rolled_back-Undone old (err e, db) = refl

  pub Atomic-transaction : (m : M A) → Atomic (transaction m)
  unfolding transaction
  Atomic-transaction m = record { at = λ db. rolled_back-Undone db.tables (m db) }

module _ {A B : Type 0} where
  continue-Undone :
      (old : Tables) (p : Result A × Db) (k : A → M B)
      → p.1.tables ≡ old
      → ((a : A) → Atomic (k a))
      → Undone old (continue p k)
  unfolding continue
  continue-Undone old (ok a, db) k same h = subst (λ u. Undone u (k a db)) same ((h a).at db)
  continue-Undone old (err e, db) k same h = same

  pub Atomic-bind : (m : M A) (k : A → M B) → Reads m → ((a : A) → Atomic (k a)) → Atomic (m >>= k)
  unfolding ◌>>=◌
  Atomic-bind m k r h = record {
    at = λ db. continue-Undone db.tables (m db) k ((r.at db.tables).at db refl) h;
  }
