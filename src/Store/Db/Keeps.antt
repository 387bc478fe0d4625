-- ===== src/Store/Db/Keeps.antt =====
-- Properties of the tables that a method keeps whatever its driver does, a rule for each construct.
use hopskip.Base.{◌≡◌, refl, Bool, true, false, List, [], ◌∷◌, if◌then◌else◌}
use hopskip.Store.Tables.{Tables, Error}
use hopskip.Store.Db.{
  Result, ok, err, Db, M, pure, fail, exec, query, catch, ◌>>=◌, transaction, settle, strike,
  continue, rolled_back,
}

pub record Keeps {A : Type 0} (P : Tables → Type 0) (m : M A) : Type 0 where
  pub at : (db : Db) → P db.tables → P (m db).1.tables

-- What a statement leaves, where it succeeds.
abbrev pub Leaves : {A : Type 0} → (Tables → Type 0) → Result (A × Tables) → Type 0
Leaves P (ok (a, t)) = P t
Leaves P (err e) = Unit

module _ {A : Type 0} (P : Tables → Type 0) where
  settle-Keeps :
      (rest : List Bool) (t : Tables) (r : Result (A × Tables))
      → P t
      → Leaves P r
      → P (settle rest t r).1.tables
  unfolding settle
  settle-Keeps rest t (ok (a, u)) h k = k
  settle-Keeps rest t (err e) h k = h

  strike-Keeps :
      (faults : List Bool) (t : Tables) (q : Tables → Result (A × Tables))
      → P t
      → Leaves P (q t)
      → P (strike faults t q).1.tables
  unfolding strike
  strike-Keeps [] t q h k = settle-Keeps [] t (q t) h k
  strike-Keeps (true ∷ rest) t q h k = h
  strike-Keeps (false ∷ rest) t q h k = settle-Keeps rest t (q t) h k

  rolled_back-Keeps :
      (old : Tables) (r : Result A × Db) → P old → P r.1.tables → P (rolled_back old r).1.tables
  unfolding rolled_back
  rolled_back-Keeps old (ok a, db) h k = k
  rolled_back-Keeps old (err e, db) h k = h

module _ {A B : Type 0} (P : Tables → Type 0) where
  continue-Keeps :
      (r : Result A × Db) (f : A → M B)
      → P r.1.tables
      → ((a : A) → Keeps P (f a))
      → P (continue r f).1.tables
  unfolding continue
  continue-Keeps (ok a, db) f h k = (k a).at db h
  continue-Keeps (err e, db) f h k = h

module _ {A : Type 0} {P : Tables → Type 0} where
  pub Keeps-pure : (a : A) → Keeps P (pure a)
  unfolding pure
  Keeps-pure a = record { at = λ db h. h }

  pub Keeps-fail : (e : Error) → Keeps P (fail {A = A} e)
  unfolding fail
  Keeps-fail e = record { at = λ db h. h }

  pub Keeps-exec :
      (q : Tables → Result (A × Tables)) → ((t : Tables) → P t → Leaves P (q t)) → Keeps P (exec q)
  unfolding exec
  Keeps-exec q k = record { at = λ db h. strike-Keeps P db.faults db.tables q h (k db.tables h) }

  pub Keeps-query : (q : Tables → A) → Keeps P (query q)
  unfolding query
  Keeps-query q = Keeps-exec (λ t. ok (q t, t)) (λ t h. h)

  pub Keeps-catch : (m : M A) → Keeps P m → Keeps P (catch m)
  unfolding catch
  Keeps-catch m k = record { at = λ db h. k.at db h }

  pub Keeps-transaction : (m : M A) → Keeps P m → Keeps P (transaction m)
  unfolding transaction
  Keeps-transaction m k = record { at = λ db h. rolled_back-Keeps P db.tables (m db) h (k.at db h) }

  pub Keeps-if :
      (b : Bool) (first second : M A)
      → (b ≡ true → Keeps P first)
      → (b ≡ false → Keeps P second)
      → Keeps P (if b then first else second)
  Keeps-if true first second holds _ = holds refl
  Keeps-if false first second _ holds = holds refl

module _ {A B : Type 0} {P : Tables → Type 0} where
  pub Keeps-bind :
      (m : M A) (f : A → M B) → Keeps P m → ((a : A) → Keeps P (f a)) → Keeps P (m >>= f)
  unfolding ◌>>=◌
  Keeps-bind m f km kf = record { at = λ db h. continue-Keeps P (m db) f (km.at db h) kf }

pub ruleset keeps_rules =
    (Keeps-pure, Keeps-fail, Keeps-query, Keeps-catch, Keeps-transaction, Keeps-if, Keeps-bind)
