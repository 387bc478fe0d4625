-- ===== src/Server/Replies.antt =====
-- Rules for the handlers of internal/server: what a reply says of the rows, a rule for each
-- construct.
use hopskip.Base.{
  ℕ, ◌≡◌, refl, arith, leb, ltb, ◌&&◌, ◌||◌, Bool, true, false, Option, none, some, if◌then◌else◌,
  ◌==◌, nat_eq, ℤ, Option-cases, inl, inr,
}
pub mod Inventory
pub mod Settings
pub mod Others
use mathlib.Core.Path.{subst}
use hopskip.Text.{Bytes}
use hopskip.Store.Tables.{Tables, Error}
use hopskip.Store.Db.{Result, ok, err, Db, M, pure, catch, caught, continue, ◌>>=◌, ◌>>◌}
use hopskip.Store.Db.Failing.{Undone, Atomic, Reads}
use hopskip.Agent.Limits.{atoi}
use hopskip.Server.Api.{
  Reply, Body, write_json, write_err, internal_error, by_result, attempt, with_body, with_id,
  with_number,
}
use hopskip.Server.Hosts.{quietly}

-- The request was carried out, or an error of the store or the system stopped it.
abbrev pub is_accepted : ℕ → Bool
is_accepted code = code == 200 || code == 201 || code == 500

-- The request is refused: nothing is wrong with the server.
abbrev pub is_refused : ℕ → Bool
is_refused code = code == 400 || code == 404 || code == 409

-- A reply that accepts, or refuses with every row as it was; and never no reply at all.
abbrev pub Settled : Tables → Result Reply × Db → Type 0
Settled old (err e, db) = false ≡ true
Settled old (ok r, db) =
    (is_accepted r.code || is_refused r.code ≡ true) × (is_refused r.code ≡ true → db.tables ≡ old)

abbrev pub Accepted : Result Reply × Db → Type 0
Accepted (err e, db) = false ≡ true
Accepted (ok r, db) = is_accepted r.code ≡ true

abbrev pub Succeeded : {A : Type 0} → Result A × Db → Type 0
Succeeded (err e, db) = false ≡ true
Succeeded (ok a, db) = Unit

pub record Settles (m : M Reply) : Type 0 where
  pub at : (db : Db) → Settled db.tables (m db)

pub record Accepts (m : M Reply) : Type 0 where
  pub at : (db : Db) → Accepted (m db)

pub record Succeeds {A : Type 0} (m : M A) : Type 0 where
  pub at : (db : Db) → Succeeded (m db)

Accepted-Settled : (old : Tables) (p : Result Reply × Db) → Accepted p → Settled old p
Accepted-Settled old (err e, db) h = h
Accepted-Settled old (ok r, db) h = (ground (arith, h), λ k. absurd (ground (arith, h, k)))

pub Accepts-Settles : (m : M Reply) → Accepts m → Settles m
Accepts-Settles m h = record { at = λ db. Accepted-Settled db.tables (m db) (h.at db) }

pub write_json-Accepts :
    (code : ℕ) (body : Body) → is_accepted code ≡ true → Accepts (write_json code body)
unfolding pure
write_json-Accepts code body h = record { at = λ db. h }

pub write_json-Settles :
    (code : ℕ) (body : Body)
    → (is_accepted code || is_refused code ≡ true)
    → Settles (write_json code body)
unfolding pure
write_json-Settles code body h = record { at = λ db. (h, λ _. refl) }

pub internal_error-Accepts : (e : Error) → Accepts (internal_error e)
internal_error-Accepts e = write_json-Accepts 500 (Body.failure e) refl

pub internal_error-Settles : (e : Error) → Settles (internal_error e)
internal_error-Settles e = Accepts-Settles _ (internal_error-Accepts e)

module _ {A : Type 0} where
  by_result-Accepted :
      (p : Result A × Db) (f : Error → M Reply) (g : A → M Reply)
      → ((e : Error) → Accepts (f e))
      → ((a : A) → Accepts (g a))
      → Accepted (continue (caught p) (λ r. by_result r f g))
  unfolding continue caught
  by_result-Accepted (ok a, db) f g hf hg = (hg a).at db
  by_result-Accepted (err e, db) f g hf hg = (hf e).at db

  pub attempt-Accepts :
      (m : M A) (f : Error → M Reply) (g : A → M Reply)
      → ((e : Error) → Accepts (f e))
      → ((a : A) → Accepts (g a))
      → Accepts (attempt m f g)
  unfolding ◌>>=◌ catch
  attempt-Accepts m f g hf hg = record { at = λ db. by_result-Accepted (m db) f g hf hg }

  by_result-reading :
      (old : Tables) (p : Result A × Db) (f : Error → M Reply) (g : A → M Reply)
      → p.1.tables ≡ old
      → ((e : Error) → Settles (f e))
      → ((a : A) → Settles (g a))
      → Settled old (continue (caught p) (λ r. by_result r f g))
  unfolding continue caught
  by_result-reading old (ok a, db) f g same hf hg =
      subst (λ u. Settled u (g a db)) same ((hg a).at db)
  by_result-reading old (err e, db) f g same hf hg =
      subst (λ u. Settled u (f e db)) same ((hf e).at db)

  pub attempt-Settles :
      (m : M A) (f : Error → M Reply) (g : A → M Reply)
      → Reads m
      → ((e : Error) → Settles (f e))
      → ((a : A) → Settles (g a))
      → Settles (attempt m f g)
  unfolding ◌>>=◌ catch
  attempt-Settles m f g reads hf hg = record {
    at = λ db. by_result-reading db.tables (m db) f g ((reads.at db.tables).at db refl) hf hg;
  }

  by_result-atomic :
      (old : Tables) (p : Result A × Db) (f : Error → M Reply) (g : A → M Reply)
      → Undone old p
      → ((e : Error) → Settles (f e))
      → ((a : A) → Accepts (g a))
      → Settled old (continue (caught p) (λ r. by_result r f g))
  unfolding continue caught
  by_result-atomic old (ok a, db) f g same hf hg = Accepted-Settled old (g a db) ((hg a).at db)
  by_result-atomic old (err e, db) f g same hf hg =
      subst (λ u. Settled u (f e db)) same ((hf e).at db)

  -- A change that is refused has not been made.
  pub attempt_change-Settles :
      (m : M A) (f : Error → M Reply) (g : A → M Reply)
      → Atomic m
      → ((e : Error) → Settles (f e))
      → ((a : A) → Accepts (g a))
      → Settles (attempt m f g)
  unfolding ◌>>=◌ catch
  attempt_change-Settles m f g atomic hf hg = record {
    at = λ db. by_result-atomic db.tables (m db) f g (atomic.at db) hf hg;
  }

  continue-Accepted :
      (p : Result A × Db) (k : A → M Reply)
      → Succeeded p
      → ((a : A) → Accepts (k a))
      → Accepted (continue p k)
  unfolding continue
  continue-Accepted (ok a, db) k h hk = (hk a).at db
  continue-Accepted (err e, db) k h hk = h

  pub bind-Accepts :
      (m : M A) (k : A → M Reply) → Succeeds m → ((a : A) → Accepts (k a)) → Accepts (m >>= k)
  unfolding ◌>>=◌
  bind-Accepts m k h hk = record { at = λ db. continue-Accepted (m db) k (h.at db) hk }

  continue-Settled :
      (old : Tables) (p : Result A × Db) (k : A → M Reply)
      → p.1.tables ≡ old
      → Succeeded p
      → ((a : A) → Settles (k a))
      → Settled old (continue p k)
  unfolding continue
  continue-Settled old (ok a, db) k same h hk = subst (λ u. Settled u (k a db)) same ((hk a).at db)
  continue-Settled old (err e, db) k same h hk = absurd (cc)

  pub bind-Settles :
      (m : M A) (k : A → M Reply)
      → Reads m
      → Succeeds m
      → ((a : A) → Settles (k a))
      → Settles (m >>= k)
  unfolding ◌>>=◌
  bind-Settles m k reads h hk = record {
    at = λ db. continue-Settled db.tables (m db) k ((reads.at db.tables).at db refl) (h.at db) hk;
  }

  pub pure-Succeeds : (a : A) → Succeeds (pure a)
  unfolding pure
  pure-Succeeds a = record { at = λ db. tt }

  pub if-Succeeds :
      (b : Bool) (first second : M A)
      → Succeeds first
      → Succeeds second
      → Succeeds (if b then first else second)
  if-Succeeds true first second h k = h
  if-Succeeds false first second h k = k

  caught-Succeeded : (p : Result A × Db) → Succeeded (caught p)
  unfolding caught
  caught-Succeeded (r, db) = tt

  pub catch-Succeeds : (m : M A) → Succeeds (catch m)
  unfolding catch
  catch-Succeeds m = record { at = λ db. caught-Succeeded (m db) }

module _ {A B : Type 0} where
  continue-Succeeded :
      (p : Result A × Db) (k : A → M B)
      → Succeeded p
      → ((a : A) → Succeeds (k a))
      → Succeeded (continue p k)
  unfolding continue
  continue-Succeeded (ok a, db) k h hk = (hk a).at db
  continue-Succeeded (err e, db) k h hk = h

  pub bind-Succeeds :
      (m : M A) (k : A → M B) → Succeeds m → ((a : A) → Succeeds (k a)) → Succeeds (m >>= k)
  unfolding ◌>>=◌
  bind-Succeeds m k h hk = record { at = λ db. continue-Succeeded (m db) k (h.at db) hk }

pub quietly-Succeeds : (m : M Unit) → Succeeds (quietly m)
quietly-Succeeds m = bind-Succeeds _ _ (catch-Succeeds m) (λ r. pure-Succeeds tt)

pub if-Settles :
    (b : Bool) (first second : M Reply)
    → Settles first
    → Settles second
    → Settles (if b then first else second)
if-Settles true first second h k = h
if-Settles false first second h k = k

pub with_body-Settles :
    {B : Type 0} (body : Option B) (f : B → M Reply)
    → ((b : B) → Settles (f b))
    → Settles (with_body body f)
with_body-Settles none f h = write_json-Settles _ _ refl
with_body-Settles (some b) f h = h b

with_number-Settles :
    (o : Option ℤ) (f : ℤ → M Reply) → ((id : ℤ) → Settles (f id)) → Settles (with_number o f)
with_number-Settles none f h = write_json-Settles _ _ refl
with_number-Settles (some id) f h = h id

pub with_id-Settles :
    (text : Bytes) (f : ℤ → M Reply) → ((id : ℤ) → Settles (f id)) → Settles (with_id text f)
with_id-Settles text f h = with_number-Settles (atoi text) f h

-- An error of the store is a status 500, and success one of 200 or 201.
pub attempt_or_500-Settles :
    {A : Type 0} (m : M A) (g : A → M Reply)
    → ((a : A) → Accepts (g a))
    → Settles (attempt m internal_error g)
attempt_or_500-Settles m g h = Accepts-Settles _ (attempt-Accepts m _ g internal_error-Accepts h)
