-- ===== src/Store/Sessions/Reads.antt =====
-- Reading a session.
use hopskip.Base.{◌≡◌, refl, Option, none, some, nat_eq, bytes_eq, pair_eq, int_eq}
use hopskip.Text.{Bytes}
use hopskip.Store.Rows.{row}
use hopskip.Store.Db.{calm, ◌>>=◌}
use hopskip.Store.Db.Keeps.{Keeps, Keeps-bind, Keeps-query, Keeps-fail, Keeps-pure}
use hopskip.Store.Tables.{Tables, Session}
use hopskip.Store.Sessions.{session_id, or_not_found, get_session}

found_lem : (o : Option Session) (t : Tables) → (or_not_found o (calm t)).1 ≡ calm t
unfolding ◌>>=◌
found_lem none t = refl
found_lem (some s) t = refl

pub get_session_lem : (id : Bytes) (t : Tables) → (get_session id (calm t)).1 ≡ calm t
unfolding get_session ◌>>=◌
get_session_lem id t = found_lem (row session_id id t.sessions) t

module _ {P : Tables → Type 0} where
  found-Keeps : (o : Option Session) → Keeps P (or_not_found o)
  found-Keeps none = Keeps-fail _
  found-Keeps (some s) = Keeps-pure s

  pub get_session-Keeps : (id : Bytes) → Keeps P (get_session id)
  unfolding get_session
  get_session-Keeps id = Keeps-bind _ _ (Keeps-query _) found-Keeps
