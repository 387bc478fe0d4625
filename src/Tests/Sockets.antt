-- ===== src/Tests/Sockets.antt =====
-- A small chat socket.
use hopskip.Base.{◌≡◌, refl, false, List, [], ◌∷◌, ◌++◌, nat_eq, bytes_eq, bytes_beq}
use hopskip.Text.{Bytes, codes}
use hopskip.Store.Db.{Db, calm}
use hopskip.Server.Socket.{
  Job, Message, Worker, Event, comes, breaks, receives, begins, new_socket, run,
}
use hopskip.Server.Socket.Turns.{waiting, asked, IsBounded, run-IsServed}
use hopskip.Tests.Hosts.{empty, day}

abbrev says : Bytes → Event
says text = comes day (Message.user_message (codes "c1") text)

abbrev job : Bytes → Job
job text = record { chat_id = codes "c1"; text = text }

-- A stop that comes before the run can be cancelled is lost.
abbrev hasty : List Event
hasty = says (codes "a") ∷ says (codes "b") ∷ receives ∷ comes day Message.stop ∷ begins ∷ []

abbrev store : Db
store = calm empty

stop_lost : (run hasty (new_socket store)).worker ≡ Worker.running (job (codes "a")) false
unfolding run bytes_beq
stop_lost = refl

-- A ninth message behind a run keeps the read loop from a stop.
abbrev crowd : List Event
crowd =
    says (codes "0")
    ∷ receives
    ∷ begins
    ∷ says (codes "1")
    ∷ says (codes "2")
    ∷ says (codes "3")
    ∷ says (codes "4")
    ∷ says (codes "5")
    ∷ says (codes "6")
    ∷ says (codes "7")
    ∷ says (codes "8")
    ∷ says (codes "9")
    ∷ comes day Message.stop
    ∷ []

stop_unread : (run crowd (new_socket store)).worker ≡ Worker.running (job (codes "0")) false
unfolding run bytes_beq
stop_unread = refl

-- What was queued still runs when the browser is gone.
gone_but_run :
    (run (says (codes "a") ∷ breaks ∷ receives ∷ begins ∷ []) (new_socket store)).begun
    ≡ job (codes "a") ∷ []
unfolding run bytes_beq
gone_but_run = refl

run-IsServed_example :
    ((run hasty (new_socket store)).begun ++ waiting (run hasty (new_socket store))
      ≡ asked hasty (new_socket store))
    × IsBounded (run hasty (new_socket store))
run-IsServed_example = run-IsServed hasty store
