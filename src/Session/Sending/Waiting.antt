-- ===== src/Session/Sending/Waiting.antt =====
-- How long `SendKeys` waits, and for what.
use hopskip.Base.{
  ℕ, zero, suc, ◌+◌, ◌*◌, ◌/◌, ◌≤◌, ◌<◌, ◌≡◌, refl, ap, ◌∙◌, Bool, true, false, Option, none, some,
  arith, leb, nat_eq, bytes_eq, pair_eq, int_eq, ℤ, pos,
}
use hopskip.Text.{Bytes}
use hopskip.Store.Db.{Result, ok, err}
use hopskip.Store.Tables.{Error}
use hopskip.Session.Screen.{to_cr}
use hopskip.Session.Sending.{
  find_stamp, sent_line, wait_of, Shell, Sent, capture, timed_out, finished, judged, looked, await,
  pause, enough_looks, guarded, send_keys,
}
use hopskip.Session.Sending.Stamps.{Shows, find_stamp-Shows, find_stamp-none}

-- `time.Sleep` does not return early.
abbrev pub Sleeps : Shell → Type 0
Sleeps shell = (n : ℕ) → shell.clock n + pause ≤ shell.clock (suc n)

-- What the n-th look sees on the screen.
abbrev Sees : Shell → ℕ → Bytes → Type 0
Sees shell n screen = capture (pos 0) (shell.look n) ≡ ok screen

abbrev IsUnstamped : (nonce screen : Bytes) → Type 0
IsUnstamped nonce screen = (digits : Bytes) → ¬ Shows nonce screen digits

-- The answer from the n-th look on: an error where the session is gone, the exit code that the screen
-- shows, the screen once the time is over, or else that from the next look on.
pub data Awaits (nonce : Bytes) (wait : ℕ) (shell : Shell) : ℕ → Result Sent → Type 0 where
  gone :
      (n : ℕ) (e : Error)
      → capture (pos 0) (shell.look n) ≡ err e
      → Awaits nonce wait shell n (err e)
  done :
      (n : ℕ) (screen digits : Bytes)
      → Sees shell n screen
      → Shows nonce screen digits
      → Awaits nonce wait shell n (ok (finished screen digits))
  late :
      (n : ℕ) (screen : Bytes)
      → Sees shell n screen
      → IsUnstamped nonce screen
      → wait ≤ shell.clock n
      → Awaits nonce wait shell n (ok (timed_out screen))
  again :
      (n : ℕ) (screen : Bytes) (r : Result Sent)
      → Sees shell n screen
      → IsUnstamped nonce screen
      → shell.clock n < wait
      → Awaits nonce wait shell (suc n) r
      → Awaits nonce wait shell n r

module _ (nonce : Bytes) (wait : ℕ) (shell : Shell) where
  -- There is an answer, and it is the right one.
  abbrev Settles : Option (Result Sent) → ℕ → Type 0
  Settles o n = (r : Result Sent) × (o ≡ some r) × Awaits nonce wait shell n r

  judged-Settles :
      (n : ℕ) (screen : Bytes) (is_late : Bool) (rest : Option (Result Sent)) (found : Option Bytes)
      → Sees shell n screen
      → find_stamp nonce screen ≡ found
      → leb wait (shell.clock n) ≡ is_late
      → (is_late ≡ false → Settles rest (suc n))
      → Settles (judged is_late rest screen found) n
  judged-Settles n screen is_late rest (some digits) sees e _ later = (
    ok (finished screen digits),
    refl,
    done n screen digits sees (find_stamp-Shows nonce screen digits e),
  )
  judged-Settles n screen true rest none sees e over later = (
    ok (timed_out screen),
    refl,
    late n screen sees (λ d. find_stamp-none nonce screen d e) (ground (arith, over)),
  )
  judged-Settles n screen false rest none sees e early later =
      let (r, is_r, awaits) = later refl in
      (
        r,
        is_r,
        again n screen r sees (λ d. find_stamp-none nonce screen d e) (ground (arith, early))
            awaits,
      )

  looked-Settles :
      (n : ℕ) (is_late : Bool) (rest : Option (Result Sent)) (seen : Result Bytes)
      → capture (pos 0) (shell.look n) ≡ seen
      → leb wait (shell.clock n) ≡ is_late
      → (is_late ≡ false → Settles rest (suc n))
      → Settles (looked nonce is_late rest seen) n
  looked-Settles n is_late rest (err e) sees _ later = (err e, refl, gone n e sees)
  looked-Settles n is_late rest (ok screen) sees h later =
      judged-Settles n screen is_late rest (find_stamp nonce screen) sees refl h later

  await-Settles :
      Sleeps shell
      → (fuel n : ℕ) → wait ≤ shell.clock n + fuel * pause
      → Settles (await (suc fuel) nonce wait shell n) n
  unfolding await
  await-Settles sleeps zero n h =
      looked-Settles n (leb wait (shell.clock n)) _ _ refl refl
        (λ early. absurd (ground (arith, early, h)))
  await-Settles sleeps (suc fuel) n h =
      looked-Settles n (leb wait (shell.clock n)) _ _ refl refl
        (λ early. await-Settles sleeps fuel (suc n) (omega (arith, h, sleeps n)))

-- Keys that are typed into a live session whose terminal takes them, with the wait for their end,
-- are always answered, where a sleep of 100 ms takes at least that: the looks at the screen go on
-- while it shows no stamp with this nonce and the time is not over, an answer with an exit code is
-- that of a stamp that the screen shows, and a timeout comes only after the whole wait, with no
-- stamp on the screen.
pub send_keys-Awaits :
    (nonce keys : Bytes) (timeout_ms : ℤ) (shell : Shell)
    → Sleeps shell
    → shell.is_live ≡ true
    → shell.takes ≡ true
    → (r : Result Sent) × (send_keys nonce keys true timeout_ms shell
        ≡ (some (to_cr (sent_line nonce keys)), some r))
      × Awaits nonce (wait_of timeout_ms) shell 0 r
unfolding send_keys
send_keys-Awaits nonce keys timeout_ms shell sleeps is_live takes =
    let wait = wait_of timeout_ms in
    let (r, is_r, awaits) =
      await-Settles nonce wait shell sleeps (suc (wait / pause)) 0 (omega arith) in
    let written = to_cr (sent_line nonce keys) in
    (
      r,
      ap (λ b. guarded b shell.takes written (await (enough_looks wait) nonce wait shell 0)) is_live
          ∙ ap (λ b. guarded true b written (await (enough_looks wait) nonce wait shell 0)) takes
          ∙ ap (λ o. (some written, o)) is_r,
      awaits,
    )
