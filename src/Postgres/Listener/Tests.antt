-- ===== src/Postgres/Listener/Tests.antt =====
-- Runs of `Listener`, and its theorems at concrete histories.
use txoutbox.Base.{
  ℕ, ◌≤◌, ◌<◌, ◌≡◌, refl, true, false, Option, none, some, List, [], ◌∷◌, ◌++◌, ◌||◌,
}
use txoutbox.Postgres.Listener.{
  Listener, Event, not_called, returned, notified, timer_due, loses, terminated, resumes, closes,
  closes_on, init, start, step, run, on_notify, on_terminated, resume, loop_head, set_task, sleep,
  next_backoff, is_alive,
}
use txoutbox.Postgres.Listener.Release.{IsGone, closing_events, close_releases, silent_after_close}
use txoutbox.Postgres.Listener.Notices.{notices_lem}
use txoutbox.Postgres.Listener.Reconnect.{recovery, listener_recovers}

abbrev listening : Option ℕ → Listener
listening delay = record {
  delay = delay;
  is_connected = true;
  is_lost = false;
  is_closed = false;
  has_timer = false;
  reconnect_task = none;
  is_cancelled = false;
  closing = not_called;
  pool_closing = false;
  slots = 1;
  callbacks = 0;
  sleeps = [];
}

started : start true true (init (some 2000000)) ≡ some (listening (some 2050000))
unfolding start init
started = refl

-- The connection is lost, and two attempts to come back fail.
abbrev outage : List Event
outage =
    notified
    ∷ loses
    ∷ terminated
    ∷ resumes true
    ∷ resumes false
    ∷ resumes true
    ∷ resumes true
    ∷ resumes false
    ∷ notified
    ∷ resumes true
    ∷ resumes true
    ∷ []

outage_sleeps : (run outage (listening (some 2050000))).sleeps ≡ 1000000 ∷ 500000 ∷ []
unfolding run step on_notify on_terminated resume loop_head set_task sleep next_backoff
outage_sleeps = refl

still_open : (run outage (listening (some 2050000))).closing ≡ not_called
unfolding run step on_notify on_terminated resume loop_head set_task sleep next_backoff
still_open = refl

pool_goes_on : (run outage (listening (some 2050000))).pool_closing ≡ false
unfolding run step on_notify on_terminated resume loop_head set_task sleep next_backoff
pool_goes_on = refl

close_releases_example :
    let r = run outage (listening (some 2050000)) in
    (r.slots ≤ 1)
    × (r.closing ≡ returned → IsGone (run (notified ∷ timer_due ∷ []) r))
    × (r.closing ≡ not_called → (run (closing_events true false) r).closing ≡ returned)
close_releases_example =
    close_releases (some 2000000) (listening (some 2050000)) outage (notified ∷ timer_due ∷ []) true
      false started

silent_after_close_example :
    (run (closes ∷ notified ∷ timer_due ∷ closes_on ∷ []) (listening none)).callbacks ≡ 0
silent_after_close_example =
    silent_after_close (notified ∷ timer_due ∷ closes_on ∷ []) (listening none) refl

notices_example :
    let r = run (notified ∷ outage ++ timer_due ∷ []) (listening (some 2050000)) in
    (0 < r.callbacks) × (r.callbacks ≤ 3)
notices_example = notices_lem outage (listening (some 2050000)) refl refl

listener_recovers_example :
    let r = run outage (listening (some 2050000)) in
    ((r.is_connected || is_alive r.reconnect_task) ≡ true)
    × ((run recovery r).is_connected ≡ true)
    × ((run recovery r).is_lost ≡ false)
listener_recovers_example =
    listener_recovers (some 2000000) (listening (some 2050000)) outage started still_open
      pool_goes_on
