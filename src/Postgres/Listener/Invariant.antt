-- ===== src/Postgres/Listener/Invariant.antt =====
-- What holds of a `Listener` of src/txoutbox/adapters/postgres.py between its events.
use txoutbox.Base.{
  ℕ, ◌≤◌, ◌≡◌, Bool, true, false, ◌||◌, Option, some, List, [], ◌∷◌, arith, if◌then◌else◌,
  Bool-cases, Option-cases, inl, inr,
}
use txoutbox.Postgres.Listener.{
  Reconnecting, adding, giving_back, Closing, not_called, joining, resetting, releasing, Listener,
  is_alive, take_conn, Event, notified, timer_due, loses, terminated, resumes, pool_closes, closes,
  closes_on, may_close, step, run, on_notify, fire, on_terminated, set_task, loop_head, sleep,
  resume, close, close_on, init, start,
}

-- The task has a connection that is not yet, or no longer, the listener's.
abbrev pub has_conn : Option Reconnecting → Bool
has_conn (some (adding backoff)) = true
has_conn (some (giving_back backoff)) = true
has_conn _ = false

abbrev pub closing_has_conn : Closing → Bool
closing_has_conn resetting = true
closing_has_conn releasing = true
closing_has_conn _ = false

abbrev pub was_called : Closing → Bool
was_called not_called = false
was_called _ = true

-- `close` no longer waits for the task.
abbrev pub has_joined : Closing → Bool
has_joined not_called = false
has_joined joining = false
has_joined _ = true

-- The listener has at most one connection: its own, unless it is lost, or the task's, or the one that
-- `close` gives back.
abbrev pub capacity : Listener → ℕ
capacity l =
    if l.is_connected
    then (if l.is_lost then 0 else 1)
    else if has_conn l.reconnect_task || closing_has_conn l.closing
    then 1
    else 0

abbrev pub Sound : Listener → Type 0
Sound l =
    (l.slots ≤ capacity l)
    × (l.is_connected ≡ true → is_alive l.reconnect_task ≡ false)
    × (l.is_connected ≡ true → l.is_closed ≡ false)
    × (l.is_closed ≡ was_called l.closing)
    × (l.is_closed ≡ true → l.has_timer ≡ false)
    × (has_joined l.closing ≡ true → is_alive l.reconnect_task ≡ false)
    × (is_alive l.reconnect_task ≡ true → l.is_cancelled ≡ l.is_closed)
    × (l.is_closed ≡ false
        → l.pool_closing ≡ false
        → (l.is_connected || is_alive l.reconnect_task) ≡ true)
    × (l.is_closed ≡ false → l.is_lost ≡ true → l.is_connected ≡ true)

on_notify-Sound : (l : Listener) → Sound l → Sound (on_notify l)
unfolding on_notify
on_notify-Sound l s = ground arith

close-Sound : (l : Listener) → may_close l.closing ≡ true → Sound l → Sound (close l)
unfolding close take_conn
close-Sound l may s = ground arith

close_on-Sound : (l : Listener) → Sound l → Sound (close_on l.closing l)
unfolding close_on take_conn
close_on-Sound l s = ground arith

resume-Sound :
    (ok : Bool) (task : Reconnecting) (l : Listener)
    → l.reconnect_task ≡ some task
    → Sound l
    → Sound (resume ok task l)
unfolding resume loop_head set_task sleep
resume-Sound ok task l e s = ground arith

pub step-Sound : (e : Event) (l : Listener) → Sound l → Sound (step e l)
unfolding step fire on_terminated
step-Sound notified l s = on_notify-Sound l s
step-Sound timer_due l s = ground arith
step-Sound loses l s = ground arith
step-Sound terminated l s = ground arith
step-Sound (resumes ok) l s = elim (Option-cases l.reconnect_task) [
  | inl e ↦ rw (e, step) s
  | inr (task, e) ↦ rw (e, step) (resume-Sound ok task l e s)
]
step-Sound pool_closes l s = ground arith
step-Sound closes l s = elim (Bool-cases (may_close l.closing)) [
  | inl e ↦ rw (e, step) (close-Sound l e s)
  | inr e ↦ rw (e, step) s
]
step-Sound closes_on l s = close_on-Sound l s

pub run-Sound : (es : List Event) (l : Listener) → Sound l → Sound (run es l)
unfolding run
run-Sound [] l s = s
run-Sound (e ∷ es) l s = run-Sound es (step e l) (step-Sound e l s)

pub start-Sound :
    (delay : Option ℕ) (acquired added : Bool) (l : Listener)
    → start acquired added (init delay) ≡ some l
    → Sound l
unfolding start init
start-Sound delay acquired added l e = ground arith
