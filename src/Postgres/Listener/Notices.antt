-- ===== src/Postgres/Listener/Notices.antt =====
-- The notifications of `Listener` in src/txoutbox/adapters/postgres.py and its callback.
use txoutbox.Base.{
  ℕ, suc, ◌+◌, ◌≤◌, ◌<◌, ◌≡◌, refl, Bool, true, false, List, [], ◌∷◌, ◌++◌, arith, ltb, ◌||◌,
  if◌then◌else◌,
}
use txoutbox.Postgres.Listener.{
  Listener, Event, notified, timer_due, loses, terminated, resumes, pool_closes, closes, closes_on,
  step, run, on_notify, fire, on_terminated, set_task, loop_head, sleep, resume, close, close_on,
  take_conn,
}

abbrev pub without_close : List Event → Bool
without_close [] = true
without_close (closes ∷ es) = false
without_close (_ ∷ es) = without_close es

-- More than `n` calls, or the timer that will make them.
abbrev Pending : ℕ → Listener → Type 0
Pending n l =
    (l.is_closed ≡ false) × (n ≤ l.callbacks) × ((l.has_timer || ltb n l.callbacks) ≡ true)

step-Pending :
    (n : ℕ) (e : Event) (l : Listener)
    → without_close (e ∷ []) ≡ true
    → Pending n l
    → Pending n (step e l)
unfolding step on_notify fire on_terminated resume close_on take_conn set_task loop_head sleep
step-Pending n notified l w p = ground arith
step-Pending n timer_due l w p = ground arith
step-Pending n loses l w p = ground arith
step-Pending n terminated l w p = ground arith
step-Pending n (resumes ok) l w p = ground arith
step-Pending n pool_closes l w p = ground arith
step-Pending n closes l w p = cc
step-Pending n closes_on l w p = ground arith

fires : (n : ℕ) (l : Listener) → Pending n l → n < (step timer_due l).callbacks
unfolding step fire
fires n l p = ground arith

run-Pending :
    (n : ℕ) (es : List Event) (l : Listener)
    → without_close es ≡ true
    → Pending n l
    → n < (run (es ++ timer_due ∷ []) l).callbacks
unfolding run
run-Pending n [] l w p = fires n l p
run-Pending n (e ∷ es) l w p =
    run-Pending n es (step e l) (after e w) (step-Pending n e l (first e w) p)
  where
    first : (e : Event) → without_close (e ∷ es) ≡ true → without_close (e ∷ []) ≡ true
    first e w = ground arith

    after : (e : Event) → without_close (e ∷ es) ≡ true → without_close es ≡ true
    after e w = ground arith

notified-Pending : (l : Listener) → l.is_closed ≡ false → Pending l.callbacks (step notified l)
unfolding step on_notify
notified-Pending l fresh = ground arith

abbrev pub count_notices : List Event → ℕ
count_notices [] = 0
count_notices (notified ∷ es) = suc (count_notices es)
count_notices (_ ∷ es) = count_notices es

-- The calls made, and the one that the timer will make.
abbrev pub calls_due : Listener → ℕ
calls_due l = l.callbacks + (if l.has_timer then 1 else 0)

step-calls :
    (e : Event) (l : Listener) → calls_due (step e l) ≤ count_notices (e ∷ []) + calls_due l
unfolding step on_notify fire on_terminated resume close close_on take_conn set_task loop_head sleep
step-calls notified l = ground arith
step-calls timer_due l = ground arith
step-calls loses l = ground arith
step-calls terminated l = ground arith
step-calls (resumes ok) l = ground arith
step-calls pool_closes l = ground arith
step-calls closes l = ground arith
step-calls closes_on l = ground arith

calls_coalesced :
    (es : List Event) (l : Listener) → calls_due (run es l) ≤ count_notices es + calls_due l
unfolding run
calls_coalesced [] l = omega arith
calls_coalesced (e ∷ es) l = ground (arith, calls_coalesced es (step e l), step-calls e l, split e)
  where
    split : (e : Event) → count_notices (e ∷ es) ≡ count_notices (e ∷ []) + count_notices es
    split e = ground arith

count_notices-timer : (es : List Event) → count_notices (es ++ timer_due ∷ []) ≡ count_notices es
count_notices-timer [] = refl
count_notices-timer (e ∷ es) = ground (arith, count_notices-timer es)

-- Notifications are coalesced and none is lost: a listener that is open when it is notified, and not
-- closed before its timer is due again, calls the callback after the notification, whatever else
-- happens; and it makes no more calls than there are notifications, and one more if its timer was
-- running.
pub notices_lem :
    (es : List Event) (l : Listener)
    → l.is_closed ≡ false
    → without_close es ≡ true
    → let r = run (notified ∷ es ++ timer_due ∷ []) l in
      (l.callbacks < r.callbacks) × (r.callbacks ≤ suc (count_notices es) + calls_due l)
unfolding run
notices_lem es l fresh w = (
  run-Pending l.callbacks es (step notified l) w (notified-Pending l fresh),
  ground (arith, calls_coalesced (notified ∷ es ++ timer_due ∷ []) l, count_notices-timer es),
)
