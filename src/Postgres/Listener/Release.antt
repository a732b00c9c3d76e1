-- ===== src/Postgres/Listener/Release.antt =====
-- `Listener.close` of src/txoutbox/adapters/postgres.py and the pool's connections.
use txoutbox.Base.{ℕ, ◌≤◌, ◌≡◌, refl, ◌∙◌, Bool, true, false, Option, some, List, [], ◌∷◌, arith}
use txoutbox.Postgres.Listener.{
  not_called, returned, Listener, is_alive, take_conn, may_close, Event, notified, timer_due, loses,
  terminated, resumes, pool_closes, closes, closes_on, step, run, on_notify, fire, on_terminated,
  set_task, loop_head, sleep, resume, close, close_on, init, start,
}
use txoutbox.Postgres.Listener.Invariant.{Sound, step-Sound, run-Sound, start-Sound}

Sound-slots : (l : Listener) → Sound l → l.slots ≤ 1
Sound-slots l s = ground arith

-- Nothing of the listener is left: no connection of the pool, no timer, no task.
abbrev pub IsGone : Listener → Type 0
IsGone l =
    (l.slots ≡ 0)
    × (l.is_connected ≡ false)
    × (l.has_timer ≡ false)
    × (is_alive l.reconnect_task ≡ false)

returned-IsGone : (l : Listener) → Sound l → l.closing ≡ returned → IsGone l
returned-IsGone l s e = ground arith

abbrev pub closing_events : Bool → Bool → List Event
closing_events a b = closes ∷ resumes a ∷ resumes b ∷ closes_on ∷ closes_on ∷ closes_on ∷ []

closing_events-returned :
    (a b : Bool) (l : Listener)
    → Sound l
    → l.closing ≡ not_called
    → (run (closing_events a b) l).closing ≡ returned
unfolding run step resume close close_on take_conn set_task loop_head sleep
closing_events-returned a b l s e = ground arith

step-returned :
    (e : Event) (l : Listener) → Sound l → l.closing ≡ returned → (step e l).closing ≡ returned
unfolding step on_notify fire on_terminated resume close close_on take_conn set_task loop_head sleep
step-returned notified l s c = ground arith
step-returned timer_due l s c = ground arith
step-returned loses l s c = ground arith
step-returned terminated l s c = ground arith
step-returned (resumes ok) l s c = ground arith
step-returned pool_closes l s c = ground arith
step-returned closes l s c = ground arith
step-returned closes_on l s c = ground arith

stays-IsGone : (es : List Event) (l : Listener) → Sound l → l.closing ≡ returned → IsGone (run es l)
unfolding run
stays-IsGone [] l s c = returned-IsGone l s c
stays-IsGone (e ∷ es) l s c = stays-IsGone es (step e l) (step-Sound e l s) (step-returned e l s c)

-- Whatever happens to a listener that has started, it has at most one connection of the pool. Once
-- `close` has returned, whatever happened before and whatever happens after, the listener has no
-- connection, no timer and no task. And if `close` has not been called, a call of it returns when
-- the task takes at most two more steps and `close` itself three, whatever the pool answers to the
-- task.
pub close_releases :
    (delay : Option ℕ) (l : Listener) (es later : List Event) (a b : Bool)
    → start true true (init delay) ≡ some l
    → ((run es l).slots ≤ 1)
      × ((run es l).closing ≡ returned → IsGone (run later (run es l)))
      × ((run es l).closing ≡ not_called → (run (closing_events a b) (run es l)).closing ≡ returned)
close_releases delay l es later a b e =
    let s = run-Sound es l (start-Sound delay true true l e) in
    (
      Sound-slots (run es l) s,
      stays-IsGone later (run es l) s,
      closing_events-returned a b (run es l) s,
    )

step-closed :
    (e : Event) (l : Listener)
    → l.is_closed ≡ true
    → ((step e l).is_closed ≡ true) × ((step e l).callbacks ≡ l.callbacks)
unfolding step on_notify fire on_terminated resume close close_on take_conn set_task loop_head sleep
step-closed notified l c = ground arith
step-closed timer_due l c = ground arith
step-closed loses l c = ground arith
step-closed terminated l c = ground arith
step-closed (resumes ok) l c = ground arith
step-closed pool_closes l c = ground arith
step-closed closes l c = ground arith
step-closed closes_on l c = ground arith

run-closed :
    (es : List Event) (l : Listener) → l.is_closed ≡ true → (run es l).callbacks ≡ l.callbacks
unfolding run
run-closed [] l c = refl
run-closed (e ∷ es) l c = let (c', same) = step-closed e l c in run-closed es (step e l) c' ∙ same

close-closed :
    (l : Listener)
    → may_close l.closing ≡ true
    → ((step closes l).is_closed ≡ true) × ((step closes l).callbacks ≡ l.callbacks)
unfolding step close take_conn
close-closed l may = ground arith

-- From the call of `close` on, the callback is not called again, whatever happens: a notification
-- that is on its way, a timer, a lost connection, or a task that runs on.
pub silent_after_close :
    (es : List Event) (l : Listener)
    → l.closing ≡ not_called
    → (run (closes ∷ es) l).callbacks ≡ l.callbacks
unfolding run
silent_after_close es l e =
    let (c, same) = close-closed l (ground arith) in run-closed es (step closes l) c ∙ same
