-- ===== src/Postgres/Listener/Reconnect.antt =====
-- `Listener._reconnect` of src/txoutbox/adapters/postgres.py: the sleeps between its attempts, and
-- that it connects.
use txoutbox.Base.{
  ℕ, zero, suc, ◌*◌, ◌≤◌, ◌≡◌, refl, ap, sym, subst, ◌∙◌, Bool, true, false, Option, none, some,
  List, [], ◌∷◌, arith, leb, length, All, if◌then◌else◌, Option-cases, inl, inr, ◌||◌,
}
use txoutbox.Postgres.Listener.{
  Reconnecting, created, acquiring, adding, giving_back, sleeping, ended, Listener, Event, notified,
  timer_due, loses, terminated, resumes, pool_closes, closes, closes_on, step, run, on_notify, fire,
  on_terminated, set_task, loop_head, sleep, resume, close, close_on, take_conn, next_backoff, init,
  start, initial_backoff, max_backoff, is_alive, not_called,
}
use txoutbox.Postgres.Listener.Invariant.{Sound, run-Sound, start-Sound}

abbrev pub pow2 : ℕ → ℕ
pow2 zero = 1
pow2 (suc n) = 2 * pow2 n

-- The backoff after `n` failed attempts.
abbrev pub backoff_after : ℕ → ℕ
backoff_after n =
    if leb (initial_backoff * pow2 n) max_backoff then initial_backoff * pow2 n else max_backoff

-- The sleeps after the first `n` failed attempts, the last one first.
abbrev pub backoffs : ℕ → List ℕ
backoffs zero = []
backoffs (suc n) = backoff_after n ∷ backoffs n

next-backoff_after : (n : ℕ) → next_backoff (backoff_after n) ≡ backoff_after (suc n)
unfolding next_backoff
next-backoff_after n = ground arith

pow2-pos : (n : ℕ) → 1 ≤ pow2 n
pow2-pos zero = omega arith
pow2-pos (suc n) = omega (arith, pow2-pos n)

-- The task is at its attempt after `n` failures.
abbrev Paced : ℕ → Option Reconnecting → Type 0
Paced n none = Unit
Paced n (some created) = n ≡ 0
Paced n (some (acquiring b)) = b ≡ backoff_after n
Paced n (some (adding b)) = b ≡ backoff_after n
Paced n (some (giving_back b)) = b ≡ backoff_after n
Paced n (some (sleeping b)) = next_backoff b ≡ backoff_after n
Paced n (some ended) = Unit

abbrev Sleeps : Listener → Type 0
Sleeps l = (l.sleeps ≡ backoffs (length l.sleeps)) × Paced (length l.sleeps) l.reconnect_task

sleep-Sleeps :
    (b : ℕ) (sleeps : List ℕ)
    → sleeps ≡ backoffs (length sleeps)
    → b ≡ backoff_after (length sleeps)
    → ((b ∷ sleeps) ≡ backoffs (length (b ∷ sleeps)))
      × (next_backoff b ≡ backoff_after (length (b ∷ sleeps)))
sleep-Sleeps b sleeps e p =
    ((λ i. p i ∷ e i), ap next_backoff p ∙ next-backoff_after (length sleeps))

resume-Sleeps :
    (ok : Bool) (task : Reconnecting) (l : Listener)
    → l.reconnect_task ≡ some task
    → l.sleeps ≡ backoffs (length l.sleeps)
    → Paced (length l.sleeps) (some task)
    → Sleeps (resume ok task l)
unfolding resume loop_head set_task sleep
resume-Sleeps ok created l at e p =
    let q : backoff_after (length l.sleeps) ≡ initial_backoff = rw p refl in ground arith
resume-Sleeps ok (acquiring b) l at e p = ground (arith, sleep-Sleeps b l.sleeps e p)
resume-Sleeps ok (adding b) l at e p = ground arith
resume-Sleeps ok (giving_back b) l at e p = ground (arith, sleep-Sleeps b l.sleeps e p)
resume-Sleeps ok (sleeping b) l at e p = ground arith
resume-Sleeps ok ended l at e p = (e, rw at tt)

step-Sleeps : (e : Event) (l : Listener) → Sleeps l → Sleeps (step e l)
unfolding step on_notify fire on_terminated resume close close_on take_conn
step-Sleeps notified l s = ground arith
step-Sleeps timer_due l s = ground arith
step-Sleeps loses l s = s
step-Sleeps terminated l s = ground arith
step-Sleeps (resumes ok) l s = elim (Option-cases l.reconnect_task) [
  | inl e ↦ rw (e, step) s
  | inr (task, e) ↦ rw (e, step) (resume-Sleeps ok task l e s.0 (rw e at s.1))
]
step-Sleeps pool_closes l s = s
step-Sleeps closes l s = ground arith
step-Sleeps closes_on l s = ground arith

run-Sleeps : (es : List Event) (l : Listener) → Sleeps l → Sleeps (run es l)
unfolding run
run-Sleeps [] l s = s
run-Sleeps (e ∷ es) l s = run-Sleeps es (step e l) (step-Sleeps e l s)

backoffs-bounded : (n : ℕ) → All (λ b. (initial_backoff ≤ b) × (b ≤ max_backoff)) (backoffs n)
backoffs-bounded zero = tt
backoffs-bounded (suc n) = (between n, backoffs-bounded n)
  where
    between : (n : ℕ) → (initial_backoff ≤ backoff_after n) × (backoff_after n ≤ max_backoff)
    between n = ground (arith, pow2-pos n)

start-Sleeps : (delay : Option ℕ) (l : Listener) → start true true (init delay) ≡ some l → Sleeps l
unfolding start init
start-Sleeps delay l e = ground arith

-- Whatever happens to a listener that has started: the sleeps since its connection was last lost
-- are 500 ms after the first failed attempt, twice as long after each further one, and never more
-- than 10 s.
pub sleeps_lem :
    (delay : Option ℕ) (l : Listener) (es : List Event)
    → start true true (init delay) ≡ some l
    → let sleeps = (run es l).sleeps in
      (sleeps ≡ backoffs (length sleeps))
      × All (λ b. (initial_backoff ≤ b) × (b ≤ max_backoff)) sleeps
sleeps_lem delay l es e =
    let paced = (run-Sleeps es l (start-Sleeps delay l e)).0 in
    (
      paced,
      subst (λ sleeps. All (λ b. (initial_backoff ≤ b) × (b ≤ max_backoff)) sleeps) (sym paced)
          (backoffs-bounded (length (run es l).sleeps)),
    )

-- The call of `_on_terminated` that may be due, and a task that meets no further failure.
abbrev pub recovery : List Event
recovery = terminated ∷ resumes true ∷ resumes true ∷ resumes true ∷ resumes true ∷ []

recovery-connected :
    (l : Listener)
    → Sound l
    → l.closing ≡ not_called
    → l.pool_closing ≡ false
    → let r = run recovery l in (r.is_connected ≡ true) × (r.is_lost ≡ false)
unfolding run step on_terminated resume loop_head set_task sleep
recovery-connected l s still goes = ground arith

-- A listener that has started, is not closed and whose pool is not closing always comes back: it
-- has its connection or a task that is alive, and it is connected once `acquire` and `add_listener`
-- succeed and a sleep is over, wherever its task was.
pub listener_recovers :
    (delay : Option ℕ) (l : Listener) (es : List Event)
    → start true true (init delay) ≡ some l
    → (run es l).closing ≡ not_called
    → (run es l).pool_closing ≡ false
    → let r = run es l in
      ((r.is_connected || is_alive r.reconnect_task) ≡ true)
      × ((run recovery r).is_connected ≡ true)
      × ((run recovery r).is_lost ≡ false)
listener_recovers delay l es e still goes =
    let s = run-Sound es l (start-Sound delay true true l e) in
    let back = recovery-connected (run es l) s still goes in (ground arith, back.0, back.1)
