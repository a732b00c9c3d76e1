-- ===== src/Poller.antt =====
-- src/txoutbox/poller.py: `AdaptivePoller`.
pub mod Bounds
mod Tests
use txoutbox.Base.{
  ℕ, Bool, true, false, not, ◌||◌, Option, none, some, List, [], ◌∷◌, if◌then◌else◌,
}
use txoutbox.Float.{Float, min_of}

pub record Poller (F : Type 0) : Type 0 where
  pub minimum : F
  pub maximum : F
  pub factor : F
  pub current : F
  -- The event `_wakeup`.
  pub wakeup : Bool

-- What happens to a poller. A wait has its argument, and the time after which `wake` is called
-- while it sleeps, if it is.
pub data Action (F : Type 0) : Type 0 where
  busy idle wake : Action F
  wait : Option F → Option F → Action F

module _ (fl : Float) where
  -- `none` is the ValueError of `__post_init__`.
  unfoldable pub make : fl.F → fl.F → fl.F → Option (Poller fl.F)
  make minimum maximum factor =
      if not (fl.lt fl.zero_f minimum) || fl.lt maximum minimum || fl.lt factor fl.one
      then none
      else some (record {
        minimum = minimum;
        maximum = maximum;
        factor = factor;
        current = minimum;
        wakeup = false;
      })

  unfoldable pub set_busy : Poller fl.F → Poller fl.F
  set_busy p = record p { current = p.minimum }

  unfoldable pub set_idle : Poller fl.F → Poller fl.F
  set_idle p = record p { current = min_of fl (fl.mul p.current p.factor) p.maximum }

  unfoldable pub set_wake : Poller fl.F → Poller fl.F
  set_wake p = record p { wakeup = true }

  -- The time slept, and the poller after it. `wait_for` returns at once if the event is set, and
  -- else at the timeout or at the wake, whichever is first.
  unfoldable pub do_wait : Option fl.F → Option fl.F → Poller fl.F → fl.F × Poller fl.F
  do_wait seconds woken p =
      let timeout : fl.F = elim seconds [ none ↦ p.current | some t ↦ t ] in
      let slept : fl.F = elim woken [ none ↦ timeout | some t ↦ min_of fl timeout t ] in
      (if p.wakeup then fl.zero_f else slept, record p { wakeup = false })

  unfoldable pub act : Action fl.F → Poller fl.F → Poller fl.F
  unfolding set_busy set_idle set_wake do_wait
  act busy p = set_busy p
  act idle p = set_idle p
  act wake p = set_wake p
  act (wait seconds woken) p = (do_wait seconds woken p).1

  unfoldable pub act_all : List (Action fl.F) → Poller fl.F → Poller fl.F
  unfolding act
  act_all [] p = p
  act_all (a ∷ as') p = act_all as' (act a p)
