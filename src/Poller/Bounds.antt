-- ===== src/Poller/Bounds.antt =====
-- The interval and the event of `AdaptivePoller` in src/txoutbox/poller.py.
use txoutbox.Base.{◌≡◌, refl, ◌∙◌, Bool, true, false, Option, none, some, List, [], ◌∷◌, arith}
use txoutbox.Float.{Float, Laws}
use txoutbox.Poller.{
  Poller, Action, busy, idle, wake, wait, make, set_busy, set_idle, set_wake, do_wait, act, act_all,
}

module _ (fl : Float) (laws : Laws fl) where
  -- 0 < minimum <= current <= maximum, and factor >= 1.
  pub record InBounds (p : Poller fl.F) : Type 0 where
    pub positive : fl.lt fl.zero_f p.minimum ≡ true
    pub ordered : fl.lt p.maximum p.minimum ≡ false
    pub growing : fl.lt p.factor fl.one ≡ false
    pub above : fl.lt p.current p.minimum ≡ false
    pub below : fl.lt p.maximum p.current ≡ false

  make-InBounds :
      (minimum maximum factor : fl.F) (p : Poller fl.F)
      → make fl minimum maximum factor ≡ some p
      → InBounds p × (p.minimum ≡ minimum) × (p.maximum ≡ maximum)
  unfolding make
  make-InBounds minimum maximum factor p e =
      let at_min = laws.irrefl minimum in
      (
        record {
          positive = ground arith;
          ordered = ground arith;
          growing = ground arith;
          above = ground (arith, at_min);
          below = ground arith;
        },
        ground arith,
        ground arith,
      )

  idle-InBounds : (p : Poller fl.F) → InBounds p → InBounds (set_idle fl p)
  unfolding set_idle
  idle-InBounds p h =
      let grown = fl.mul p.current p.factor in
      let up =
        laws.grows p.current p.factor
          (laws.lt_le_trans fl.zero_f p.minimum p.current h.positive h.above) h.growing in
      record {
        positive = h.positive;
        ordered = h.ordered;
        growing = h.growing;
        above = ground (arith, h.ordered, laws.le_trans p.minimum p.current grown h.above up);
        below = ground (arith, laws.irrefl p.maximum);
      }

  act-InBounds : (a : Action fl.F) (p : Poller fl.F) → InBounds p → InBounds (act fl a p)
  unfolding act
  act-InBounds busy p h = record {
    positive = h.positive;
    ordered = h.ordered;
    growing = h.growing;
    above = laws.irrefl p.minimum;
    below = h.ordered;
  }
  act-InBounds idle p h = idle-InBounds p h
  act-InBounds wake p h = record {
    positive = h.positive;
    ordered = h.ordered;
    growing = h.growing;
    above = h.above;
    below = h.below;
  }
  act-InBounds (wait seconds woken) p h = record {
    positive = h.positive;
    ordered = h.ordered;
    growing = h.growing;
    above = h.above;
    below = h.below;
  }

  act-options :
      (a : Action fl.F) (p : Poller fl.F)
      → ((act fl a p).minimum ≡ p.minimum) × ((act fl a p).maximum ≡ p.maximum)
  unfolding act
  act-options busy p = (refl, refl)
  act-options idle p = (refl, refl)
  act-options wake p = (refl, refl)
  act-options (wait seconds woken) p = (refl, refl)

  act_all-InBounds :
      (as' : List (Action fl.F)) (p : Poller fl.F)
      → InBounds p
      → InBounds (act_all fl as' p)
        × ((act_all fl as' p).minimum ≡ p.minimum)
        × ((act_all fl as' p).maximum ≡ p.maximum)
  unfolding act_all
  act_all-InBounds [] p h = (h, refl, refl)
  act_all-InBounds (a ∷ as') p h =
      let (h', lo, hi) = act_all-InBounds as' (act fl a p) (act-InBounds a p h) in
      let (lo', hi') = act-options a p in (h', lo ∙ lo', hi ∙ hi')

  -- A poller that the constructor accepts keeps its interval between `minimum` and `maximum`,
  -- whatever happens to it.
  pub interval_bounded :
      (minimum maximum factor : fl.F) (p : Poller fl.F) (as' : List (Action fl.F))
      → make fl minimum maximum factor ≡ some p
      → (fl.lt (act_all fl as' p).current minimum ≡ false)
        × (fl.lt maximum (act_all fl as' p).current ≡ false)
  interval_bounded minimum maximum factor p as' e =
      let (h, lo, hi) = make-InBounds minimum maximum factor p e in
      let (h', lo', hi') = act_all-InBounds as' p h in
      (ground (arith, h'.above, lo, lo'), ground (arith, h'.below, hi, hi'))

abbrev pub no_wait : {F : Type 0} → List (Action F) → Bool
no_wait [] = true
no_wait (busy ∷ as') = no_wait as'
no_wait (idle ∷ as') = no_wait as'
no_wait (wake ∷ as') = no_wait as'
no_wait (wait seconds woken ∷ as') = false

module _ (fl : Float) where
  stays_awake :
      (as' : List (Action fl.F)) (p : Poller fl.F)
      → no_wait as' ≡ true
      → p.wakeup ≡ true
      → (act_all fl as' p).wakeup ≡ true
  unfolding act_all act
  stays_awake [] p n h = h
  stays_awake (busy ∷ as') p n h = stays_awake as' (set_busy fl p) n (unfold set_busy in h)
  stays_awake (idle ∷ as') p n h = stays_awake as' (set_idle fl p) n (unfold set_idle in h)
  stays_awake (wake ∷ as') p n h = stays_awake as' (set_wake fl p) n (unfold set_wake in refl)
  stays_awake (wait seconds woken ∷ as') p n h = cc

  -- A wake before a wait is not lost: whatever else but a wait happened in between, the next wait
  -- returns at once, and it uses the wake up: the wait after it sleeps until its timeout, if nobody
  -- wakes it.
  pub wake_not_lost :
      (as' : List (Action fl.F)) (p : Poller fl.F) (seconds woken : Option fl.F) (timeout : fl.F)
      → no_wait as' ≡ true
      → let (slept, q) = do_wait fl seconds woken (act_all fl as' (act fl wake p)) in
        (slept ≡ fl.zero_f) × ((do_wait fl (some timeout) none q).0 ≡ timeout)
  unfolding do_wait act
  wake_not_lost as' p seconds woken timeout n =
      (rw (stays_awake as' (set_wake fl p) n (unfold set_wake in refl)) refl, refl)
