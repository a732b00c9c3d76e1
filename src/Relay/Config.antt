-- ===== src/Relay/Config.antt =====
-- `RelayConfig` of src/txoutbox/relay.py. The counts are natural numbers: a negative one is refused
-- as 0 is. A timedelta is its microseconds.
use txoutbox.Base.{
  ◌≡◌, ◌≤◌, ◌<◌, ℕ, ◌+◌, ◌-◌, ◌*◌, ◌/◌, ◌≤◌, ◌<◌, Bool, false, not, Option, none, some, arith, ltb,
  if◌then◌else◌,
}
use txoutbox.Base.Int.{ℤ, pos, lt_ℤ}
use txoutbox.Float.{Float}
use txoutbox.Backoff.{Backoff}

pub record RelayConfig (F : Type 0) : Type 0 where
  pub batch_size : ℕ
  pub lease : ℤ
  pub concurrency : ℕ
  pub max_attempts : ℕ
  pub backoff : Backoff F
  pub publish_timeout : Option F
  pub poll_min : F
  pub poll_max : F
  pub poll_factor : F
  pub storage_error_delay : F

pub data ConfigError : Type 0 where
  bad_batch_size bad_concurrency bad_max_attempts bad_lease bad_timeout bad_delay : ConfigError

-- `math.ceil(a / b)`
unfoldable pub ceil_div : ℕ → ℕ → ℕ
ceil_div a b = (a + b - 1) / b

module _ (fl : Float) where
  -- `publish_timeout is not None and publish_timeout <= 0`
  abbrev pub is_bad_timeout : Option fl.F → Bool
  is_bad_timeout none = false
  is_bad_timeout (some t) = not (fl.lt fl.zero_f t)

  -- The ValueErrors of `__post_init__`, in their order.
  unfoldable pub check_config : RelayConfig fl.F → Option ConfigError
  check_config c =
      if ltb c.batch_size 1
      then some bad_batch_size
      else if ltb c.concurrency 1
      then some bad_concurrency
      else if ltb c.max_attempts 1
      then some bad_max_attempts
      else if not (lt_ℤ (pos 0) c.lease)
      then some bad_lease
      else if is_bad_timeout c.publish_timeout
      then some bad_timeout
      else if fl.lt c.storage_error_delay fl.zero_f
      then some bad_delay
      else none

  unfoldable pub worst_case_round : RelayConfig fl.F → Option fl.F
  unfolding ceil_div
  worst_case_round c = elim c.publish_timeout [
    | none ↦ none
    | some t ↦ some (fl.mul (fl.of_ℕ (ceil_div c.batch_size c.concurrency)) t)
  ]

  -- Whether `__post_init__` warns that a round may outlive the lease.
  unfoldable pub warns : RelayConfig fl.F → Bool
  unfolding worst_case_round
  warns c = elim (worst_case_round c) [ none ↦ false | some t ↦ fl.lt (fl.seconds c.lease) t ]

-- The rounding up is the least number of waves of `b` that hold `a`.
ceil_div_bounds : (a b : ℕ) → 1 ≤ b → (a ≤ ceil_div a b * b) × (ceil_div a b * b < a + b)
unfolding ceil_div
ceil_div_bounds a b h = (grind arith, grind arith)

-- For a configuration that is accepted and has a publish timeout, the worst case of a round is that
-- timeout times the least number of waves of `concurrency` messages that hold a batch.
pub worst_case_lem :
    (fl : Float) (c : RelayConfig fl.F) (t : fl.F)
    → check_config fl c ≡ none
    → c.publish_timeout ≡ some t
    → (waves : ℕ) × (worst_case_round fl c ≡ some (fl.mul (fl.of_ℕ waves) t))
      × (c.batch_size ≤ waves * c.concurrency)
      × (waves * c.concurrency < c.batch_size + c.concurrency)
unfolding check_config worst_case_round
worst_case_lem fl c t valid e =
    let (enough, least) = ceil_div_bounds c.batch_size c.concurrency (ground (arith, valid)) in
    (ceil_div c.batch_size c.concurrency, ground arith, enough, least)
