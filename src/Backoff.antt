-- ===== src/Backoff.antt =====
-- src/txoutbox/backoff.py: `Backoff`. A timedelta is its microseconds, and `draw lo hi` is the
-- value that `random.uniform` returns.
pub mod Bounds
mod Tests
use txoutbox.Base.{
  ℕ, zero, suc, ◌-◌, Bool, true, false, not, ◌||◌, Option, none, some, if◌then◌else◌,
}
use txoutbox.Base.Int.{ℤ, pos, negsuc, lt_ℤ}
use txoutbox.Float.{Float, min_of}

pub record Backoff (F : Type 0) : Type 0 where
  pub base : ℤ
  pub factor : F
  pub maximum : ℤ
  pub jitter : F

pub data BackoffError : Type 0 where
  bad_factor bad_jitter bad_base bad_maximum : BackoffError

module _ (fl : Float) where
  -- The first ValueError of `__post_init__`, or none.
  unfoldable pub check : Backoff fl.F → Option BackoffError
  check b =
      if fl.lt b.factor fl.one
      then some bad_factor
      else if fl.lt b.jitter fl.zero_f || fl.lt fl.one b.jitter
      then some bad_jitter
      else if not (lt_ℤ (pos 0) b.base)
      then some bad_base
      else if lt_ℤ b.maximum b.base
      then some bad_maximum
      else none

  -- `min(raw, cap)`, for the exponent `n`.
  unfoldable pub capped : Backoff fl.F → ℕ → fl.F
  capped b n =
      let cap = fl.seconds b.maximum in
      let raw : fl.F = elim (fl.pow b.factor n) [
        | none ↦ cap
        | some p ↦ fl.mul (fl.seconds b.base) p
      ] in
      min_of fl raw cap

  -- The number of seconds that `delay` makes its timedelta of.
  unfoldable pub delay_seconds : Backoff fl.F → (fl.F → fl.F → fl.F) → ℕ → fl.F
  unfolding capped
  delay_seconds b draw n =
      if fl.lt fl.zero_f b.jitter || fl.lt b.jitter fl.zero_f
      then fl.mul (capped b n) (draw (fl.sub fl.one b.jitter) (fl.add fl.one b.jitter))
      else capped b n

  -- `none` is the ValueError for an attempt below 1.
  unfoldable pub delay : Backoff fl.F → (fl.F → fl.F → fl.F) → ℤ → Option ℤ
  unfolding delay_seconds
  delay b draw (pos (suc n)) = some (fl.timedelta (delay_seconds b draw n))
  delay b draw (pos zero) = none
  delay b draw (negsuc n) = none
