-- ===== src/Backoff/Tests.antt =====
-- The backoff's theorems on whole numbers of microseconds.
use txoutbox.Base.{ℕ, ◌≡◌, refl, true, false, none, ltb, ◌*◌}
use txoutbox.Base.Int.{pos}
use txoutbox.Float.Whole.{whole, whole-Laws, low_draw, low_draw-IsUniform}
use txoutbox.Backoff.{Backoff, check, capped, delay_seconds, delay}
use txoutbox.Backoff.Bounds.{delay_bounds}

abbrev policy : Backoff ℕ
policy = record { base = pos 2; factor = 2; maximum = pos 20; jitter = 1 }

policy_accepted : check whole policy ≡ none
unfolding check
policy_accepted = refl

third_delay : capped whole policy 2 ≡ 8
unfolding capped
third_delay = refl

-- The power overflows.
far_delay : capped whole policy 25 ≡ 20
unfolding capped
far_delay = refl

delay_bounds_example :
    (ltb (capped whole policy 2) 2 ≡ false)
    × (ltb 20 (capped whole policy 2) ≡ false)
    × (ltb 0 1 ≡ false → delay_seconds whole policy low_draw 2 ≡ capped whole policy 2)
    × (ltb 0 1 ≡ true
        → (ltb (delay_seconds whole policy low_draw 2) (capped whole policy 2 * 0) ≡ false)
          × (ltb (capped whole policy 2 * 2) (delay_seconds whole policy low_draw 2) ≡ false))
delay_bounds_example =
    delay_bounds whole whole-Laws policy policy_accepted low_draw 2 low_draw-IsUniform

no_delay_at_zero : delay whole policy low_draw (pos 0) ≡ none
unfolding delay
no_delay_at_zero = refl
