-- ===== src/Poller/Tests.antt =====
-- The poller's theorems on whole numbers.
use txoutbox.Base.{ℕ, ◌≡◌, refl, false, none, List, [], ◌∷◌, ltb}
use txoutbox.Float.Whole.{whole, whole-Laws}
use txoutbox.Poller.{Poller, Action, idle, wait, make, set_idle, do_wait, act, act_all}
use txoutbox.Poller.Bounds.{interval_bounded}

abbrev sample : Poller ℕ
sample = record { minimum = 2; maximum = 30; factor = 3; current = 2; wakeup = false }

abbrev idles : List (Action ℕ)
idles = idle ∷ wait none none ∷ idle ∷ idle ∷ []

grows_to_maximum : (act_all whole idles sample).current ≡ 30
unfolding act_all act set_idle do_wait
grows_to_maximum = refl

interval_bounded_example :
    (ltb (act_all whole idles sample).current 2 ≡ false)
    × (ltb 30 (act_all whole idles sample).current ≡ false)
unfolding make
interval_bounded_example = interval_bounded whole whole-Laws 2 30 3 sample idles refl
