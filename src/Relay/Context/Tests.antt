-- ===== src/Relay/Context/Tests.antt =====
-- Leaving `async with Relay(…)` at concrete turns.
use txoutbox.Base.{ℕ, ◌≡◌, refl, true, false, none, [], ◌∷◌, ◌++◌, arith, if◌then◌else◌}
use txoutbox.Base.Int.{pos}
use txoutbox.Float.Whole.{whole}
use txoutbox.Poller.{Poller}
use txoutbox.Relay.Config.{RelayConfig}
use txoutbox.Relay.Loop.{stops, wakes, succeeded, failed_round, Turn}
use txoutbox.Relay.Loop.Lifecycle.{count_signals}
use txoutbox.Relay.Context.{leaves, raises, block, leaving_finishes_round}

abbrev config : RelayConfig ℕ
config = record {
  batch_size = 100;
  lease = pos 60;
  concurrency = 16;
  max_attempts = 10;
  backoff = record { base = pos 1; factor = 2; maximum = pos 300; jitter = 0 };
  publish_timeout = none;
  poll_min = 1;
  poll_max = 5;
  poll_factor = 2;
  storage_error_delay = 5;
}

abbrev poller : Poller ℕ
poller = record { minimum = 1; maximum = 5; factor = 2; current = 1; wakeup = false }

abbrev calm : Turn ℕ
calm = record {
  during = wakes ∷ [];
  outcome = failed_round;
  resting = [];
  woken = none;
  cut = false;
}

abbrev leaving : Turn ℕ
leaving = record {
  during = wakes ∷ stops ∷ [];
  outcome = succeeded 3;
  resting = [];
  woken = none;
  cut = false;
}

leaving_finishes_round_example :
    (block whole config true true ((calm ∷ calm ∷ []) ++ leaving ∷ calm ∷ []) poller ≡ (leaves, 3))
    × (block whole config false true ((calm ∷ calm ∷ []) ++ leaving ∷ calm ∷ []) poller
        ≡ (if true then raises else leaves, 0))
unfolding count_signals
leaving_finishes_round_example =
    leaving_finishes_round whole config (calm ∷ calm ∷ []) leaving (calm ∷ []) poller 3 true
      ((refl, refl, refl, refl), ((refl, refl, refl, refl), tt)) refl refl (omega arith)
