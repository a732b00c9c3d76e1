-- ===== src/Relay/Loop/Tests.antt =====
-- Runs of the loop on whole numbers, and its theorems at them.
use txoutbox.Base.{ℕ, ◌≤◌, ◌≡◌, refl, true, false, ◌||◌, none, List, [], ◌∷◌, any, arith}
use txoutbox.Base.Int.{pos}
use txoutbox.Float.Whole.{whole}
use txoutbox.Poller.{Poller}
use txoutbox.Relay.Config.{RelayConfig}
use txoutbox.Relay.Loop.{
  Loop, Arrival, wakes, signals, succeeded, cancelled, Turn, stopped, quiet, raised, run_turns, run,
  is_cancelled,
}
use txoutbox.Relay.Loop.Lifecycle.{
  count_signals, all_signals, stop_finishes_round, raised_from_outside,
}

abbrev config : RelayConfig ℕ
config = record {
  batch_size = 100;
  lease = pos 60;
  concurrency = 16;
  max_attempts = 10;
  backoff = record { base = pos 1; factor = 2; maximum = pos 300; jitter = 0 };
  publish_timeout = none;
  poll_min = 1;
  poll_max = 5;
  poll_factor = 2;
  storage_error_delay = 5;
}

abbrev poller : Poller ℕ
poller = record { minimum = 1; maximum = 5; factor = 2; current = 1; wakeup = false }

abbrev begun : Loop ℕ
begun = record {
  stopping = false;
  poller = poller;
  signals_seen = 0;
  cancelled_by_signal = false;
  cancels = 0;
}

abbrev three_signals : List Arrival
three_signals = signals ∷ wakes ∷ signals ∷ signals ∷ []

-- A turn in whose round the calls arrive.
abbrev busy_turn : List Arrival → Turn ℕ
busy_turn during = record {
  during = during;
  outcome = succeeded 3;
  resting = [];
  woken = none;
  cut = false;
}

abbrev cancelled_turn : Turn ℕ
cancelled_turn = record {
  during = [];
  outcome = cancelled;
  resting = [];
  woken = none;
  cut = false;
}

-- A second signal ends `run` quietly; the third does nothing.
quiet_run :
    run whole config (busy_turn [] ∷ busy_turn three_signals ∷ busy_turn [] ∷ []) poller
    ≡ (quiet, 2)
unfolding run
quiet_run = refl

stop_finishes_round_example :
    run_turns whole config (busy_turn (wakes ∷ signals ∷ []) ∷ busy_turn [] ∷ []) begun
    ≡ (stopped, 1)
unfolding count_signals
stop_finishes_round_example =
    stop_finishes_round whole config (busy_turn (wakes ∷ signals ∷ [])) (busy_turn [] ∷ []) begun 3
      (record { unseen = refl; uncancelled = refl; no_cancels = refl }) refl refl refl (omega arith)

raised_from_outside_example :
    let ts = busy_turn [] ∷ cancelled_turn ∷ [] in
    ((run whole config ts poller).0 ≡ raised
      → any (λ (t : Turn ℕ). is_cancelled whole t.outcome || t.cut) ts ≡ true)
    × ((run whole config ts poller).0 ≡ quiet → 2 ≤ all_signals whole ts)
raised_from_outside_example =
    raised_from_outside whole config (busy_turn [] ∷ cancelled_turn ∷ []) poller
