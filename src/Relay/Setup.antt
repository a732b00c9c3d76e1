-- ===== src/Relay/Setup.antt =====
-- The constructor of `Relay` and the defaults of its configuration, in src/txoutbox/relay.py and
-- src/txoutbox/backoff.py.
use txoutbox.Base.{String, Bool, false, Option, none, some, if◌then◌else◌, same_text}
use txoutbox.Base.Int.{pos}
use txoutbox.Message.{OutboxMessage}
use txoutbox.Float.{Float}
use txoutbox.Backoff.{Backoff}
use txoutbox.Poller.{Poller, make}
use txoutbox.Relay.Config.{RelayConfig}

-- `Publisher`: what a publish over a state of the outside world answers, and the state after it.
pub record Publisher (W : Type 0) : Type 0 where
  pub publish : OutboxMessage → W → Option String × W

-- The argument `publisher`: an object with `publish`, or a function.
pub data PublisherArg (W : Type 0) : Type 0 where
  an_object : Publisher W → PublisherArg W
  a_function : (OutboxMessage → W → Option String × W) → PublisherArg W

-- `_FnPublisher`
abbrev pub fn_publisher : {W : Type 0} → (OutboxMessage → W → Option String × W) → Publisher W
fn_publisher fn = record { publish = λ m. fn m }

unfoldable pub publisher_of : {W : Type 0} → PublisherArg W → Publisher W
publisher_of (an_object p) = p
publisher_of (a_function fn) = fn_publisher fn

pub record Relay (F W : Type 0) : Type 0 where
  pub publisher : Publisher W
  pub config : RelayConfig F
  pub worker_id : String
  pub poller : Poller F
  pub stopping : Bool

-- `worker_id or default_worker_id()`: an empty id is none.
unfoldable pub worker_or : String → Option String → String
worker_or other none = other
worker_or other (some id) = if same_text id "" then other else id

module _ (fl : Float) where
  -- The defaults of `Backoff` and of `RelayConfig`. `two` and `quarter` are 2.0 and 0.25, and the
  -- other floats are given by their microseconds.
  unfoldable pub default_backoff : fl.F → fl.F → Backoff fl.F
  default_backoff two quarter = record {
    base = pos 1000000;
    factor = two;
    maximum = pos 300000000;
    jitter = quarter;
  }

  unfoldable pub default_config : fl.F → fl.F → RelayConfig fl.F
  unfolding default_backoff
  default_config two quarter = record {
    batch_size = 50;
    lease = pos 60000000;
    concurrency = 10;
    max_attempts = 10;
    backoff = default_backoff two quarter;
    publish_timeout = some (fl.seconds (pos 5000000));
    poll_min = fl.seconds (pos 50000);
    poll_max = fl.seconds (pos 5000000);
    poll_factor = two;
    storage_error_delay = fl.seconds (pos 1000000);
  }

  -- `Relay.__init__`; `none` is the ValueError of `AdaptivePoller`.
  unfoldable pub init :
      {W : Type 0}
      → RelayConfig fl.F
      → String
      → PublisherArg W
      → Option (RelayConfig fl.F)
      → Option String
      → Option (Relay fl.F W)
  unfolding publisher_of worker_or
  init defaults new_id publisher config worker_id =
      let cfg : RelayConfig fl.F = elim config [ none ↦ defaults | some c ↦ c ] in
      elim (make fl cfg.poll_min cfg.poll_max cfg.poll_factor) [
        | none ↦ none
        | some poller ↦ some (record {
          publisher = publisher_of publisher;
          config = cfg;
          worker_id = worker_or new_id worker_id;
          poller = poller;
          stopping = false;
        })
      ]
