-- ===== src/Relay/Loop.antt =====
-- The lifecycle of src/txoutbox/relay.py: `run`, `_loop_step`, `stop`, `wake` and the signals.
-- What the event loop brings is a list of rounds, each with its outcome and with the calls that
-- arrive while it runs and while the loop rests after it.
pub mod Lifecycle
mod Tests
use txoutbox.Base.{
  ℕ, zero, suc, ◌+◌, Bool, true, false, not, ◌&&◌, ◌||◌, Option, none, some, List, [], ◌∷◌, leb,
  ltb, ◌==◌, if◌then◌else◌,
}
use txoutbox.Float.{Float}
use txoutbox.Poller.{Poller, make, set_busy, set_idle, set_wake, do_wait}
use txoutbox.Relay.Config.{RelayConfig}

-- `_stopping`, `_poller`, and the variables of `run`; `cancels` is `task.cancelling()` as far as the
-- signals go: the number of calls of `task.cancel` by `on_signal`.
pub record Loop (F : Type 0) : Type 0 where
  pub stopping : Bool
  pub poller : Poller F
  pub signals_seen : ℕ
  pub cancelled_by_signal : Bool
  pub cancels : ℕ

pub data Arrival : Type 0 where
  stops wakes signals : Arrival

-- `succeeded` has the number of messages claimed; `cancelled` is a cancellation from outside.
pub data Outcome : Type 0 where
  succeeded : ℕ → Outcome
  failed_round cancelled : Outcome

-- What `_loop_step` does after its round: nothing, `asyncio.sleep(0)`, or a wait with its argument.
pub data Pause (F : Type 0) : Type 0 where
  no_pause give_way : Pause F
  waits : Option F → Pause F

-- One turn: `woken` is the time after which a call during the rest wakes the poller, if one does;
-- `cut` says that the task is cancelled from outside while it rests.
pub record Turn (F : Type 0) : Type 0 where
  pub during : List Arrival
  pub outcome : Outcome
  pub resting : List Arrival
  pub woken : Option F
  pub cut : Bool

-- How `run` ends. `quiet` is the return after a second signal; `unfinished` means that the list of
-- turns is over first.
pub data Ending : Type 0 where
  stopped quiet raised unfinished : Ending

module _ (fl : Float) where
  unfoldable pub stop : Loop fl.F → Loop fl.F
  stop l = record l { stopping = true; poller = set_wake fl l.poller }

  unfoldable pub on_signal : Loop fl.F → Loop fl.F
  unfolding stop
  on_signal l =
      let seen = l.signals_seen + 1 in
      if seen == 1
      then stop (record l { signals_seen = seen })
      else if not l.cancelled_by_signal
      then record l { signals_seen = seen; cancelled_by_signal = true; cancels = l.cancels + 1 }
      else record l { signals_seen = seen }

  unfoldable pub arrive : Arrival → Loop fl.F → Loop fl.F
  unfolding on_signal stop
  arrive stops l = stop l
  arrive wakes l = record l { poller = set_wake fl l.poller }
  arrive signals l = on_signal l

  unfoldable pub arrive_all : List Arrival → Loop fl.F → Loop fl.F
  unfolding arrive
  arrive_all [] l = l
  arrive_all (a ∷ as') l = arrive_all as' (arrive a l)

  -- `_loop_step` after a round that claimed `n` messages.
  unfoldable pub after_success : RelayConfig fl.F → ℕ → Loop fl.F → Pause fl.F × Loop fl.F
  after_success cfg n l =
      if l.stopping
      then (no_pause, l)
      else if n == 0
      then (waits none, record l { poller = set_idle fl l.poller })
      else if leb cfg.batch_size n
      then (give_way, record l { poller = set_busy fl l.poller })
      else (waits none, record l { poller = set_busy fl l.poller })

  unfoldable pub after_round : RelayConfig fl.F → Outcome → Loop fl.F → Pause fl.F × Loop fl.F
  unfolding after_success
  after_round cfg (succeeded n) l = after_success cfg n l
  after_round cfg failed_round l = (waits (some cfg.storage_error_delay), l)
  after_round cfg cancelled l = (no_pause, l)

  -- The rest: calls arrive while it lasts, and a wait clears the event when it ends.
  unfoldable pub rest : Pause fl.F → Turn fl.F → Loop fl.F → Loop fl.F
  unfolding arrive_all
  rest no_pause t l = l
  rest give_way t l = arrive_all t.resting l
  rest (waits seconds) t l =
      let l' = arrive_all t.resting l in
      record l' { poller = (do_wait fl seconds t.woken l'.poller).1 }

  abbrev pub pauses : Pause fl.F → Bool
  pauses no_pause = false
  pauses _ = true

  abbrev pub is_cancelled : Outcome → Bool
  is_cancelled cancelled = true
  is_cancelled _ = false

  -- `except CancelledError`: quiet if a signal asked for it.
  abbrev pub on_cancel : Loop fl.F → Ending
  on_cancel l = if l.cancelled_by_signal then quiet else raised

  -- `task.cancel()` has been called, so that the round or the rest, whichever awaits next, raises
  -- CancelledError.
  abbrev pub is_cancelling : Loop fl.F → Bool
  is_cancelling l = ltb 0 l.cancels

  -- The `while` loop, with the number of rounds that it ran.
  unfoldable pub run_turns : RelayConfig fl.F → List (Turn fl.F) → Loop fl.F → Ending × ℕ
  unfolding arrive_all after_round rest
  run_turns cfg [] l = (if l.stopping then stopped else unfinished, 0)
  run_turns cfg (t ∷ ts) l =
      let l1 = arrive_all t.during l in
      let (pause, l2) = after_round cfg t.outcome l1 in
      let l3 = rest pause t l2 in
      let (ending, rounds) = run_turns cfg ts l3 in
      if l.stopping
      then (stopped, 0)
      else if is_cancelled t.outcome || is_cancelling l1
      then (on_cancel l1, 1)
      else if is_cancelling l3 || t.cut && pauses pause
      then (on_cancel l3, 1)
      else (ending, rounds + 1)

  -- `run`, with the poller of the relay. It first resets `_stopping`.
  unfoldable pub run : RelayConfig fl.F → List (Turn fl.F) → Poller fl.F → Ending × ℕ
  unfolding run_turns
  run cfg ts p = run_turns cfg ts (record {
    stopping = false;
    poller = p;
    signals_seen = 0;
    cancelled_by_signal = false;
    cancels = 0;
  })
