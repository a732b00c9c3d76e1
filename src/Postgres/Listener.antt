-- ===== src/Postgres/Listener.antt =====
-- src/txoutbox/adapters/postgres.py: `Listener`, as a state machine whose events are the points at
-- which the event loop runs its code, with what the pool and the connection answer. Durations are
-- in microseconds. `slots` are the pool's connections that the listener has: a connection that is
-- lost goes back by itself, and releasing it then does nothing. An `acquire` that is cancelled has
-- none.
pub mod Invariant
pub mod Release
pub mod Notices
pub mod Reconnect
mod Tests
use txoutbox.Base.{
  ℕ, ◌+◌, ◌-◌, ◌*◌, Bool, true, false, not, ◌&&◌, ◌||◌, Option, none, some, List, [], ◌∷◌, leb,
  if◌then◌else◌,
}

-- Where the task of `_reconnect` waits; the number is `backoff`. `giving_back` is the release in
-- `_connect` after `add_listener` has raised.
pub data Reconnecting : Type 0 where
  created : Reconnecting
  acquiring : ℕ → Reconnecting
  adding : ℕ → Reconnecting
  giving_back : ℕ → Reconnecting
  sleeping : ℕ → Reconnecting
  ended : Reconnecting

-- Where `close` waits, once it has been called.
pub data Closing : Type 0 where
  not_called : Closing
  joining : Closing
  resetting : Closing
  releasing : Closing
  returned : Closing

-- `delay` is that of the timer. `is_connected` says that `_conn` is not None, and `is_lost` that
-- this connection is closed and the call of `_on_terminated` is due. `is_cancelled` says that the
-- task has been asked to cancel, `callbacks` counts the calls of the callback, and `sleeps` are
-- those of the task, the last one first.
pub record Listener : Type 0 where
  pub delay : Option ℕ
  pub is_connected : Bool
  pub is_lost : Bool
  pub is_closed : Bool
  pub has_timer : Bool
  pub reconnect_task : Option Reconnecting
  pub is_cancelled : Bool
  pub closing : Closing
  pub pool_closing : Bool
  pub slots : ℕ
  pub callbacks : ℕ
  pub sleeps : List ℕ

abbrev pub initial_backoff : ℕ
initial_backoff = 500000

abbrev pub max_backoff : ℕ
max_backoff = 10000000

unfoldable pub next_backoff : ℕ → ℕ
next_backoff backoff = if leb (backoff * 2) max_backoff then backoff * 2 else max_backoff

-- `__init__`, with `visibility_delay` in microseconds.
unfoldable pub init : Option ℕ → Listener
init delay = record {
  delay = elim delay [ none ↦ none | some d ↦ some (d + 50000) ];
  is_connected = false;
  is_lost = false;
  is_closed = false;
  has_timer = false;
  reconnect_task = none;
  is_cancelled = false;
  closing = not_called;
  pool_closing = false;
  slots = 0;
  callbacks = 0;
  sleeps = [];
}

-- `start`, where `acquire` and `add_listener` succeed or raise; `none` is that `start` raises, and
-- what it had acquired is released.
unfoldable pub start : Bool → Bool → Listener → Option Listener
start acquired added l =
    if acquired && added then some (record l { is_connected = true; slots = l.slots + 1 }) else none

unfoldable pub on_notify : Listener → Listener
on_notify l = if l.is_closed then l else elim l.delay [
  | none ↦ record l { callbacks = l.callbacks + 1 }
  | some d ↦ if l.has_timer then l else record l { has_timer = true }
]

unfoldable pub fire : Listener → Listener
fire l =
    if l.is_closed
    then record l { has_timer = false }
    else record l { has_timer = false; callbacks = l.callbacks + 1 }

unfoldable pub on_terminated : Listener → Listener
on_terminated l =
    if l.is_closed
    then l
    else if l.pool_closing
    then record l { is_connected = false }
    else record l {
      is_connected = false;
      reconnect_task = some created;
      is_cancelled = false;
      sleeps = [];
    }

unfoldable pub set_task : Reconnecting → Listener → Listener
set_task task l = record l { reconnect_task = some task }

-- The condition of the loop in `_reconnect`.
unfoldable pub loop_head : ℕ → Listener → Listener
unfolding set_task
loop_head backoff l =
    if l.is_closed || l.pool_closing then set_task ended l else set_task (acquiring backoff) l

-- The handler of an exception that `_connect` raises, up to the sleep.
unfoldable pub sleep : ℕ → Listener → Listener
sleep backoff l = record l { reconnect_task = some (sleeping backoff); sleeps = backoff ∷ l.sleeps }

-- The task runs from its await to the next, where the awaited call succeeded or raised. If the task
-- has been cancelled, the await raises CancelledError.
unfoldable pub resume : Bool → Reconnecting → Listener → Listener
unfolding loop_head sleep set_task next_backoff
resume ok created l = if l.is_cancelled then set_task ended l else loop_head initial_backoff l
resume ok (acquiring backoff) l =
    if l.is_cancelled
    then set_task ended l
    else if ok
    then record l { slots = l.slots + 1; reconnect_task = some (adding backoff) }
    else sleep backoff l
resume ok (adding backoff) l =
    if ok && not l.is_cancelled
    then record l { is_connected = true; reconnect_task = some ended }
    else set_task (giving_back backoff) l
resume ok (giving_back backoff) l =
    if l.is_cancelled
    then record l { slots = l.slots - 1; reconnect_task = some ended }
    else sleep backoff (record l { slots = l.slots - 1 })
resume ok (sleeping backoff) l =
    if l.is_cancelled then set_task ended l else loop_head (next_backoff backoff) l
resume ok ended l = l

abbrev pub is_alive : Option Reconnecting → Bool
is_alive none = false
is_alive (some ended) = false
is_alive (some _) = true

-- `close` from where it takes the connection.
unfoldable pub take_conn : Listener → Listener
take_conn l =
    if l.is_connected && not l.is_lost
    then record l { is_connected = false; reconnect_task = none; closing = resetting }
    else record l { is_connected = false; reconnect_task = none; closing = returned }

-- A call of `close`. A second call while the first one waits is not modelled.
unfoldable pub close : Listener → Listener
unfolding take_conn
close l =
    if is_alive l.reconnect_task
    then record l { is_closed = true; has_timer = false; is_cancelled = true; closing = joining }
    else take_conn (record l { is_closed = true; has_timer = false })

-- `close` runs on: when the task has ended, when `reset` has returned or raised, and when the
-- connection is released.
unfoldable pub close_on : Closing → Listener → Listener
unfolding take_conn
close_on joining l = if is_alive l.reconnect_task then l else take_conn l
close_on resetting l = record l { closing = releasing }
close_on releasing l = record l { slots = l.slots - 1; closing = returned }
close_on _ l = l

abbrev pub may_close : Closing → Bool
may_close not_called = true
may_close returned = true
may_close _ = false

pub data Event : Type 0 where
  notified : Event
  timer_due : Event
  loses : Event
  terminated : Event
  resumes : Bool → Event
  pool_closes : Event
  closes : Event
  closes_on : Event

unfoldable pub step : Event → Listener → Listener
unfolding on_notify fire on_terminated resume close close_on
step notified l = on_notify l
step timer_due l = if l.has_timer then fire l else l
step loses l = record l { is_lost = l.is_connected || l.is_lost; slots = l.slots - 1 }
step terminated l = if l.is_lost then on_terminated (record l { is_lost = false }) else l
step (resumes ok) l = elim l.reconnect_task [ none ↦ l | some task ↦ resume ok task l ]
step pool_closes l = record l { pool_closing = true }
step closes l = if may_close l.closing then close l else l
step closes_on l = close_on l.closing l

unfoldable pub run : List Event → Listener → Listener
unfolding step
run [] l = l
run (e ∷ es) l = run es (step e l)
