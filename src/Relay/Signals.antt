-- ===== src/Relay/Signals.antt =====
-- The signal handlers in `run` of src/txoutbox/relay.py. For each signal the process has the handler
-- that `signal.getsignal` returns, and the event loop the callback that `add_signal_handler` has
-- registered, behind a handler of asyncio's own.
mod Tests
use txoutbox.Base.{
  ℕ, ◌≡◌, refl, ap, ◌∙◌, Bool, true, false, ◌&&◌, Option, none, some, List, [], ◌∷◌, arith,
  if◌then◌else◌, Bool-cases, inl, inr,
}

-- `plain` is a function given to `signal.signal`, `stub` is asyncio's, and `foreign` is one that was
-- not installed from Python, for which `getsignal` returns None.
pub data Handler : Type 0 where
  sig_dfl : Handler
  sig_ign : Handler
  plain : ℕ → Handler
  stub : Handler
  foreign : Handler

-- A callback of the loop: the relay's `on_signal`, or another component's.
pub data Callback : Type 0 where
  on_signal : Callback
  other : ℕ → Callback

pub record Slot : Type 0 where
  pub handler : Handler
  pub callback : Option Callback

pub data Signal : Type 0 where
  sigint sigterm : Signal

pub record Process : Type 0 where
  pub int_slot : Slot
  pub term_slot : Slot

abbrev pub slot : Signal → Process → Slot
slot sigint p = p.int_slot
slot sigterm p = p.term_slot

abbrev pub set_slot : Signal → Slot → Process → Process
set_slot sigint s p = record p { int_slot = s }
set_slot sigterm s p = record p { term_slot = s }

unfoldable pub is_plain_handler : Handler → Bool
is_plain_handler sig_dfl = true
is_plain_handler sig_ign = true
is_plain_handler (plain n) = true
is_plain_handler stub = false
is_plain_handler foreign = false

-- `loop.add_signal_handler`: `false` is NotImplementedError or RuntimeError.
abbrev pub add_signal_handler : (Signal → Bool) → Signal → Process → Bool × Process
add_signal_handler works sig p =
    if works sig
    then (true, set_slot sig (record { handler = stub; callback = some on_signal }) p)
    else (false, p)

-- The handler that `remove_signal_handler` leaves: `default_int_handler` for SIGINT, which is the
-- function 0.
abbrev pub default_handler : Signal → Handler
default_handler sigint = plain 0
default_handler sigterm = sig_dfl

-- `loop.remove_signal_handler`
abbrev pub remove_signal_handler : Signal → Process → Process
remove_signal_handler sig p =
    set_slot sig (record { handler = default_handler sig; callback = none }) p

-- `previous`
abbrev pub Previous : Type 0
Previous = List (Signal × Handler)

unfoldable pub install : (Signal → Bool) → List Signal → Process → Previous × Process
install works [] p = ([], p)
install works (sig ∷ sigs) p =
    let current = (slot sig p).handler in
    let (ok, p') = add_signal_handler works sig p in
    let (previous, p'') = install works sigs p' in
    if ok then ((sig, current) ∷ previous, p'') else (previous, p'')

-- The `finally` block.
unfoldable pub put_back : Previous → Process → Process
unfolding is_plain_handler
put_back [] p = p
put_back ((sig, handler) ∷ rest) p =
    let removed = remove_signal_handler sig p in
    put_back rest (
      if is_plain_handler handler
      then set_slot sig (record { handler = handler; callback = none }) removed
      else removed)

-- The handlers while the loop of `run` runs, and after `run`.
unfoldable pub while_running : Bool → (Signal → Bool) → Process → Previous × Process
unfolding install
while_running handle_signals works p =
    if handle_signals then install works (sigint ∷ sigterm ∷ []) p else ([], p)

unfoldable pub after_run : Bool → (Signal → Bool) → Process → Process
unfolding while_running put_back
after_run handle_signals works p =
    let (previous, p') = while_running handle_signals works p in put_back previous p'

-- The handler of a signal is one that can be put back, and no component has a callback for it.
abbrev pub IsPlain : Signal → Process → Type 0
IsPlain sig p = (is_plain_handler (slot sig p).handler ≡ true) × ((slot sig p).callback ≡ none)

-- A handler that can be put back is put back: while `run` handles the signals, a signal that the loop
-- can handle calls `on_signal`, and any other one has what it had; and after `run`, whether it
-- handled the signals or not and whichever of them the loop can handle, the signal has the handler
-- that it had before, if that is no handler of asyncio and no component had a callback for it.
pub handlers_put_back :
    (handle_signals : Bool) (works : Signal → Bool) (sig : Signal) (p : Process)
    → IsPlain sig p
    → (slot sig (while_running handle_signals works p).1 ≡ (
        if handle_signals && works sig
        then record { handler = stub; callback = some on_signal }
        else slot sig p))
      × (slot sig (after_run handle_signals works p) ≡ slot sig p)
unfolding while_running after_run
handlers_put_back handle_signals works sigint p q = ground arith
handlers_put_back handle_signals works sigterm p q = ground arith
