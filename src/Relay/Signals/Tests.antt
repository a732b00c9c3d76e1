-- ===== src/Relay/Signals/Tests.antt =====
-- The signal handlers at a concrete process.
use txoutbox.Base.{◌≡◌, refl, true, none, some, ◌&&◌, if◌then◌else◌}
use txoutbox.Relay.Signals.{
  sigint, sigterm, Process, plain, sig_dfl, stub, on_signal, other, slot, while_running, after_run,
  handlers_put_back, is_plain_handler,
}

-- SIGINT has a handler of the application, and SIGTERM a callback of another component of the loop.
abbrev process : Process
process = record {
  int_slot = record { handler = plain 7; callback = none };
  term_slot = record { handler = stub; callback = some (other 1) };
}

handlers_put_back_example :
    (slot sigint (while_running true (λ sig. true) process).1 ≡ (
      if true && true
      then record { handler = stub; callback = some on_signal }
      else slot sigint process))
    × (slot sigint (after_run true (λ sig. true) process) ≡ slot sigint process)
unfolding is_plain_handler
handlers_put_back_example = handlers_put_back true (λ sig. true) sigint process (refl, refl)

-- The callback of the other component is lost.
callback_lost :
    slot sigterm (after_run true (λ sig. true) process)
    ≡ record { handler = sig_dfl; callback = none }
unfolding after_run
callback_lost = refl
