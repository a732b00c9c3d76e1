-- ===== src/Relay/Context.antt =====
-- `async with Relay(…)` of src/txoutbox/relay.py: `__aenter__` starts `run` as a task, and `__aexit__`
-- stops it and awaits the task. The call of `stop` in `__aexit__` arrives in the loop like any other.
mod Tests
use txoutbox.Base.{
  ℕ, suc, ◌+◌, ◌≤◌, ◌≡◌, refl, ap, ◌∙◌, Bool, true, false, not, ◌&&◌, ◌||◌, Option, none, some,
  List, [], ◌∷◌, ◌++◌, arith, if◌then◌else◌, any, ltb, length, All,
}
use txoutbox.Float.{Float}
use txoutbox.Poller.{Poller}
use txoutbox.Relay.Config.{RelayConfig}
use txoutbox.Relay.Loop.{
  Loop, Arrival, stops, wakes, signals, Outcome, succeeded, Turn, Ending, stopped, quiet, raised,
  unfinished, arrive, arrive_all, after_success, after_round, rest, is_cancelled, run_turns, run,
}
use txoutbox.Relay.Loop.Lifecycle.{count_signals, is_stop, Fresh, stop_finishes_round}

-- `_task`: its coroutine has not begun, or `run` is under way.
pub data RelayTask : Type 0 where
  created started : RelayTask

-- `waits` is an `__aexit__` whose await is not over.
pub data Exit : Type 0 where
  leaves raises waits : Exit

-- `await task` and the handler of CancelledError; `cancelling` says that the task that leaves the
-- block is itself being cancelled.
unfoldable pub await_task : Bool → Ending → Exit
await_task cancelling stopped = leaves
await_task cancelling quiet = leaves
await_task cancelling raised = if cancelling then raises else leaves
await_task cancelling unfinished = waits

-- `__aexit__`, with how `run` ends and the number of its rounds. A task that has not begun is
-- cancelled, and its coroutine never runs.
unfoldable pub aexit : Option RelayTask → Bool → Ending × ℕ → Exit × ℕ
unfolding await_task
aexit none cancelling ran = (leaves, 0)
aexit (some created) cancelling ran = (await_task cancelling raised, 0)
aexit (some started) cancelling (ending, rounds) = (await_task cancelling ending, rounds)

module _ (fl : Float) where
  -- The block, from `__aenter__` on, with the turns of the loop if the task has begun before
  -- `__aexit__`.
  unfoldable pub block : RelayConfig fl.F → Bool → Bool → List (Turn fl.F) → Poller fl.F → Exit × ℕ
  unfolding aexit
  block cfg begins cancelling ts p =
      aexit (some (if begins then started else created)) cancelling (run fl cfg ts p)

  abbrev is_wake : Arrival → Bool
  is_wake wakes = true
  is_wake _ = false

  -- A turn in which nobody stops, signals or cancels.
  abbrev pub IsCalm : Turn fl.F → Type 0
  IsCalm t =
      (any (λ a. not (is_wake a)) t.during ≡ false)
      × (any (λ a. not (is_wake a)) t.resting ≡ false)
      × (is_cancelled fl t.outcome ≡ false)
      × (t.cut ≡ false)

  abbrev Going : Loop fl.F → Type 0
  Going l =
      (l.stopping ≡ false)
      × (l.signals_seen ≡ 0)
      × (l.cancelled_by_signal ≡ false)
      × (l.cancels ≡ 0)

  wakes-Going :
      (as' : List Arrival) (l : Loop fl.F)
      → any (λ a. not (is_wake a)) as' ≡ false
      → Going l
      → Going (arrive_all fl as' l)
  unfolding arrive_all
  wakes-Going [] l w g = g
  wakes-Going (stops ∷ as') l w g = cc
  wakes-Going (wakes ∷ as') l w g =
      wakes-Going as' (arrive fl wakes l) w (unfold arrive in (g.0, g.1, g.2, g.3))
  wakes-Going (signals ∷ as') l w g = cc

  after-Going :
      (cfg : RelayConfig fl.F) (o : Outcome) (l : Loop fl.F)
      → Going l
      → Going (after_round fl cfg o l).1
  unfolding after_round after_success
  after-Going cfg o l g = ground arith

  rest-Going :
      (cfg : RelayConfig fl.F) (t : Turn fl.F) (l : Loop fl.F)
      → IsCalm t
      → Going l
      → let (pause, l2) = after_round fl cfg t.outcome l in Going (rest fl pause t l2)
  unfolding rest
  rest-Going cfg t l c g =
      let g' = after-Going cfg t.outcome l g in
      let g'' = wakes-Going t.resting (after_round fl cfg t.outcome l).1 c.1 g' in
      ground (arith, g', g'')

  -- A calm turn is a round, and the loop goes on.
  calm_turn :
      (cfg : RelayConfig fl.F) (t : Turn fl.F) (ts : List (Turn fl.F)) (l : Loop fl.F)
      → IsCalm t
      → Going l
      → let l1 = arrive_all fl t.during l in
        let (pause, l2) = after_round fl cfg t.outcome l1 in
        let l3 = rest fl pause t l2 in
        Going l3
        × (run_turns fl cfg (t ∷ ts) l
            ≡ ((run_turns fl cfg ts l3).0, (run_turns fl cfg ts l3).1 + 1))
  unfolding run_turns
  calm_turn cfg t ts l c g =
      let l1 = arrive_all fl t.during l in
      let g1 = wakes-Going t.during l c.0 g in
      let g3 = rest-Going cfg t l1 c g1 in (g3, ground arith)

  turns_until_stop :
      (cfg : RelayConfig fl.F) (before : List (Turn fl.F)) (t : Turn fl.F) (ts : List (Turn fl.F))
      (l : Loop fl.F) (n : ℕ)
      → All IsCalm before
      → Going l
      → t.outcome ≡ succeeded n
      → any is_stop t.during ≡ true
      → count_signals t.during ≤ 1
      → run_turns fl cfg (before ++ t ∷ ts) l ≡ (stopped, length before + 1)
  turns_until_stop cfg [] t ts l n calm g won asked few =
      stop_finishes_round fl cfg t ts l n
        (record { unseen = g.1; uncancelled = g.2; no_cancels = g.3 }) g.0 won (ground arith) few
  turns_until_stop cfg (b ∷ bs) t ts l n calm g won asked few =
      let (g', same) = calm_turn cfg b (bs ++ t ∷ ts) l calm.0 g in
      let count : length bs + 1 + 1 ≡ suc (length bs) + 1 = omega arith in
      let rest = turns_until_stop cfg bs t ts _ n calm.1 g' won asked few in
      same ∙ (λ i. ((rest i).0, (rest i).1 + 1)) ∙ (λ i. (stopped, count i))

  -- Leaving the block finishes the round in flight and starts no other: if `__aexit__` calls `stop`
  -- while a round of the task runs, after some turns in which nobody stopped, signalled or cancelled,
  -- at most one signal arrives in that round, and the round succeeds, then the block is left after
  -- exactly that round. If the task has not begun, no round is run, and CancelledError leaves the
  -- block only if the task that leaves it is being cancelled.
  pub leaving_finishes_round :
      (cfg : RelayConfig fl.F) (before : List (Turn fl.F)) (t : Turn fl.F) (ts : List (Turn fl.F))
      (p : Poller fl.F) (n : ℕ) (cancelling : Bool)
      → All IsCalm before
      → t.outcome ≡ succeeded n
      → any is_stop t.during ≡ true
      → count_signals t.during ≤ 1
      → (block cfg true cancelling (before ++ t ∷ ts) p ≡ (leaves, length before + 1))
        × (block cfg false cancelling (before ++ t ∷ ts) p
            ≡ (if cancelling then raises else leaves, 0))
  unfolding block run
  leaving_finishes_round cfg before t ts p n cancelling calm won asked few =
      let done = turns_until_stop cfg before t ts _ n calm (refl, refl, refl, refl) won asked few in
      (ap (aexit (some started) cancelling) done, refl)
