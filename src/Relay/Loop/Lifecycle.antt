-- ===== src/Relay/Loop/Lifecycle.antt =====
-- What signals, `stop` and cancellation do to the loop of `run`.
use txoutbox.Base.{
  ℕ, ◌+◌, ◌≤◌, ◌≡◌, refl, Bool, true, false, ◌||◌, List, [], ◌∷◌, arith, leb, ltb, if◌then◌else◌,
  any, Bool-cases, inl, inr,
}
use txoutbox.Float.{Float}
use txoutbox.Poller.{Poller}
use txoutbox.Relay.Config.{RelayConfig}
use txoutbox.Relay.Loop.{
  Loop, Arrival, stops, wakes, signals, Outcome, succeeded, failed_round, cancelled, Pause,
  no_pause, give_way, waits, Turn, stopped, quiet, raised, arrive, arrive_all, after_success,
  after_round, rest, is_cancelled, run_turns, run,
}

unfoldable pub count_signals : List Arrival → ℕ
count_signals [] = 0
count_signals (signals ∷ as') = count_signals as' + 1
count_signals (stops ∷ as') = count_signals as'
count_signals (wakes ∷ as') = count_signals as'

count-cons :
    (a : Arrival) (as' : List Arrival)
    → count_signals (a ∷ as') ≡ count_signals (a ∷ []) + count_signals as'
unfolding count_signals
count-cons stops as' = omega arith
count-cons wakes as' = omega arith
count-cons signals as' = omega arith

-- A call of `stop`.
abbrev pub is_stop : Arrival → Bool
is_stop stops = true
is_stop _ = false

module _ (fl : Float) where
  -- The loop has cancelled its task once if it has seen two signals, and not otherwise.
  pub record Consistent (l : Loop fl.F) : Type 0 where
    pub cancelled : l.cancelled_by_signal ≡ leb 2 l.signals_seen
    pub once : l.cancels ≡ (if leb 2 l.signals_seen then 1 else 0)

  arrive-Consistent :
      (a : Arrival) (l : Loop fl.F)
      → Consistent l
      → Consistent (arrive fl a l)
        × ((arrive fl a l).signals_seen ≡ l.signals_seen + count_signals (a ∷ []))
  unfolding arrive count_signals
  arrive-Consistent stops l c = (record { cancelled = c.cancelled; once = c.once }, omega arith)
  arrive-Consistent wakes l c = (record { cancelled = c.cancelled; once = c.once }, omega arith)
  arrive-Consistent signals l c = (
    record { cancelled = ground (arith, c.cancelled); once = ground (arith, c.cancelled, c.once) },
    ground arith,
  )

  arrive_all-Consistent :
      (as' : List Arrival) (l : Loop fl.F)
      → Consistent l
      → Consistent (arrive_all fl as' l)
        × ((arrive_all fl as' l).signals_seen ≡ l.signals_seen + count_signals as')
  unfolding arrive_all count_signals
  arrive_all-Consistent [] l c = (c, omega arith)
  arrive_all-Consistent (a ∷ as') l c =
      let (c', n) = arrive-Consistent a l c in
      let (d, m) = arrive_all-Consistent as' (arrive fl a l) c' in
      (d, omega (arith, count-cons a as'))

  -- A loop whose `run` has just begun.
  pub record Fresh (l : Loop fl.F) : Type 0 where
    pub unseen : l.signals_seen ≡ 0
    pub uncancelled : l.cancelled_by_signal ≡ false
    pub no_cancels : l.cancels ≡ 0

  Fresh-Consistent : (l : Loop fl.F) → Fresh l → Consistent l
  Fresh-Consistent l f = record {
    cancelled = ground (arith, f.unseen, f.uncancelled);
    once = ground (arith, f.unseen, f.no_cancels);
  }

  stays_stopping :
      (as' : List Arrival) (l : Loop fl.F)
      → l.stopping ≡ true
      → (arrive_all fl as' l).stopping ≡ true
  unfolding arrive_all arrive
  stays_stopping [] l h = h
  stays_stopping (stops ∷ as') l h = stays_stopping as' (arrive fl stops l) (unfold arrive in refl)
  stays_stopping (wakes ∷ as') l h = stays_stopping as' (arrive fl wakes l) (unfold arrive in h)
  stays_stopping (signals ∷ as') l h =
      stays_stopping as' (arrive fl signals l) (unfold arrive in ground arith)

  -- A call of `stop`, or the first signal, sets the flag.
  stops_stopping :
      (as' : List Arrival) (l : Loop fl.F)
      → l.signals_seen ≡ 0
      → (any is_stop as' || ltb 0 (count_signals as')) ≡ true
      → (arrive_all fl as' l).stopping ≡ true
  unfolding arrive_all count_signals arrive
  stops_stopping [] l z h = cc
  stops_stopping (stops ∷ as') l z h =
      stays_stopping as' (arrive fl stops l) (unfold arrive in refl)
  stops_stopping (wakes ∷ as') l z h = stops_stopping as' (arrive fl wakes l) (unfold arrive in z) h
  stops_stopping (signals ∷ as') l z h =
      stays_stopping as' (arrive fl signals l) (unfold arrive in ground arith)

  -- However many signals arrive after `run` has begun, the task is cancelled once if there are two
  -- or more and never if there are fewer; and any signal, and any call of `stop`, stops the loop.
  pub signals_cancel_once :
      (as' : List Arrival) (l : Loop fl.F)
      → Fresh l
      → let l' = arrive_all fl as' l in
        (l'.cancels ≡ (if leb 2 (count_signals as') then 1 else 0))
        × (l'.cancelled_by_signal ≡ leb 2 (count_signals as'))
        × ((any is_stop as' || ltb 0 (count_signals as')) ≡ true → l'.stopping ≡ true)
  signals_cancel_once as' l f =
      let (c, n) = arrive_all-Consistent as' l (Fresh-Consistent l f) in
      let seen : (arrive_all fl as' l).signals_seen ≡ count_signals as' = omega (arith, f.unseen) in
      (rw (← seen) c.once, rw (← seen) c.cancelled, stops_stopping as' l f.unseen)

  -- The round in flight is finished: if `stop` or a signal arrives while the first round of `run`
  -- runs, no second signal does, and the round succeeds, `run` returns after exactly that round.
  pub stop_finishes_round :
      (cfg : RelayConfig fl.F) (t : Turn fl.F) (ts : List (Turn fl.F)) (l : Loop fl.F) (n : ℕ)
      → Fresh l
      → l.stopping ≡ false
      → t.outcome ≡ succeeded n
      → (any is_stop t.during || ltb 0 (count_signals t.during)) ≡ true
      → count_signals t.during ≤ 1
      → run_turns fl cfg (t ∷ ts) l ≡ (stopped, 1)
  unfolding run_turns after_round after_success rest
  stop_finishes_round cfg t [] l n f going won asked few =
      let (once, not_cancelled, stopping) = signals_cancel_once t.during l f in
      ground (arith, stopping asked)
  stop_finishes_round cfg t (t' ∷ ts) l n f going won asked few =
      let (once, not_cancelled, stopping) = signals_cancel_once t.during l f in
      ground (arith, stopping asked)

  after_round-Consistent :
      (cfg : RelayConfig fl.F) (o : Outcome) (l : Loop fl.F)
      → Consistent l
      → let l' = (after_round fl cfg o l).1 in Consistent l' × (l'.signals_seen ≡ l.signals_seen)
  unfolding after_round after_success
  after_round-Consistent cfg (succeeded n) l c = (
    record { cancelled = ground (arith, c.cancelled); once = ground (arith, c.once) },
    ground arith,
  )
  after_round-Consistent cfg failed_round l c = (c, refl)
  after_round-Consistent cfg cancelled l c = (c, refl)

  rest-Consistent :
      (pause : Pause fl.F) (t : Turn fl.F) (l : Loop fl.F)
      → Consistent l
      → let l' = rest fl pause t l in
        Consistent l' × (l'.signals_seen ≤ l.signals_seen + count_signals t.resting)
  unfolding rest
  rest-Consistent no_pause t l c = (c, omega arith)
  rest-Consistent give_way t l c =
      let (c', n) = arrive_all-Consistent t.resting l c in (c', omega (arith, n))
  rest-Consistent (waits seconds) t l c =
      let (c', n) = arrive_all-Consistent t.resting l c in
      (record { cancelled = c'.cancelled; once = c'.once }, omega (arith, n))

  -- The signals that arrive during the turns.
  unfoldable pub all_signals : List (Turn fl.F) → ℕ
  all_signals [] = 0
  all_signals (t ∷ ts) = count_signals t.during + count_signals t.resting + all_signals ts

  ending-cases :
      (cfg : RelayConfig fl.F) (ts : List (Turn fl.F)) (l : Loop fl.F)
      → Consistent l
      → ((run_turns fl cfg ts l).0 ≡ raised
          → any (λ t. is_cancelled fl t.outcome || t.cut) ts ≡ true)
        × ((run_turns fl cfg ts l).0 ≡ quiet → 2 ≤ l.signals_seen + all_signals ts)
  unfolding run_turns all_signals
  ending-cases cfg [] l c = elim (Bool-cases l.stopping) [
    | inl h ↦ ((λ e. absurd (ground arith)), (λ e. absurd (ground arith)))
    | inr h ↦ ((λ e. absurd (ground arith)), (λ e. absurd (ground arith)))
  ]
  ending-cases cfg (t ∷ ts) l c =
      let l1 = arrive_all fl t.during l in
      let after = after_round fl cfg t.outcome l1 in
      let l3 = rest fl after.0 t after.1 in
      let (c1, n1) = arrive_all-Consistent t.during l c in
      let (c2, n2) = after_round-Consistent cfg t.outcome l1 c1 in
      let (c3, n3) = rest-Consistent after.0 t after.1 c2 in
      let (raises, quiets) = ending-cases cfg ts l3 c3 in
      (
        (λ e. ground (arith, raises, c1.cancelled, c1.once, c3.cancelled, c3.once)),
        (λ e. ground (arith, quiets, c1.cancelled, c3.cancelled, n1, n2, n3)),
      )

  -- `run` raises only if a round or a rest was cancelled from outside: signals alone never make it
  -- raise, although the second one cancels its task. It returns quietly only after two signals.
  pub raised_from_outside :
      (cfg : RelayConfig fl.F) (ts : List (Turn fl.F)) (p : Poller fl.F)
      → ((run fl cfg ts p).0 ≡ raised → any (λ t. is_cancelled fl t.outcome || t.cut) ts ≡ true)
        × ((run fl cfg ts p).0 ≡ quiet → 2 ≤ all_signals ts)
  unfolding run
  raised_from_outside cfg ts p =
      let begun : Loop fl.F = record {
        stopping = false;
        poller = p;
        signals_seen = 0;
        cancelled_by_signal = false;
        cancels = 0;
      } in
      let (raises, quiets) = ending-cases cfg ts begun (record { cancelled = refl; once = refl }) in
      (raises, λ e. let seen = quiets e in omega (arith, seen))
