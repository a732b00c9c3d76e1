-- ===== src/Postgres/Transactions/Events.antt =====
-- What an event gives that need not wait, for the transactions in
-- src/txoutbox/adapters/postgres.py.
use txoutbox.Base.{
  ℕ, ◌≡◌, String, Bool, false, some, List, [], ◌∷◌, ◌++◌, arith, Bool-cases, Option-cases, inl, inr,
}
use txoutbox.Memory.{Call}
use txoutbox.Postgres.{step}
use txoutbox.Postgres.Transactions.{
  Flight, Database, land, take_out, is_busy, waits, is_shut, is_claim, Event, begins, ends, runs,
  locks, widens, concludes, fails, Hold, take_hold, lockable, finish_call, flight, perform,
  perform_all,
}

pub begins_lem :
    (commits : Bool) (batch lease : ℕ) (worker : String) (now : ℕ) (d d' : Database)
    → perform (begins commits batch lease worker now) d ≡ some d'
    → (is_shut d ≡ false)
      × (record d { flights = d.flights ++ flight commits batch lease worker now d ∷ [] } ≡ d')
unfolding perform
begins_lem commits batch lease worker now d d' e = elim (Bool-cases (is_shut d)) [
  | inl shut ↦ ground arith
  | inr free ↦ (free, ground arith)
]

pub ends_lem :
    (worker : String) (d d' : Database)
    → perform (ends worker) d ≡ some d'
    → (f : Flight) × (fs : List Flight) × (take_out worker d.flights ≡ some (f, fs))
      × (record d { storage = record d.storage { rows = land f d.storage.rows }; flights = fs }
          ≡ d')
unfolding perform
ends_lem worker d d' e = elim (Option-cases (take_out worker d.flights)) [
  | inl none_there ↦ ground arith
  | inr ((f, fs), at) ↦ (f, fs, at, ground arith)
]

pub finish_call_lem :
    (now : ℕ) (c : Call) (d d' : Database)
    → finish_call now c d ≡ some d'
    → (is_claim c ≡ false)
      × (is_busy c d.flights ≡ false)
      × (waits c d.storage.rows d.flights ≡ false)
      × (record d { storage = step (now, c) d.storage } ≡ d')
unfolding finish_call
finish_call_lem now c d d' e = (ground arith, ground arith, ground arith, ground arith)

pub runs_lem :
    (now : ℕ) (c : Call) (d d' : Database)
    → perform (runs now c) d ≡ some d'
    → finish_call now c d ≡ some d'
unfolding perform
runs_lem now c d d' e = e

-- Reports lock rows and let go of them without a change of the table.
pub locks_lem :
    (now : ℕ) (c : Call) (chosen : List ℕ) (d d' : Database)
    → perform (locks now c chosen) d ≡ some d'
    → (hs : List Hold) × (record d { holds = hs } ≡ d')
unfolding perform
locks_lem now c chosen d d' e =
    (record { at = now; call = c; ids = lockable c chosen d } ∷ d.holds, ground arith)

pub widens_lem :
    (worker : String) (chosen : List ℕ) (d d' : Database)
    → perform (widens worker chosen) d ≡ some d'
    → (hs : List Hold) × (record d { holds = hs } ≡ d')
unfolding perform
widens_lem worker chosen d d' e = elim (Option-cases (take_hold worker d.holds)) [
  | inl none_there ↦ ground arith
  | inr ((h, hs), at) ↦ (record h { ids = lockable h.call chosen d ++ h.ids } ∷ hs, ground arith)
]

pub fails_lem :
    (worker : String) (d d' : Database)
    → perform (fails worker) d ≡ some d'
    → (hs : List Hold) × (record d { holds = hs } ≡ d')
unfolding perform
fails_lem worker d d' e = elim (Option-cases (take_hold worker d.holds)) [
  | inl none_there ↦ ground arith
  | inr ((h, hs), at) ↦ (hs, ground arith)
]

pub concludes_lem :
    (worker : String) (d d' : Database)
    → perform (concludes worker) d ≡ some d'
    → (h : Hold) × (hs : List Hold) × (take_hold worker d.holds ≡ some (h, hs))
      × (finish_call h.at h.call (record d { holds = hs }) ≡ some d')
unfolding perform
concludes_lem worker d d' e = elim (Option-cases (take_hold worker d.holds)) [
  | inl none_there ↦ ground arith
  | inr ((h, hs), at) ↦ (h, hs, at, ground arith)
]

pub perform_all-cases :
    (ev : Event) (es : List Event) (d d' : Database)
    → perform_all (ev ∷ es) d ≡ some d'
    → (m : Database) × (perform ev d ≡ some m) × (perform_all es m ≡ some d')
unfolding perform_all
perform_all-cases ev es d d' e = elim (Option-cases (perform ev d)) [
  | inl stuck ↦ ground arith
  | inr (m, at) ↦ (m, at, ground arith)
]

pub perform_all-nil : (d d' : Database) → perform_all [] d ≡ some d' → d ≡ d'
unfolding perform_all
perform_all-nil d d' e = ground arith
