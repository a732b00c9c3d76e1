-- ===== src/Contract/Simulation.antt =====
-- Two adapters for the tests of src/txoutbox/testing.py that answer alike.
use mathlib.Core.Option
use txoutbox.Base.{
  ℕ, suc, ◌+◌, ◌≡◌, refl, ap, sym, ◌∙◌, Option-cases, inl, inr, String, Bool, true, false, Option,
  none, some, List,
}
use txoutbox.Contract.{
  Outcome, failed, skipped, Test, ends, inserts, claims, acks, nacks, releases, dead_letters,
  asks_stats, asks_time, sleeps, Adapter, run,
}

-- Every call on two related states gives the same answer and related states.
pub record Simulates {S T : Type 0} (a : Adapter S) (b : Adapter T) (R : S → T → Type 0)
    : Type 0 where
  pub insert_sim :
      (now : ℕ) (topic : String) (payload : List ℕ) (key : Option String) (s : S) (u : T)
      → R s u
      → ((a.insert now topic payload key s).0 ≡ (b.insert now topic payload key u).0)
        × R (a.insert now topic payload key s).1 (b.insert now topic payload key u).1
  pub claim_sim :
      (now batch lease : ℕ) (worker : String) (s : S) (u : T)
      → R s u
      → (((a.storage now).claim batch lease worker s).0
          ≡ ((b.storage now).claim batch lease worker u).0)
        × R
            ((a.storage now).claim batch lease worker s).1
            ((b.storage now).claim batch lease worker u).1
  pub ack_sim :
      (now : ℕ) (ids : List ℕ) (worker : String) (s : S) (u : T)
      → R s u
      → (((a.storage now).ack ids worker s).0 ≡ ((b.storage now).ack ids worker u).0)
        × R ((a.storage now).ack ids worker s).1 ((b.storage now).ack ids worker u).1
  pub nack_sim :
      (now id : ℕ) (worker error : String) (at : ℕ) (s : S) (u : T)
      → R s u
      → (((a.storage now).nack id worker error at s).0
          ≡ ((b.storage now).nack id worker error at u).0)
        × R
            ((a.storage now).nack id worker error at s).1
            ((b.storage now).nack id worker error at u).1
  pub release_sim :
      (now : ℕ) (ids : List ℕ) (worker : String) (at : ℕ) (s : S) (u : T)
      → R s u
      → (((a.storage now).release ids worker at s).0 ≡ ((b.storage now).release ids worker at u).0)
        × R ((a.storage now).release ids worker at s).1 ((b.storage now).release ids worker at u).1
  pub dead_letter_sim :
      (now id : ℕ) (worker error : String) (s : S) (u : T)
      → R s u
      → (((a.storage now).dead_letter id worker error s).0
          ≡ ((b.storage now).dead_letter id worker error u).0)
        × R
            ((a.storage now).dead_letter id worker error s).1
            ((b.storage now).dead_letter id worker error u).1
  pub stats_sim :
      (now : ℕ) (s : S) (u : T)
      → R s u
      → Option.map (λ f. f now s) a.stats ≡ Option.map (λ f. f now u) b.stats

-- What a test does with an answer; `o` is what it ends with if there is none.
abbrev on_answer : {A : Type 0} → Outcome → (A → Outcome) → Option A → Outcome
on_answer o next none = o
on_answer o next (some x) = next x

module _ {A : Type 0} (o : Outcome) (f k : A → Outcome) (same : (x : A) → f x ≡ k x) where
  answered : (g h : Option A) → g ≡ h → on_answer o f g ≡ on_answer o k h
  answered g h e = ap (on_answer o f) e ∙ go h
    where
      go : (h : Option A) → on_answer o f h ≡ on_answer o k h
      go none = refl
      go (some x) = same x

abbrev on_success : Outcome → Bool → Outcome
on_success next true = next
on_success next false = failed

succeeded : (b c : Bool) (f k : Outcome) → b ≡ c → f ≡ k → on_success f b ≡ on_success k c
succeeded b c f k e same = ap (on_success f) e ∙ ap (λ x. on_success x c) same

module _ {S T : Type 0} (a : Adapter S) (b : Adapter T) (R : S → T → Type 0)
    (sim : Simulates a b R) where
  pub answers-eq :
      (t : Test) (ticks : ℕ → ℕ) (now : ℕ) (s : S) (u : T)
      → R s u
      → run a t ticks now s ≡ run b t ticks now u
  unfolding run
  answers-eq (ends o) ticks now s u r = refl
  answers-eq (inserts topic payload key next) ticks now s u r =
      let (same, r') = sim.insert_sim now topic payload key s u r in
      answered failed _ _ (λ id. answers-eq (next id) (λ n. ticks (suc n)) (now + ticks 0) _ _ r') _
        _ same
  answers-eq (claims batch lease worker next) ticks now s u r =
      let (same, r') = sim.claim_sim now batch lease worker s u r in
      answered failed _ _ (λ ms. answers-eq (next ms) (λ n. ticks (suc n)) (now + ticks 0) _ _ r') _
        _ same
  answers-eq (acks ids worker next) ticks now s u r =
      let (same, r') = sim.ack_sim now ids worker s u r in
      succeeded _ _ _ _ same (answers-eq next (λ n. ticks (suc n)) (now + ticks 0) _ _ r')
  answers-eq (nacks id worker error at next) ticks now s u r =
      let (same, r') = sim.nack_sim now id worker error at s u r in
      succeeded _ _ _ _ same (answers-eq next (λ n. ticks (suc n)) (now + ticks 0) _ _ r')
  answers-eq (releases ids worker at next) ticks now s u r =
      let (same, r') = sim.release_sim now ids worker at s u r in
      succeeded _ _ _ _ same (answers-eq next (λ n. ticks (suc n)) (now + ticks 0) _ _ r')
  answers-eq (dead_letters id worker error next) ticks now s u r =
      let (same, r') = sim.dead_letter_sim now id worker error s u r in
      succeeded _ _ _ _ same (answers-eq next (λ n. ticks (suc n)) (now + ticks 0) _ _ r')
  answers-eq (asks_stats next) ticks now s u r =
      stats_here a s
      ∙ answered skipped _ _ (λ x. answers-eq (next x) (λ n. ticks (suc n)) (now + ticks 0) _ _ r) _
          _ (sim.stats_sim now s u r)
      ∙ sym (stats_here b u)
    where
      stats_here :
          {X : Type 0} (c : Adapter X) (x : X)
          → run c (asks_stats next) ticks now x
            ≡ on_answer skipped
                (λ st. run c (next st) (λ n. ticks (suc n)) (now + ticks 0) x)
                (Option.map (λ f. f now x) c.stats)
      stats_here c x = elim (Option-cases c.stats) [
        | inl e ↦ rw (e, run)
        | inr (f, e) ↦ rw (e, run)
      ]
  answers-eq (asks_time next) ticks now s u r = answers-eq (next now) ticks now s u r
  answers-eq (sleeps duration next) ticks now s u r = answers-eq next ticks (now + duration) s u r
