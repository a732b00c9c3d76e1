-- ===== src/Postgres/Producers/Rising.antt =====
-- The ids and times of rows over time in src/txoutbox/adapters/postgres.py.
use txoutbox.Base.{
  ℕ, ◌≤◌, ◌<◌, ◌≡◌, ◌⊎◌, refl, ap, subst, ◌∙◌, Bool, true, not, ◌||◌, some, List, [], ◌∷◌, arith,
  ◌==◌, filter, Bool-cases, inl, inr,
}
use txoutbox.Postgres.Producers.{
  Producers, Event, inserts, commits, rolls_back, makes, is_on_time, happens, happen_all,
}
use txoutbox.Postgres.Producers.Stamps.{
  stamped, stamped-filter, stamped-append, insert-IsStampedFrom, step-IsStampedFrom,
}

-- A row that is committed, or will be.
abbrev pub has : ℕ → ℕ → Producers → Bool
has i t p = stamped i t p.storage.rows || stamped i t p.uncommitted

-- Ids and times rise together.
pub record IsRising (p : Producers) : Type 0 where
  pub below : (i t : ℕ) → has i t p ≡ true → i < p.storage.next_id
  pub past : (i t : ℕ) → has i t p ≡ true → t ≤ p.clock
  pub rising : (i t j u : ℕ) → has i t p ≡ true → has j u p ≡ true → i ≤ j → t ≤ u

-- Each row is one of before, or inserted now.
record Origin (at : ℕ) (p p' : Producers) : Type 0 where
  from :
      (i t : ℕ)
      → has i t p' ≡ true
      → (has i t p ≡ true)
        ⊎ ((i ≡ p.storage.next_id) × (t ≡ at) × (p.storage.next_id < p'.storage.next_id))
  grows : p.storage.next_id ≤ p'.storage.next_id
  clock : p'.clock ≡ at

happens-Origin : (ev : Event) (at : ℕ) (p : Producers) → Origin at p (happens ev at p)
unfolding happens
happens-Origin (inserts topic payload key headers) at p =
    let o =
      insert-IsStampedFrom at (record p.storage { rows = p.uncommitted }) topic payload key
        headers in
    record {
      from = λ i t e. elim (Bool-cases (stamped i t p.storage.rows)) [
        | inl old ↦ inl (ground arith)
        | inr other ↦ elim (o.origin i t (ground arith)) [
          | inl old ↦ inl (ground arith)
          | inr new ↦ inr new
        ]
      ];
      grows = o.grows;
      clock = refl;
    }
happens-Origin (commits id) at p = record {
  from = λ i t e.
      let here = stamped-append i t p.storage.rows (filter (λ r. id == r.id) p.uncommitted) in
      let came = stamped-filter i t (λ r. id == r.id) p.uncommitted in
      let stayed = stamped-filter i t (λ r. not (id == r.id)) p.uncommitted in inl (ground arith);
  grows = omega arith;
  clock = refl;
}
happens-Origin (rolls_back id) at p = record {
  from = λ i t e.
      let stayed = stamped-filter i t (λ r. not (id == r.id)) p.uncommitted in inl (ground arith);
  grows = omega arith;
  clock = refl;
}
happens-Origin (makes c) at p =
    let o = step-IsStampedFrom at p.storage c in
    record {
      from = λ i t e. elim (Bool-cases (stamped i t p.uncommitted)) [
        | inl open_row ↦ inl (ground arith)
        | inr other ↦ elim (o.origin i t (ground arith)) [
          | inl old ↦ inl (ground arith)
          | inr new ↦ inr new
        ]
      ];
      grows = o.grows;
      clock = refl;
    }

Origin-IsRising :
    (at : ℕ) (p p' : Producers) → p.clock ≤ at → Origin at p p' → IsRising p → IsRising p'
Origin-IsRising at p p' le_at o v = record {
  below = λ i t e. elim (o.from i t e) [
    | inl old ↦ let lt = v.below i t old in omega (arith, lt, o.grows)
    | inr (same, time, more) ↦ omega (arith, same, more)
  ];
  past = λ i t e. elim (o.from i t e) [
    | inl old ↦ let lt = v.past i t old in omega (arith, lt, o.clock)
    | inr (same, time, more) ↦ omega (arith, time, o.clock)
  ];
  rising = λ i t j u e f lt. elim (o.from i t e) [
    | inl old ↦ elim (o.from j u f) [
      | inl old' ↦ v.rising i t j u old old' lt
      | inr (same, time, more) ↦ let early = v.past i t old in omega (arith, early, time)
    ]
    | inr (same, time, more) ↦ elim (o.from j u f) [
      | inl old' ↦ let low = v.below j u old' in omega (arith, low, same)
      | inr (same', time', more') ↦ omega (arith, time, time')
    ]
  ];
}

happen_all-nil : (slowest : ℕ) (p p' : Producers) → happen_all slowest [] p ≡ some p' → p ≡ p'
unfolding happen_all
happen_all-nil slowest p p' e = ground arith

happen_all-step :
    (slowest at : ℕ) (ev : Event) (es : List (ℕ × Event)) (p p' : Producers)
    → happen_all slowest ((at, ev) ∷ es) p ≡ some p'
    → (p.clock ≤ at) × (happen_all slowest es (happens ev at p) ≡ some p')
unfolding happen_all is_on_time
happen_all-step slowest at ev es p p' e = (ground arith, ground arith)

pub happen_all-IsRising :
    (slowest : ℕ) (es : List (ℕ × Event)) (p p' : Producers)
    → happen_all slowest es p ≡ some p'
    → IsRising p
    → IsRising p'
happen_all-IsRising slowest [] p p' e v = subst IsRising (happen_all-nil slowest p p' e) v
happen_all-IsRising slowest ((at, ev) ∷ es) p p' e v =
    let (le_at, rest) = happen_all-step slowest at ev es p p' e in
    happen_all-IsRising slowest es (happens ev at p) p' rest
      (Origin-IsRising at p (happens ev at p) le_at (happens-Origin ev at p) v)

-- Each row of a later state is one of before, or has a later id.
pub happen_all-from :
    (slowest : ℕ) (es : List (ℕ × Event)) (p p' : Producers) (i t : ℕ)
    → happen_all slowest es p ≡ some p'
    → has i t p' ≡ true
    → (has i t p ≡ true) ⊎ (p.storage.next_id ≤ i)
happen_all-from slowest [] p p' i t e h = inl (ap (has i t) (happen_all-nil slowest p p' e) ∙ h)
happen_all-from slowest ((at, ev) ∷ es) p p' i t e h =
    let (le_at, rest) = happen_all-step slowest at ev es p p' e in
    let o = happens-Origin ev at p in
    elim (happen_all-from slowest es (happens ev at p) p' i t rest h) [
      | inl here ↦ elim (o.from i t here) [
        | inl old ↦ inl old
        | inr (same, time, more) ↦ inr (omega arith)
      ]
      | inr high ↦ inr (let grows = o.grows in omega arith)
    ]
