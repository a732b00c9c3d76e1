-- ===== src/Postgres/Producers/Tests.antt =====
-- Producers that commit in another order than they insert, and the theorem at that run.
use txoutbox.Base.{
  ℕ, ◌≡◌, refl, Option, true, false, none, some, List, [], ◌∷◌, map, arith, elem, same_text,
}
use txoutbox.Message.{bytes, encode_payload}
use txoutbox.Memory.{claims}
use txoutbox.Postgres.{insert, claim, step}
use txoutbox.Postgres.Ids.{ids_of}
use txoutbox.Postgres.Producers.{Producers, Event, inserts, commits, makes, is_on_time, happen_all}
use txoutbox.Postgres.Producers.Rising.{IsRising}
use txoutbox.Postgres.Producers.Late.{late_rows_lem}

abbrev empty : Option ℕ → Producers
empty delay = record {
  storage = record {
    strict_ordering = true;
    delete_on_ack = false;
    visibility_delay = delay;
    rows = [];
    next_id = 1;
  };
  uncommitted = [];
  clock = 100;
}

empty-IsRising : (delay : Option ℕ) → IsRising (empty delay)
empty-IsRising delay = record {
  below = λ i t e. cc;
  past = λ i t e. cc;
  rising = λ i t j u e f lt. cc;
}

-- Row 1 is inserted before row 2 and committed after it.
abbrev two_producers : List (ℕ × Event)
two_producers =
    (100, inserts "t" (bytes []) (some "k") [])
    ∷ (101, inserts "t" (bytes []) (some "k") [])
    ∷ (102, commits 2)
    ∷ (104, commits 1)
    ∷ []

abbrev later : List (ℕ × Event)
later =
    (120, makes (claims 5 30 "w"))
    ∷ (121, inserts "t" (bytes []) (some "k") [])
    ∷ (123, commits 3)
    ∷ []

abbrev committed : Producers
unfolding happen_all insert encode_payload
committed = elim (happen_all 5 two_producers (empty (some 10))) [ none ↦ empty none | some p ↦ p ]

abbrev afterwards : Producers
unfolding happen_all step claim insert encode_payload same_text committed
afterwards = elim (happen_all 5 later committed) [ none ↦ empty none | some p ↦ p ]

committed_result : happen_all 5 two_producers (empty (some 10)) ≡ some committed
unfolding happen_all insert encode_payload committed
committed_result = refl

afterwards_result : happen_all 5 later committed ≡ some afterwards
unfolding happen_all step claim insert encode_payload same_text committed afterwards
afterwards_result = refl

late_rows_lem_example : elem 1 (ids_of committed.storage.rows) ≡ true
unfolding committed is_on_time happen_all step claim insert encode_payload same_text afterwards
late_rows_lem_example =
    late_rows_lem 5 10 two_producers later (empty (some 10)) committed afterwards [] 5 30 "w" 120 2
      1 (empty-IsRising (some 10)) committed_result refl (omega arith) (omega arith) refl refl
      afterwards_result (omega arith) refl

-- A producing transaction that takes too long is not among the runs.
too_slow : happen_all 1 two_producers (empty (some 10)) ≡ none
unfolding happen_all insert encode_payload
too_slow = refl

-- Without a delay, row 2 is handed out while row 1 is not committed.
overtaken :
    ◌≡◌ {A = List ℕ × List ℕ}
      (elim (happen_all 5
        ((100, inserts "t" (bytes []) (some "k") [])
          ∷ (101, inserts "t" (bytes []) (some "k") [])
          ∷ (102, commits 2)
          ∷ [])
        (empty none)) [
          | none ↦ ([], [])
          | some p ↦ (map (λ m. m.id) (claim [] 5 30 "w" 103 p.storage).0, ids_of p.uncommitted)
        ])
      (2 ∷ [], 1 ∷ [])
unfolding happen_all claim insert encode_payload same_text
overtaken = refl
