-- ===== src/Postgres/Tests.antt =====
-- Runs of the PostgreSQL adapter, and its theorems at concrete inputs.
use txoutbox.Base.{
  ℕ, ◌≡◌, refl, Option, true, false, none, some, List, [], ◌∷◌, map, same_text, arith, elem, ◌||◌,
}
use txoutbox.Base.Int.{pos}
use txoutbox.Message.{bytes}
use txoutbox.Memory.{pending, Call, adds, claims, acks, nacks, releases, dead_letters}
use txoutbox.Sqlite.{Row}
use txoutbox.Postgres.{PostgresStorage, claim}
use txoutbox.Postgres.Order.{overtakes_locked_only}

abbrev fresh_row : ℕ → ℕ → Row
fresh_row id at = record {
  id = id;
  topic = "t";
  key = some "a";
  payload = [];
  headers = [];
  status = pending;
  attempts = pos 0;
  retry_at = none;
  leased_by = none;
  lease_until = none;
  last_error = none;
  created_at = at;
}

abbrev table : Option ℕ → PostgresStorage
table delay = record {
  strict_ordering = true;
  delete_on_ack = false;
  visibility_delay = delay;
  rows = fresh_row 1 40 ∷ fresh_row 2 10 ∷ [];
  next_id = 3;
}

-- Row 1 is too young, so row 2 waits for it.
young_blocks : (claim [] 5 30 "w" 50 (table (some 20))).0 ≡ []
unfolding claim same_text
young_blocks = refl

-- Another transaction has row 1 locked: the claim passes over it, and takes row 2 with its key.
locked_overtaken : map (λ m. m.id) (claim (1 ∷ []) 5 30 "w" 50 (table none)).0 ≡ 2 ∷ []
unfolding claim same_text
locked_overtaken = refl

abbrev calls : List (ℕ × Call)
calls =
    (50, claims 1 30 "w")
    ∷ (51, nacks 1 "w" "boom" 90)
    ∷ (52, adds "t" (bytes []) none [])
    ∷ (53, claims 5 30 "v")
    ∷ (54, acks (3 ∷ 3 ∷ []) "v")
    ∷ (55, releases (2 ∷ []) "v" 60)
    ∷ (56, dead_letters 1 "v" "late")
    ∷ []

claimed_first : elem 2 (map (λ m. m.id) (claim (1 ∷ []) 5 30 "w" 50 (table none)).0) ≡ true
unfolding claim same_text
claimed_first = refl

overtakes_locked_only_example :
    (elem 1 (map (λ m. m.id) (claim (1 ∷ []) 5 30 "w" 50 (table none)).0) || elem 1 (1 ∷ [])) ≡ true
overtakes_locked_only_example =
    overtakes_locked_only (1 ∷ []) 5 30 "w" 50 1 (table none) "a" (fresh_row 2 10) (fresh_row 1 40)
      refl (omega arith) refl refl refl refl (omega arith) refl claimed_first
