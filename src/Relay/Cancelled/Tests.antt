-- ===== src/Relay/Cancelled/Tests.antt =====
-- A round in which CancelledError is raised, and the theorem at it.
use txoutbox.Base.{
  ℕ, ◌+◌, ◌≡◌, refl, String, true, false, Option, none, some, List, [], ◌∷◌, map, ◌==◌,
  if◌then◌else◌, sum, any, length, same_text,
}
use txoutbox.Base.Int.{pos}
use txoutbox.Message.{OutboxMessage}
use txoutbox.Storage.{Storage}
use txoutbox.Relay.Group.{group_by_key, group_step}
use txoutbox.Relay.Round.{RoundResult, RoundConfig, World, returned}
use txoutbox.Relay.Conservation.{counted}
use txoutbox.Relay.Cancelled.{
  by_publisher, by_report, Move, turns, cancels, run_moves, run_once_cancelled,
}
use txoutbox.Relay.Cancelled.Counts.{left_by, is_cancel, run_once-counts}

abbrev message : ℕ → Option String → OutboxMessage
message id key = record {
  id = id;
  topic = "t";
  payload = [];
  key = key;
  headers = [];
  attempts = pos 1;
  created_at = some 10;
}

abbrev batch : List OutboxMessage
batch = message 1 (some "a") ∷ message 2 (some "b") ∷ message 3 (some "a") ∷ message 4 none ∷ []

-- A storage that hands out the batch.
abbrev handing : Storage (List ℕ)
handing = record {
  claim = λ batch_size lease worker s. (some batch, s);
  ack = λ is worker s. (true, is);
  nack = λ id worker error retry_at s. (true, s);
  release = λ is worker retry_at s. (true, s);
  dead_letter = λ id worker error s. (true, s);
}

abbrev config : RoundConfig
config = record { batch_size = 10; lease = 30; concurrency = 3; max_attempts = 5 }

-- Publishing message 2 fails.
abbrev world : World
world = record {
  publish = λ m. if m.id == 2 then some "boom" else none;
  clock = λ m. 20;
  delay = λ z. some 5;
}

-- The publisher raises CancelledError at message 3, after it has accepted message 1, and the nack
-- of message 2 does.
abbrev moves : List Move
moves =
    turns 0
    ∷ turns 1
    ∷ turns 2
    ∷ turns 0
    ∷ cancels by_publisher 0
    ∷ turns 1
    ∷ turns 2
    ∷ cancels by_report 1
    ∷ turns 2
    ∷ []

abbrev result : RoundResult
result = record { claimed = 4; published = 2; retried = 0; dead_lettered = 0; blocked = 0 }

-- The round returns, acknowledges messages 1 and 4, and its counters miss messages 2 and 3.
returns_result :
    let got = run_once_cancelled handing config world "w" false false moves [] in
    (got.0 ≡ returned result) × (got.1 ≡ 1 ∷ 4 ∷ [])
unfolding run_once_cancelled group_by_key group_step same_text
returns_result = (refl, refl)

run_once-counts_example :
    (ms : List OutboxMessage) × (some batch ≡ some ms)
    × (let left = sum (map left_by (run_moves handing config world "w" moves ms []).0) in
        (counted result + left ≡ 4) × (4 ≡ length ms) × (any is_cancel moves ≡ false → left ≡ 0))
run_once-counts_example =
    run_once-counts handing config world "w" false false moves [] result returns_result.0
