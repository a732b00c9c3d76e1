-- ===== src/Memory/Tests.antt =====
-- Runs of the in-memory storage, and the theorems at concrete inputs.
use txoutbox.Base.{
  ℕ, ◌≡◌, refl, String, true, false, Option, none, some, List, [], ◌∷◌, arith, elem, take, ◌≢◌,
  same_text, not_same,
}
use txoutbox.Base.Int.{pos, dec}
use txoutbox.Message.{bytes, encode_payload}
use txoutbox.Memory.{
  pending, done, Record, MemoryStorage, Call, adds, claims, acks, nacks, releases, dead_letters,
  init, add, lookup, claim, claim_from, turn, held, lease_record, with_attempts, owned,
  change_owned, mark_done, mark_retry, ack, nack, release, step, run, dead_letter, dead,
}
use txoutbox.Memory.Eligible.{eligible, change_ids, messages_at}
use txoutbox.Memory.Sound.{IsValid, Valid-Increasing}
use txoutbox.Memory.Invariant.{step-IsValid, run-IsValid, IsDistinctRun}
use txoutbox.Memory.Claim.{claim_lem}
use txoutbox.Memory.Order.{claimed_ids, claim_ordered}
use txoutbox.Memory.Leases.{claims_disjoint}
use txoutbox.Memory.Effects.{reported, reports_lem}
use txoutbox.Memory.Fencing.{AllForeign, lease_protects, settled_forever}

-- Four messages, two with key "a", one with key "b", and one with none.
abbrev inserts : List (ℕ × Call)
inserts =
    (10, adds "t" (bytes (1 ∷ [])) (some "a") [])
    ∷ (11, adds "t" (bytes (2 ∷ [])) (some "b") [])
    ∷ (12, adds "t" (bytes (3 ∷ [])) (some "a") [])
    ∷ (13, adds "t" (bytes []) none [])
    ∷ []

abbrev fresh_record : ℕ → ℕ → List ℕ → Option String → Record
fresh_record id at body key = record {
  message = record {
    id = id;
    topic = "t";
    payload = body;
    key = key;
    headers = [];
    attempts = pos 1;
    created_at = some at;
  };
  status = pending;
  attempts = pos 0;
  retry_at = none;
  leased_by = none;
  lease_until = none;
  last_error = none;
}

abbrev stored : MemoryStorage
stored = record {
  strict_ordering = true;
  records =
      (1, fresh_record 1 10 (1 ∷ []) (some "a"))
      ∷ (2, fresh_record 2 11 (2 ∷ []) (some "b"))
      ∷ (3, fresh_record 3 12 (3 ∷ []) (some "a"))
      ∷ (4, fresh_record 4 13 [] none)
      ∷ [];
  next_id = 5;
}

stored-run : run inserts (init true) ≡ stored
unfolding run step add encode_payload init
stored-run = refl

run-IsValid_example : IsValid (run inserts (init true))
run-IsValid_example = run-IsValid true inserts (tt, (tt, (tt, (tt, tt))))

stored-IsValid : IsValid stored
unfolding run step add encode_payload init
stored-IsValid = run-IsValid true inserts (tt, (tt, (tt, (tt, tt))))

-- The first message fails and is retried later: the next claim skips its key, and only that key.
abbrev failed_first : List (ℕ × Call)
failed_first = (20, claims 1 30 "w") ∷ (21, nacks 1 "w" "boom" 90) ∷ []

skips_key : claimed_ids 10 30 "v" 40 (run failed_first stored) ≡ 2 ∷ 4 ∷ []
unfolding run step claim claim_from turn held lease_record with_attempts nack change_owned owned
    mark_retry same_text
skips_key = refl

claim_lem_example : claim 2 30 "w" 20 stored ≡ (
  messages_at (take 2 (eligible true 20 [] stored.records)) (
      change_ids
        (lease_record "w" 50)
        (take 2 (eligible true 20 [] stored.records))
        stored.records),
  record stored {
    records =
        change_ids
          (lease_record "w" 50)
          (take 2 (eligible true 20 [] stored.records))
          stored.records;
  },
)
claim_lem_example =
    claim_lem 2 30 "w" 20 1 stored (Valid-Increasing 1 5 stored.records stored-IsValid)

claim_ordered_example : elem 1 (claimed_ids 3 30 "w" 20 stored) ≡ true
unfolding claim claim_from turn held lease_record with_attempts
claim_ordered_example =
    claim_ordered 3 30 "w" 20 1 3 stored (fresh_record 1 10 (1 ∷ []) (some "a"))
      (fresh_record 3 12 (3 ∷ []) (some "a")) "a" stored-IsValid refl (omega arith) refl refl refl
      refl refl refl

-- While worker w holds message 1, v claims what it can and tries to acknowledge it.
abbrev others : List (ℕ × Call)
others =
    (25, claims 5 30 "v")
    ∷ (26, acks (1 ∷ 2 ∷ []) "v")
    ∷ (27, nacks 1 "v" "late" 28)
    ∷ (28, releases (1 ∷ []) "v" 29)
    ∷ (28, dead_letters 1 "v" "late")
    ∷ (29, adds "t" (bytes []) none [])
    ∷ []

other_worker : ◌≢◌ {A = String} "v" "w"
unfolding same_text
other_worker = not_same "v" "w" refl

done_ne : done ≢ pending
done_ne e = cc

others_distinct : IsDistinctRun others
others_distinct = (tt, (tt, (tt, ((refl, tt), (tt, (tt, tt))))))

others_foreign : AllForeign "w" 50 others
others_foreign =
    (omega arith, (other_worker, (other_worker, (other_worker, (other_worker, (tt, tt))))))

claims_disjoint_example :
    elem 1 (claimed_ids 9 30 "u" 49 (run others (claim 1 30 "w" 20 stored).1)) ≡ false
unfolding claim claim_from turn held lease_record with_attempts
claims_disjoint_example =
    claims_disjoint 1 30 9 30 "w" "u" 20 49 1 others stored stored-IsValid refl others_distinct
      others_foreign (omega arith)

-- The record that w's claim leaves.
abbrev leased_record : Record
leased_record = record (fresh_record 1 10 (1 ∷ []) (some "a")) {
  attempts = pos 1;
  leased_by = some "w";
  lease_until = some 50;
}

claimed-IsValid : IsValid (claim 1 30 "w" 20 stored).1
unfolding step
claimed-IsValid = step-IsValid (20, claims 1 30 "w") stored tt stored-IsValid

lease_protects_example :
    lookup 1 (run others (claim 1 30 "w" 20 stored).1).records ≡ some leased_record
unfolding claim claim_from turn held lease_record with_attempts
lease_protects_example =
    lease_protects others (claim 1 30 "w" 20 stored).1 1 leased_record "w" 50 claimed-IsValid refl
      refl refl others_distinct others_foreign

-- Once w has acknowledged message 1, nothing changes it, not even another claim or report of w.
abbrev acked : MemoryStorage
acked = run ((20, claims 1 30 "w") ∷ (21, acks (1 ∷ []) "w") ∷ []) stored

acked-IsValid : IsValid acked
unfolding run
acked-IsValid =
    step-IsValid (21, acks (1 ∷ []) "w") (step (20, claims 1 30 "w") stored) tt
      (step-IsValid (20, claims 1 30 "w") stored tt stored-IsValid)

abbrev done_record : Record
done_record = record (fresh_record 1 10 (1 ∷ []) (some "a")) { status = done; attempts = pos 1 }

settled_forever_example :
    lookup 1 (run ((99, claims 9 30 "w") ∷ (99, nacks 1 "w" "late" 0) ∷ []) acked).records
    ≡ some done_record
unfolding run step claim claim_from turn held lease_record with_attempts ack change_owned owned
    mark_done same_text
settled_forever_example =
    settled_forever ((99, claims 9 30 "w") ∷ (99, nacks 1 "w" "late" 0) ∷ []) acked 1 done_record
      acked-IsValid refl done_ne (tt, (tt, tt))

-- Worker w holds message 1 and not message 2.
reports_lem_example :
    (lookup 1 (ack (1 ∷ []) "w" (claim 1 30 "w" 20 stored).1).records
      ≡ reported true "w"
          (λ r. record r { status = done; leased_by = none; lease_until = none })
          (some leased_record))
    × (lookup 1 (nack 2 "w" "boom" 60 (claim 1 30 "w" 20 stored).1).records
        ≡ reported false "w"
            (λ r. record r {
              retry_at = some 60;
              leased_by = none;
              lease_until = none;
              last_error = some "boom";
            })
            (some leased_record))
    × (lookup 1 (release (1 ∷ []) "w" 60 (claim 1 30 "w" 20 stored).1).records
        ≡ reported true "w"
            (λ r. record r {
              attempts = dec r.attempts;
              retry_at = some 60;
              leased_by = none;
              lease_until = none;
            })
            (some leased_record))
    × (lookup 1 (dead_letter 2 "w" "boom" (claim 1 30 "w" 20 stored).1).records
        ≡ reported false "w"
            (λ r. record r {
              status = dead;
              leased_by = none;
              lease_until = none;
              last_error = some "boom";
            })
            (some leased_record))
unfolding claim claim_from turn held lease_record with_attempts
reports_lem_example =
    reports_lem 1 2 60 (1 ∷ []) "w" "boom" (claim 1 30 "w" 20 stored).1 claimed-IsValid (refl, tt)
