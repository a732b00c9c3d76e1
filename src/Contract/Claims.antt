-- ===== src/Contract/Claims.antt =====
-- The tests of `claim` in src/txoutbox/testing.py.
use txoutbox.Base.{
  ℕ, Bool, true, false, ◌&&◌, none, some, List, [], ◌∷◌, ◌++◌, map, ◌==◌, length, any, not, is_text,
  elem, same_text,
}
use txoutbox.Base.Int.{pos}
use txoutbox.Message.{OutboxMessage}
use txoutbox.Contract.{
  Test, Contract, inserts, claims, lease, passes, check, is_empty, same_ids, ids_of, expire,
  p_payload, insert_all,
}

-- `m.attempts == n`
abbrev pub has_attempts : ℕ → OutboxMessage → Bool
has_attempts n m = elim m.attempts [ pos k ↦ k == n | _ ↦ false ]

abbrev pub same_payloads : List (List ℕ) → List (List ℕ) → Bool
same_payloads [] [] = true
same_payloads (p ∷ ps) (q ∷ qs) = same_ids p q && same_payloads ps qs
same_payloads _ _ = false

abbrev pub has_time : OutboxMessage → Bool
has_time m = elim m.created_at [ none ↦ false | some t ↦ true ]

-- all(…)
abbrev pub all : (OutboxMessage → Bool) → List OutboxMessage → Bool
all p ms = not (any (λ m. not (p m)) ms)

-- `len(ids) == n and len(set(ids)) == n`
abbrev pub is_distinct : List ℕ → Bool
is_distinct [] = true
is_distinct (x ∷ xs) = not (elem x xs) && is_distinct xs

unfoldable pub test_empty_claim : Test
test_empty_claim = claims 10 lease "w1" (λ got. check (is_empty got) passes)

unfoldable pub test_claim_returns_in_insertion_order_with_attempt_one : Test
unfolding same_text
test_claim_returns_in_insertion_order_with_attempt_one =
    insert_all (map p_payload (0 ∷ 1 ∷ 2 ∷ [])) (some "k") (λ ids. claims 10 lease "w1" (λ got.
      check (same_ids (ids_of got) ids) (
        check (same_payloads (map (λ m. m.payload) got) (map p_payload (0 ∷ 1 ∷ 2 ∷ []))) (
          check (all (has_attempts 1) got) (
            check (all (λ m. same_text m.topic "t" && is_text m.key "k") got)
              (check (all has_time got) passes))))))

unfoldable pub test_claim_respects_batch_size : Test
test_claim_respects_batch_size = insert_all (map p_payload (0 ∷ 1 ∷ 2 ∷ 3 ∷ 4 ∷ [])) none (λ ids.
    claims 2 lease "w1" (λ a. claims 2 lease "w1" (λ b.
      claims 2 lease "w1"
        (λ c. check (same_ids (length a ∷ length b ∷ length c ∷ []) (2 ∷ 2 ∷ 1 ∷ [])) passes))))

unfoldable pub test_leased_rows_are_invisible_to_other_workers : Test
test_leased_rows_are_invisible_to_other_workers = inserts "t" (112 ∷ []) none (λ id.
    claims 10 lease "w1"
      (λ a. check (length a == 1) (claims 10 lease "w2" (λ b. check (is_empty b) passes))))

unfoldable pub test_expired_lease_is_reclaimable_and_counts_an_attempt : Contract → Test
test_expired_lease_is_reclaimable_and_counts_an_attempt c = inserts "t" (112 ∷ []) none (λ id.
    claims 10 c.short_lease "w1" (λ a.
      expire c
        (claims 10 lease "w2" (λ got. check (length got == 1 && all (has_attempts 2) got) passes))))

-- The four claims of 5 messages.
unfoldable pub test_concurrent_claims_do_not_overlap : Test
test_concurrent_claims_do_not_overlap =
    insert_all
      (map p_payload (
        0 ∷ 1 ∷ 2 ∷ 3 ∷ 4 ∷ 5 ∷ 6 ∷ 7 ∷ 8 ∷ 9 ∷ 10 ∷ 11 ∷ 12 ∷ 13 ∷ 14 ∷ 15 ∷ 16 ∷ 17 ∷ 18 ∷ 19
        ∷ []))
      none
      (λ ids. claims 5 lease "w0" (λ a. claims 5 lease "w1" (λ b. claims 5 lease "w2" (λ c.
        claims 5 lease "w3" (λ d.
          let got = ids_of (a ++ b ++ c ++ d) in
          check (length got == 20 && is_distinct got) passes)))))
