-- ===== src/Contract/Ordering.antt =====
-- The tests of strict ordering in src/txoutbox/testing.py.
use txoutbox.Base.{ℕ, zero, suc, ◌+◌, some, [], ◌∷◌, ◌++◌, map, ◌==◌, if◌then◌else◌}
use txoutbox.Contract.{
  Test, Contract, inserts, claims, acks, nacks, asks_time, lease, future, passes, check, single,
  is_empty, same_ids, ids_of, require_strict, decimal, insert_all,
}
use txoutbox.Contract.Claims.{same_payloads}

unfoldable pub test_strict_ordering_holds_back_successors_of_a_retrying_message : Contract → Test
test_strict_ordering_holds_back_successors_of_a_retrying_message c = require_strict c (
    inserts "t" (49 ∷ []) (some "k") (λ first. inserts "t" (50 ∷ []) (some "k") (λ second.
      inserts "t" (120 ∷ []) (some "other") (λ other. claims 1 lease "w1" (λ a. single a (λ m.
        check (m.id == first) (
          asks_time (λ now. nacks m.id "w1" "boom" (now + future) (
            claims 10 lease "w1" (λ got. check (same_ids (ids_of got) (other ∷ [])) passes))))))))))

unfoldable pub test_strict_ordering_holds_back_successors_of_a_leased_message : Contract → Test
test_strict_ordering_holds_back_successors_of_a_leased_message c = require_strict c (
    inserts "t" (49 ∷ []) (some "k") (λ first. inserts "t" (50 ∷ []) (some "k") (λ second.
      claims 1 lease "w1" (λ a. single a (λ m. claims 10 lease "w2" (λ b. check (is_empty b) (
        acks (m.id ∷ []) "w1" (
          claims 10 lease "w2" (λ got.
            check (same_payloads (map (λ m. m.payload) got) ((50 ∷ []) ∷ [])) passes)))))))))

-- `n` rounds of the loop over `range(3)`.
unfoldable pub race : ℕ → Test
race zero = passes
race (suc n) = claims 1 lease "a" (λ a. claims 1 lease "b" (λ b.
    let claimed = a ++ b in
    let worker = if is_empty a then "b" else "a" in
    single claimed (λ m. acks (m.id ∷ []) worker (race n))))

unfoldable pub test_strict_ordering_under_concurrent_claims : Contract → Test
unfolding race
test_strict_ordering_under_concurrent_claims c =
    require_strict c
      (insert_all (map decimal (0 ∷ 1 ∷ 2 ∷ 3 ∷ 4 ∷ 5 ∷ [])) (some "k") (λ ids. race 3))
