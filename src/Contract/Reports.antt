-- ===== src/Contract/Reports.antt =====
-- The tests of `ack`, `nack`, `release`, `dead_letter` and `stats` in src/txoutbox/testing.py.
use txoutbox.Base.{
  ℕ, ◌+◌, ◌-◌, Bool, true, false, ◌&&◌, Option, none, some, List, [], ◌∷◌, ◌==◌, length, leb,
}
use txoutbox.Base.Int.{ℤ, pos}
use txoutbox.Message.{OutboxMessage}
use txoutbox.Contract.{
  Test, Contract, ends, failed, inserts, claims, acks, nacks, releases, dead_letters, asks_stats,
  asks_time, sleeps, lease, future, passes, check, single, is_empty, ids_of, expire,
}
use txoutbox.Contract.Claims.{has_attempts, all}

unfoldable pub test_acked_rows_are_never_claimed_again : Contract → Test
test_acked_rows_are_never_claimed_again c = inserts "t" (112 ∷ []) none (λ id.
    claims 10 c.short_lease "w1" (λ got.
      acks (ids_of got) "w1"
        (expire c (claims 10 lease "w1" (λ after. check (is_empty after) passes)))))

unfoldable pub test_ack_and_release_empty_are_noops : Test
test_ack_and_release_empty_are_noops = acks [] "w1" (asks_time (λ now. releases [] "w1" now passes))

unfoldable pub test_nack_schedules_retry : Test
test_nack_schedules_retry = inserts "t" (112 ∷ []) none (λ id. claims 10 lease "w1" (λ got.
    single got (λ m. asks_time (λ now.
      nacks m.id "w1" "boom" (now + future)
        (claims 10 lease "w1" (λ after. check (is_empty after) passes))))))

unfoldable pub test_nack_in_the_past_is_claimable_now_and_counts : Test
test_nack_in_the_past_is_claimable_now_and_counts = inserts "t" (112 ∷ []) none (λ id.
    claims 10 lease "w1" (λ got. single got (λ m. asks_time (λ now.
      nacks m.id "w1" "boom" (now - future) (
        claims 10 lease "w2"
          (λ after. check (length after == 1 && all (has_attempts 2) after) passes))))))

unfoldable pub test_release_gives_back_without_burning_an_attempt : Test
test_release_gives_back_without_burning_an_attempt = inserts "t" (97 ∷ []) none (λ a.
    inserts "t" (98 ∷ []) none (λ b. claims 10 lease "w1" (λ got.
      check (length got == 2 && all (has_attempts 1) got) (
        asks_time (λ now.
          releases (a ∷ b ∷ []) "w1" (now + future)
            (claims 10 lease "w2" (λ after. check (is_empty after) passes)))))))

unfoldable pub test_release_in_the_past_is_claimable_with_same_attempt : Test
test_release_in_the_past_is_claimable_with_same_attempt = inserts "t" (97 ∷ []) none (λ a.
    claims 10 lease "w1" (λ got. asks_time (λ now. releases (a ∷ []) "w1" (now - future) (
      claims 10 lease "w2"
        (λ after. check (length after == 1 && all (has_attempts 1) after) passes)))))

unfoldable pub test_dead_letter_is_never_claimed_again : Contract → Test
test_dead_letter_is_never_claimed_again c = inserts "t" (112 ∷ []) none (λ id.
    claims 10 c.short_lease "w1" (λ got. single got (λ m.
      dead_letters m.id "w1" "gave up"
        (expire c (claims 10 lease "w1" (λ after. check (is_empty after) passes))))))

abbrev pub is_none : Option ℤ → Bool
is_none none = true
is_none (some z) = false

abbrev pub is_at_least : ℕ → Option ℤ → Bool
is_at_least n (some (pos k)) = leb n k
is_at_least n _ = false

-- (m, _) = …
abbrev pub first_of_two : List OutboxMessage → (OutboxMessage → Test) → Test
first_of_two (m ∷ n ∷ []) next = next m
first_of_two _ next = ends failed

unfoldable pub test_stats : Test
test_stats = asks_stats (λ empty.
    check (empty.pending == 0 && is_none empty.oldest_pending_age && empty.dead == 0) (
      inserts "t" (97 ∷ []) none (λ a. sleeps 10000 (
        inserts "t" (98 ∷ []) none (λ b. asks_stats (λ s.
          check (s.pending == 2 && is_at_least 10000 s.oldest_pending_age) (
            claims 2 lease "w1" (λ got. first_of_two got (λ m.
              dead_letters m.id "w1" "x"
                (asks_stats (λ s. check (s.pending == 1 && s.dead == 1) passes)))))))))))
