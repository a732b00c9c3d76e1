-- ===== src/Contract/Suite.antt =====
-- `StorageContract` of src/txoutbox/testing.py: all its tests.
use txoutbox.Base.{List, [], ◌∷◌}
use txoutbox.Contract.{Test, Contract}
use txoutbox.Contract.Claims.{
  test_empty_claim, test_claim_returns_in_insertion_order_with_attempt_one,
  test_claim_respects_batch_size, test_leased_rows_are_invisible_to_other_workers,
  test_expired_lease_is_reclaimable_and_counts_an_attempt, test_concurrent_claims_do_not_overlap,
}
use txoutbox.Contract.Reports.{
  test_acked_rows_are_never_claimed_again, test_ack_and_release_empty_are_noops,
  test_nack_schedules_retry, test_nack_in_the_past_is_claimable_now_and_counts,
  test_release_gives_back_without_burning_an_attempt,
  test_release_in_the_past_is_claimable_with_same_attempt, test_dead_letter_is_never_claimed_again,
  test_stats,
}
use txoutbox.Contract.Fencing.{
  test_stale_ack_does_not_touch_a_row_leased_by_another_worker,
  test_stale_nack_does_not_break_another_workers_lease, test_stale_dead_letter_is_ignored,
}
use txoutbox.Contract.Ordering.{
  test_strict_ordering_holds_back_successors_of_a_retrying_message,
  test_strict_ordering_holds_back_successors_of_a_leased_message,
  test_strict_ordering_under_concurrent_claims,
}

unfoldable pub suite : Contract → List Test
unfolding test_empty_claim test_claim_returns_in_insertion_order_with_attempt_one
    test_claim_respects_batch_size test_leased_rows_are_invisible_to_other_workers
    test_expired_lease_is_reclaimable_and_counts_an_attempt test_concurrent_claims_do_not_overlap
    test_acked_rows_are_never_claimed_again test_ack_and_release_empty_are_noops
    test_nack_schedules_retry test_nack_in_the_past_is_claimable_now_and_counts
    test_release_gives_back_without_burning_an_attempt
    test_release_in_the_past_is_claimable_with_same_attempt test_dead_letter_is_never_claimed_again
    test_stale_ack_does_not_touch_a_row_leased_by_another_worker
    test_stale_nack_does_not_break_another_workers_lease test_stale_dead_letter_is_ignored
    test_strict_ordering_holds_back_successors_of_a_retrying_message
    test_strict_ordering_holds_back_successors_of_a_leased_message
    test_strict_ordering_under_concurrent_claims test_stats
suite c =
    test_empty_claim
    ∷ test_claim_returns_in_insertion_order_with_attempt_one
    ∷ test_claim_respects_batch_size
    ∷ test_leased_rows_are_invisible_to_other_workers
    ∷ test_expired_lease_is_reclaimable_and_counts_an_attempt c
    ∷ test_concurrent_claims_do_not_overlap
    ∷ test_acked_rows_are_never_claimed_again c
    ∷ test_ack_and_release_empty_are_noops
    ∷ test_nack_schedules_retry
    ∷ test_nack_in_the_past_is_claimable_now_and_counts
    ∷ test_release_gives_back_without_burning_an_attempt
    ∷ test_release_in_the_past_is_claimable_with_same_attempt
    ∷ test_dead_letter_is_never_claimed_again c
    ∷ test_stale_ack_does_not_touch_a_row_leased_by_another_worker c
    ∷ test_stale_nack_does_not_break_another_workers_lease c
    ∷ test_stale_dead_letter_is_ignored c
    ∷ test_strict_ordering_holds_back_successors_of_a_retrying_message c
    ∷ test_strict_ordering_holds_back_successors_of_a_leased_message c
    ∷ test_strict_ordering_under_concurrent_claims c
    ∷ test_stats
    ∷ []
