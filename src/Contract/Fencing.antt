-- ===== src/Contract/Fencing.antt =====
-- The tests of reports that come too late in src/txoutbox/testing.py.
use txoutbox.Base.{◌-◌, none, [], ◌∷◌, ◌==◌, length}
use txoutbox.Contract.{
  Test, Contract, inserts, claims, acks, nacks, releases, dead_letters, asks_time, lease, future,
  passes, check, single, is_empty, same_ids, ids_of, expire,
}

unfoldable pub test_stale_ack_does_not_touch_a_row_leased_by_another_worker : Contract → Test
test_stale_ack_does_not_touch_a_row_leased_by_another_worker c = inserts "t" (97 ∷ []) none (λ a.
    claims 10 c.short_lease "w1" (λ first. expire c (
      claims 10 lease "w2" (λ second. single second (λ m. acks (a ∷ []) "w1" (
        claims 10 lease "w3" (λ third. check (is_empty third) (
          asks_time (λ now.
            nacks m.id "w2" "x" (now - future)
              (claims 10 lease "w3" (λ got. check (same_ids (ids_of got) (a ∷ [])) passes)))))))))))

unfoldable pub test_stale_nack_does_not_break_another_workers_lease : Contract → Test
test_stale_nack_does_not_break_another_workers_lease c = inserts "t" (97 ∷ []) none (λ a.
    claims 10 c.short_lease "w1" (λ first. expire c (
      claims 10 lease "w2" (λ second. asks_time (λ now. nacks a "w1" "late" (now - future) (
        asks_time (λ later.
          releases (a ∷ []) "w1" (later - future)
            (claims 10 lease "w3" (λ third. check (is_empty third) passes)))))))))

unfoldable pub test_stale_dead_letter_is_ignored : Contract → Test
test_stale_dead_letter_is_ignored c = inserts "t" (97 ∷ []) none (λ a.
    claims 10 c.short_lease "w1" (λ first. expire c (
      claims 10 lease "w2" (λ second. dead_letters a "w1" "late" (
        asks_time (λ now.
          nacks a "w2" "x" (now - future)
            (claims 10 lease "w3" (λ third. check (length third == 1) passes))))))))
