-- ===== src/Memory/Effects.antt =====
-- What the reports of src/txoutbox/adapters/memory.py do to every record.
use txoutbox.Base.{
  ℕ, ◌≡◌, refl, String, Bool, ◌&&◌, Option, none, some, List, [], ◌∷◌, arith, ◌==◌, if◌then◌else◌,
  elem, is_text, same_text_refl, Distinct,
}
use txoutbox.Base.Int.{dec}
use txoutbox.Memory.{
  done, dead, Record, MemoryStorage, lookup, owned, change_owned, modify, mark_done, mark_retry,
  mark_released, mark_dead, ack, nack, release, dead_letter,
}
use txoutbox.Memory.Sound.{IsValid, Valid-Increasing}
use txoutbox.Memory.Lookup.{lookup-modify}
use txoutbox.Memory.Owned.{lookup-change_owned}
use txoutbox.Memory.Invariant.{
  mark_done-message, mark_retry-message, mark_released-message, mark_dead-message,
}

-- The record after a report: changed by `f` if it is given and its lease is the worker's.
abbrev pub reported : Bool → String → (Record → Record) → Option Record → Option Record
reported given worker f none = none
reported given worker f (some r) = some (if given && is_text r.leased_by worker then f r else r)

-- In a storage that satisfies the invariant, every report that names each id once is fenced: it
-- changes exactly the records that it names and whose lease its worker has. `ack` marks them done;
-- `nack` records the error and schedules the retry; `release` takes back the attempt, records no
-- error and schedules the retry; `dead_letter` records the error and parks the record; and all of
-- them drop the lease.
pub reports_lem :
    (j id retry_at : ℕ) (ids : List ℕ) (worker error : String) (s : MemoryStorage)
    → IsValid s
    → Distinct ids
    → (lookup j (ack ids worker s).records
        ≡ reported
            (elem j ids)
            worker
            (λ r. record r { status = done; leased_by = none; lease_until = none })
            (lookup j s.records))
      × (lookup j (nack id worker error retry_at s).records
          ≡ reported
              (j == id)
              worker
              (λ r. record r {
                retry_at = some retry_at;
                leased_by = none;
                lease_until = none;
                last_error = some error;
              })
              (lookup j s.records))
      × (lookup j (release ids worker retry_at s).records
          ≡ reported
              (elem j ids)
              worker
              (λ r. record r {
                attempts = dec r.attempts;
                retry_at = some retry_at;
                leased_by = none;
                lease_until = none;
              })
              (lookup j s.records))
      × (lookup j (dead_letter id worker error s).records
          ≡ reported
              (j == id)
              worker
              (λ r. record r {
                status = dead;
                leased_by = none;
                lease_until = none;
                last_error = some error;
              })
              (lookup j s.records))
unfolding ack nack release dead_letter mark_done mark_retry mark_released mark_dead
reports_lem j id retry_at ids worker error s v d =
    let inc = Valid-Increasing 1 s.next_id s.records v in
    (
      ground (arith, lookup-change_owned mark_done 1 j ids worker s mark_done-message d inc),
      ground (
        arith,
        lookup-change_owned (mark_retry error retry_at) 1 j (id ∷ []) worker s
            (mark_retry-message error retry_at) (refl, tt) inc,
      ),
      ground (
        arith,
        lookup-change_owned (mark_released retry_at) 1 j ids worker s
            (mark_released-message retry_at) d inc,
      ),
      ground (
        arith,
        lookup-change_owned (mark_dead error) 1 j (id ∷ []) worker s (mark_dead-message error)
            (refl, tt) inc,
      ),
    )

-- A release that names an id twice takes back two attempts of a record that the worker holds.
pub release_twice :
    (i retry_at : ℕ) (worker : String) (s : MemoryStorage) (r : Record)
    → lookup i s.records ≡ some r
    → r.leased_by ≡ some worker
    → lookup i (release (i ∷ i ∷ []) worker retry_at s).records
      ≡ some (record r {
        attempts = dec (dec r.attempts);
        retry_at = some retry_at;
        leased_by = none;
        lease_until = none;
      })
unfolding release change_owned owned mark_released
release_twice i retry_at worker s r e held_by =
    let once = lookup-modify i i (mark_released retry_at) s.records in
    let twice =
      lookup-modify i i (mark_released retry_at) (modify i (mark_released retry_at) s.records) in
    ground (arith, once, twice, same_text_refl worker)
