-- ===== src/Memory/Leases.antt =====
-- `claim` and `release` of src/txoutbox/adapters/memory.py while a lease runs.
use txoutbox.Base.{ℕ, ◌+◌, ◌<◌, ◌≡◌, refl, String, true, false, some, List, [], arith, elem}
use txoutbox.Memory.{
  Record, MemoryStorage, lookup, held, lease_record, claim, Call, claims, step, run,
}
use txoutbox.Memory.Eligible.{eligible}
use txoutbox.Memory.Ids.{elem-take}
use txoutbox.Memory.Walk.{eligible-lookup}
use txoutbox.Memory.Claim.{claim-ids}
use txoutbox.Memory.Sound.{IsValid, Valid-Increasing}
use txoutbox.Memory.Invariant.{IsDistinctRun, step-IsValid, run-keeps}
use txoutbox.Memory.Fencing.{AllForeign, lease_protects}
use txoutbox.Memory.Order.{claimed_ids, lookup-claim}

-- A record whose lease runs is not claimed.
claim_leased :
    (batch_size lease : ℕ) (worker : String) (now i until : ℕ) (s : MemoryStorage) (r : Record)
    → IsValid s
    → lookup i s.records ≡ some r
    → r.lease_until ≡ some until
    → now < until
    → elem i (claimed_ids batch_size lease worker now s) ≡ false
unfolding held
claim_leased batch_size lease worker now i until s r v e l lt =
    let inc = Valid-Increasing 1 s.next_id s.records v in
    let all = eligible s.strict_ordering now [] s.records in
    rw (claim-ids batch_size lease worker now 1 s inc) (
      ground (
        arith,
        elem-take i batch_size all,
        eligible-lookup s.strict_ordering now [] s.records 1 i r inc,
      ))

-- A message that a worker claims is in no other claim, by any worker, before the lease ends,
-- whatever inserts, claims before that time and reports of other workers come in between, if the
-- storage satisfies the invariant and no release names an id twice.
pub claims_disjoint :
    (batch_size lease batch_size' lease' : ℕ) (worker worker' : String) (now now' i : ℕ)
    (cs : List (ℕ × Call)) (s : MemoryStorage)
    → IsValid s
    → elem i (claimed_ids batch_size lease worker now s) ≡ true
    → IsDistinctRun cs
    → AllForeign worker (now + lease) cs
    → now' < now + lease
    → elem i (
        claimed_ids batch_size' lease' worker' now'
          (run cs (claim batch_size lease worker now s).1))
      ≡ false
unfolding lease_record step
claims_disjoint batch_size lease batch_size' lease' worker worker' now now' i cs s v m d f soon =
    let (r, e, e') = lookup-claim batch_size lease worker now i s v m in
    let s' = (claim batch_size lease worker now s).1 in
    let v' = step-IsValid (now, claims batch_size lease worker) s tt v in
    let r' = lease_record worker (now + lease) r in
    claim_leased batch_size' lease' worker' now' i (now + lease) (run cs s') r'
      (run-keeps cs s' d v') (lease_protects cs s' i r' worker (now + lease) v' e' refl refl d f)
      refl soon
