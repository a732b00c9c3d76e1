-- ===== src/Memory/Invariant.antt =====
-- The invariant of `MemoryStorage` in src/txoutbox/adapters/memory.py, and its calls.
use txoutbox.Base.{
  ℕ, suc, ◌+◌, ◌≡◌, refl, sym, subst, String, Bool, true, Option, List, [], ◌∷◌, arith, take,
  Distinct, Option-cases, inl, inr, is_text,
}
use txoutbox.Message.{Payload, encode_payload}
use native.Mathlib.Numerals.{add-one}
use txoutbox.Memory.{
  Record, MemoryStorage, pending, same_status, owned, change_owned, lease_record, mark_done,
  mark_retry, mark_released, mark_dead, init, add, claim, ack, nack, release, dead_letter, Call,
  adds, claims, acks, nacks, releases, dead_letters, step, run,
}
use txoutbox.Memory.Eligible.{eligible}
use txoutbox.Memory.Owned.{KeepsMessage, change_owned-eq, elem-owned}
use txoutbox.Memory.Ids.{elem-take, lease_record-message}
use txoutbox.Memory.Walk.{eligible-lookup}
use txoutbox.Memory.Claim.{claim_lem}
use txoutbox.Memory.Sound.{
  Sound, idle, leased, Valid, IsValid, Valid-Increasing, put-Valid, Valid-suc, modify_all-Valid,
  change_ids-Valid,
}

lease_record-Sound :
    (worker : String) (until : ℕ) (r : Record)
    → same_status r.status pending ≡ true
    → Sound r
    → Sound (lease_record worker until r)
unfolding lease_record
lease_record-Sound worker until r p (idle n b u a) =
    leased worker until n refl refl (ground arith) (ground arith) refl
lease_record-Sound worker until r p (leased w t n b u a st d) =
    leased worker until (suc n) refl refl (ground arith) st refl

pub mark_done-Sound : (r : Record) → Sound r → Sound (mark_done r)
unfolding mark_done
mark_done-Sound r (idle n b u a) = idle n refl refl a
mark_done-Sound r (leased w t n b u a st d) = idle (suc n) refl refl a

pub mark_retry-Sound :
    (error : String) (at : ℕ) (r : Record) → Sound r → Sound (mark_retry error at r)
unfolding mark_retry
mark_retry-Sound error at r (idle n b u a) = idle n refl refl a
mark_retry-Sound error at r (leased w t n b u a st d) = idle (suc n) refl refl a

pub mark_dead-Sound : (error : String) (r : Record) → Sound r → Sound (mark_dead error r)
unfolding mark_dead
mark_dead-Sound error r (idle n b u a) = idle n refl refl a
mark_dead-Sound error r (leased w t n b u a st d) = idle (suc n) refl refl a

-- A release takes back the attempt, so it needs a record that is leased.
pub mark_released-Sound :
    (at : ℕ) (worker : String) (r : Record)
    → is_text r.leased_by worker ≡ true
    → Sound r
    → Sound (mark_released at r)
unfolding mark_released
mark_released-Sound at worker r o (idle n b u a) = absurd (ground arith)
mark_released-Sound at worker r o (leased w t n b u a st d) = idle n refl refl (ground arith)

change_owned-IsValid :
    (f : Record → Record) (ids : List ℕ) (worker : String) (s : MemoryStorage)
    → KeepsMessage f
    → ((r : Record) → Sound r → Sound (f r))
    → IsValid s
    → IsValid (change_owned ids worker f s)
unfolding change_owned
change_owned-IsValid f ids worker s keep sound v =
    modify_all-Valid 1 s.next_id f (owned ids worker s.records) s.records keep sound v

pub mark_done-message : KeepsMessage mark_done
unfolding mark_done
mark_done-message r = refl

pub mark_retry-message : (error : String) (at : ℕ) → KeepsMessage (mark_retry error at)
unfolding mark_retry
mark_retry-message error at r = refl

pub mark_released-message : (at : ℕ) → KeepsMessage (mark_released at)
unfolding mark_released
mark_released-message at r = refl

pub mark_dead-message : (error : String) → KeepsMessage (mark_dead error)
unfolding mark_dead
mark_dead-message error r = refl

release-IsValid :
    (ids : List ℕ) (worker : String) (at : ℕ) (s : MemoryStorage)
    → Distinct ids
    → IsValid s
    → IsValid (release ids worker at s)
unfolding release change_owned
release-IsValid ids worker at s d v =
    let inc = Valid-Increasing 1 s.next_id s.records v in
    let es = change_owned-eq (mark_released at) 1 ids worker s (mark_released-message at) d inc in
    subst (Valid 1 s.next_id) (sym (unfold change_owned in es)) (
      change_ids-Valid 1 s.next_id (mark_released at) (owned ids worker s.records) s.records
        (mark_released-message at)
        (λ i r m e.
          mark_released-Sound at worker r (ground (arith, elem-owned i ids worker s.records)))
        v)

pub claim-IsValid :
    (batch lease : ℕ) (worker : String) (now : ℕ) (s : MemoryStorage)
    → IsValid s
    → IsValid (claim batch lease worker now s).1
claim-IsValid batch lease worker now s v =
    let inc = Valid-Increasing 1 s.next_id s.records v in
    let ids = take batch (eligible s.strict_ordering now [] s.records) in
    rw (claim_lem batch lease worker now 1 s inc) (
      change_ids-Valid 1 s.next_id (lease_record worker (now + lease)) ids s.records
        (lease_record-message worker (now + lease))
        (λ i r m e.
          lease_record-Sound worker (now + lease) r
            (eligible-lookup s.strict_ordering now [] s.records 1 i r inc
              (elem-take i batch (eligible s.strict_ordering now [] s.records) m) e).0)
        v)

pub add-IsValid :
    (topic : String) (payload : Payload) (key : Option String) (headers : List (String × String))
    (now : ℕ) (s : MemoryStorage)
    → IsValid s
    → IsValid (add topic payload key headers now s).1
unfolding add
add-IsValid topic payload key headers now s v = elim (Option-cases (encode_payload payload)) [
  | inl e ↦ rw (e, add) (rw add-one (Valid-suc 1 s.next_id s.records v))
  | inr (b, e) ↦
      rw (e, add) (rw add-one (put-Valid 1 s.next_id _ s.records v refl (idle 0 refl refl refl)))
]

-- A call that releases each id at most once; other calls are free.
abbrev pub IsDistinct : Call → Type 0
IsDistinct (releases ids worker at) = Distinct ids
IsDistinct _ = Unit

-- Every call keeps the invariant, whatever the clock says, if a release names each id once.
pub step-IsValid :
    (c : ℕ × Call) (s : MemoryStorage) → IsDistinct c.1 → IsValid s → IsValid (step c s)
unfolding step ack nack dead_letter
step-IsValid (now, adds topic payload key headers) s d v =
    add-IsValid topic payload key headers now s v
step-IsValid (now, claims batch lease worker) s d v = claim-IsValid batch lease worker now s v
step-IsValid (now, acks ids worker) s d v =
    change_owned-IsValid mark_done ids worker s mark_done-message mark_done-Sound v
step-IsValid (now, nacks id worker error at) s d v =
    change_owned-IsValid (mark_retry error at) (id ∷ []) worker s (mark_retry-message error at)
      (mark_retry-Sound error at) v
step-IsValid (now, releases ids worker at) s d v = release-IsValid ids worker at s d v
step-IsValid (now, dead_letters id worker error) s d v =
    change_owned-IsValid (mark_dead error) (id ∷ []) worker s (mark_dead-message error)
      (mark_dead-Sound error) v

abbrev pub IsDistinctRun : List (ℕ × Call) → Type 0
IsDistinctRun [] = Unit
IsDistinctRun (c ∷ cs) = IsDistinct c.1 × IsDistinctRun cs

pub run-keeps :
    (cs : List (ℕ × Call)) (s : MemoryStorage) → IsDistinctRun cs → IsValid s → IsValid (run cs s)
unfolding run
run-keeps [] s d v = v
run-keeps (c ∷ cs) s d v = run-keeps cs (step c s) d.1 (step-IsValid c s d.0 v)

-- The invariant holds after every history of calls on a fresh storage in which no release names an
-- id twice.
pub run-IsValid :
    (strict : Bool) (cs : List (ℕ × Call)) → IsDistinctRun cs → IsValid (run cs (init strict))
unfolding init
run-IsValid strict cs d = run-keeps cs (init strict) d (omega arith)
