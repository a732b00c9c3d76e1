-- ===== src/Memory/Fencing.antt =====
-- Leased and settled records under the calls of src/txoutbox/adapters/memory.py.
use txoutbox.Base.{
  ℕ, ◌+◌, ◌<◌, ◌≡◌, ◌≢◌, sym, ◌∙◌, String, false, not, ◌&&◌, Option, some, List, [], ◌∷◌, arith,
  take, Bool-cases, Option-cases, inl, inr, same_text_iff,
}
use txoutbox.Message.{Payload, encode_payload}
use txoutbox.Memory.{
  Record, Records, MemoryStorage, pending, same_status, lookup, is_owned, held, lease_record,
  mark_done, mark_retry, mark_released, mark_dead, add, claim, ack, nack, release, dead_letter,
  Call, adds, claims, acks, nacks, releases, dead_letters, step, run,
}
use txoutbox.Memory.Eligible.{eligible}
use txoutbox.Memory.Lookup.{lookup-put_ne, lookup-change_ids}
use txoutbox.Memory.Owned.{lookup-change_owned_ne}
use txoutbox.Memory.Ids.{elem-take}
use txoutbox.Memory.Walk.{eligible-lookup}
use txoutbox.Memory.Claim.{claim_lem}
use txoutbox.Memory.Sound.{
  Sound, idle, leased, IsValid, Valid-Increasing, lookup-Sound, lookup-below,
}
use txoutbox.Memory.Invariant.{IsDistinctRun, step-IsValid}

-- A new record takes a fresh id, so it replaces none.
lookup-add :
    (topic : String) (payload : Payload) (key : Option String) (headers : List (String × String))
    (now j : ℕ) (s : MemoryStorage) (r : Record)
    → IsValid s
    → lookup j s.records ≡ some r
    → lookup j (add topic payload key headers now s).1.records ≡ some r
unfolding add
lookup-add topic payload key headers now j s r v e = elim (Option-cases (encode_payload payload)) [
  | inl bad ↦ rw (bad, add) e
  | inr (b, fine) ↦
      rw (fine, add)
        (lookup-put_ne s.next_id j _ s.records (lookup-below 1 s.next_id j s.records r v e) ∙ e)
]

-- What a claim leaves: a record that is held back or settled is not touched.
lookup-claim_ne :
    (batch lease : ℕ) (worker : String) (now j : ℕ) (s : MemoryStorage) (r : Record)
    → IsValid s
    → lookup j s.records ≡ some r
    → (same_status r.status pending && not (held now r)) ≡ false
    → lookup j (claim batch lease worker now s).1.records ≡ some r
lookup-claim_ne batch lease worker now j s r v e h =
    let inc = Valid-Increasing 1 s.next_id s.records v in
    let all = eligible s.strict_ordering now [] s.records in
    rw (claim_lem batch lease worker now 1 s inc) (
      ground (
        arith,
        lookup-change_ids j (lease_record worker (now + lease)) (take batch all) s.records,
        elem-take j batch all,
        eligible-lookup s.strict_ordering now [] s.records 1 j r inc,
      ))

-- A call that is not made by `worker` with its lease, while the lease runs: any claim before
-- `until`, and the reports of other workers.
abbrev pub IsForeign : String → ℕ → ℕ × Call → Type 0
IsForeign worker until (now, adds topic payload key headers) = Unit
IsForeign worker until (now, claims batch lease other) = now < until
IsForeign worker until (now, acks ids other) = other ≢ worker
IsForeign worker until (now, nacks id other error at) = other ≢ worker
IsForeign worker until (now, releases ids other at) = other ≢ worker
IsForeign worker until (now, dead_letters id other error) = other ≢ worker

not_owned :
    (rs : Records) (j : ℕ) (r : Record) (worker other : String)
    → lookup j rs ≡ some r
    → r.leased_by ≡ some worker
    → other ≢ worker
    → is_owned other rs j ≡ false
not_owned rs j r worker other e b ne = elim (Bool-cases (is_owned other rs j)) [
  | inl o ↦ absurd (ne (sym ((same_text_iff worker other).0 (ground arith))))
  | inr o ↦ o
]

step_foreign :
    (c : ℕ × Call) (s : MemoryStorage) (j : ℕ) (r : Record) (worker : String) (until : ℕ)
    → IsValid s
    → lookup j s.records ≡ some r
    → r.leased_by ≡ some worker
    → r.lease_until ≡ some until
    → IsForeign worker until c
    → lookup j (step c s).records ≡ some r
unfolding step ack nack release dead_letter
step_foreign (now, adds topic payload key headers) s j r w u v e b l f =
    lookup-add topic payload key headers now j s r v e
step_foreign (now, claims batch lease other) s j r w u v e b l f =
    lookup-claim_ne batch lease other now j s r v e (unfold held in ground arith)
step_foreign (now, acks ids other) s j r w u v e b l f =
    lookup-change_owned_ne mark_done j ids other s (not_owned s.records j r w other e b f) ∙ e
step_foreign (now, nacks id other error at) s j r w u v e b l f =
    lookup-change_owned_ne (mark_retry error at) j (id ∷ []) other s
      (not_owned s.records j r w other e b f)
    ∙ e
step_foreign (now, releases ids other at) s j r w u v e b l f =
    lookup-change_owned_ne (mark_released at) j ids other s (not_owned s.records j r w other e b f)
    ∙ e
step_foreign (now, dead_letters id other error) s j r w u v e b l f =
    lookup-change_owned_ne (mark_dead error) j (id ∷ []) other s
      (not_owned s.records j r w other e b f)
    ∙ e

abbrev pub AllForeign : String → ℕ → List (ℕ × Call) → Type 0
AllForeign worker until [] = Unit
AllForeign worker until (c ∷ cs) = IsForeign worker until c × AllForeign worker until cs

-- In a storage that satisfies the invariant, while a worker's lease on a record runs, no history of
-- inserts, of claims by anybody, and of reports by other workers changes anything in the record, if
-- no release names an id twice.
pub lease_protects :
    (cs : List (ℕ × Call)) (s : MemoryStorage) (j : ℕ) (r : Record) (worker : String) (until : ℕ)
    → IsValid s
    → lookup j s.records ≡ some r
    → r.leased_by ≡ some worker
    → r.lease_until ≡ some until
    → IsDistinctRun cs
    → AllForeign worker until cs
    → lookup j (run cs s).records ≡ some r
unfolding run
lease_protects [] s j r w u v e b l d f = e
lease_protects (c ∷ cs) s j r w u v e b l d f =
    lease_protects cs (step c s) j r w u (step-IsValid c s d.0 v)
      (step_foreign c s j r w u v e b l f.0) b l d.1 f.1

-- A record that is done or dead is not owned by anybody.
settled_not_owned :
    (s : MemoryStorage) (j : ℕ) (r : Record) (other : String)
    → IsValid s
    → lookup j s.records ≡ some r
    → r.status ≢ pending
    → is_owned other s.records j ≡ false
settled_not_owned s j r other v e h = go (lookup-Sound 1 s.next_id j s.records r v e)
  where
    go : Sound r → is_owned other s.records j ≡ false
    go (idle n b u a) = ground arith
    go (leased w u n b t a st d) = absurd (h st)

step_settled :
    (c : ℕ × Call) (s : MemoryStorage) (j : ℕ) (r : Record)
    → IsValid s
    → lookup j s.records ≡ some r
    → r.status ≢ pending
    → lookup j (step c s).records ≡ some r
unfolding step ack nack release dead_letter
step_settled (now, adds topic payload key headers) s j r v e h =
    lookup-add topic payload key headers now j s r v e
step_settled (now, claims batch lease other) s j r v e h =
    lookup-claim_ne batch lease other now j s r v e (ground arith)
step_settled (now, acks ids other) s j r v e h =
    lookup-change_owned_ne mark_done j ids other s (settled_not_owned s j r other v e h) ∙ e
step_settled (now, nacks id other error at) s j r v e h =
    lookup-change_owned_ne (mark_retry error at) j (id ∷ []) other s
      (settled_not_owned s j r other v e h)
    ∙ e
step_settled (now, releases ids other at) s j r v e h =
    lookup-change_owned_ne (mark_released at) j ids other s (settled_not_owned s j r other v e h)
    ∙ e
step_settled (now, dead_letters id other error) s j r v e h =
    lookup-change_owned_ne (mark_dead error) j (id ∷ []) other s
      (settled_not_owned s j r other v e h)
    ∙ e

-- In a storage that satisfies the invariant, a record that is done or dead stays as it is through
-- every history in which no release names an id twice, whoever calls and whenever.
pub settled_forever :
    (cs : List (ℕ × Call)) (s : MemoryStorage) (j : ℕ) (r : Record)
    → IsValid s
    → lookup j s.records ≡ some r
    → r.status ≢ pending
    → IsDistinctRun cs
    → lookup j (run cs s).records ≡ some r
unfolding run
settled_forever [] s j r v e h d = e
settled_forever (c ∷ cs) s j r v e h d =
    settled_forever cs (step c s) j r (step-IsValid c s d.0 v) (step_settled c s j r v e h) h d.1
