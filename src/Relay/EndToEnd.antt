-- ===== src/Relay/EndToEnd.antt =====
-- `run_once` over the in-memory storage, from the claim to the final acknowledgement.
use mathlib.Core.List.{Perm}
use mathlib.Core.List.Perm
use txoutbox.Base.{
  ℕ, ◌≡◌, refl, ap, sym, ◌∙◌, String, true, Option, none, some, List, [], ◌∷◌, map, arith, elem,
  concat, Distinct, Distinct-Perm, elem-Perm, same_text_refl,
}
use txoutbox.Base.Int.{inc}
use txoutbox.Message.{OutboxMessage}
use txoutbox.Memory.{MemoryStorage, Record, lookup, done, claim, claims, step, lease_record}
use txoutbox.Memory.Sound.{IsValid}
use txoutbox.Memory.Invariant.{step-IsValid}
use txoutbox.Memory.Order.{lookup-claim}
use txoutbox.Memory.Effects.{reported, reports_lem}
use txoutbox.Memory.Port.{memory_storage}
use txoutbox.Relay.Group.{group_by_key}
use txoutbox.Relay.Group.Laws.{group_by_key_lem}
use txoutbox.Relay.Round.{
  RoundResult, RoundConfig, World, Shared, waiting, all_finished, run_tasks, start_round, conclude,
  run_batch, run_once, returned,
}
use txoutbox.Relay.Acks.{ids, run_tasks-acked}
use txoutbox.Relay.Effects.{after_group, after_task, reported_ne}
use txoutbox.Relay.Outcome.{after_tasks, run_tasks-after, after_finished}
use txoutbox.Relay.Delivery.{
  delivered, waiting-Apart, claimed_ids-Distinct, delivered-Distinct, delivered-elem,
  after_tasks-delivered,
}

abbrev pub as_done : Record → Record
as_done r = record r { status = done; leased_by = none; lease_until = none }

-- The record after the groups' reports.
abbrev pub after_groups :
    RoundConfig → World → String → ℕ → List (List OutboxMessage) → Option Record → Option Record
after_groups cfg w worker j [] o = o
after_groups cfg w worker j (g ∷ gs) o =
    after_group cfg w worker j g (after_groups cfg w worker j gs o)

after_tasks-waiting :
    (now : ℕ) (cfg : RoundConfig) (w : World) (worker : String) (j : ℕ)
    (gs : List (List OutboxMessage)) (o : Option Record)
    → after_tasks now cfg w worker j (map waiting gs) o ≡ after_groups cfg w worker j gs o
unfolding after_task
after_tasks-waiting now cfg w worker j [] o = refl
after_tasks-waiting now cfg w worker j (g ∷ gs) o =
    ap (after_group cfg w worker j g) (after_tasks-waiting now cfg w worker j gs o)

module _ (now : ℕ) (cfg : RoundConfig) (w : World) (worker : String) where
  conclude-lookup :
      (s : Shared MemoryStorage) (j : ℕ) (acked : List ℕ)
      → s.acked ≡ acked
      → IsValid s.storage
      → Distinct acked
      → lookup j (conclude (memory_storage now) cfg w worker s).1.storage.records
        ≡ reported (elem j acked) worker as_done (lookup j s.storage.records)
  unfolding conclude
  conclude-lookup s j [] e v d =
      ground (arith, reported_ne worker as_done (lookup j s.storage.records))
  conclude-lookup s j (i ∷ is) e v d =
      ground (arith, reports_lem j 0 0 (i ∷ is) worker "" s.storage v d)

  batch_outcome :
      (is : List ℕ) (ms : List OutboxMessage) (store : MemoryStorage) (r : RoundResult) (j : ℕ)
      → IsValid store
      → Distinct (ids ms)
      → (run_batch (memory_storage now) cfg w worker is ms store).0 ≡ returned r
      → let gs = group_by_key ms in
        lookup j (run_batch (memory_storage now) cfg w worker is ms store).1.records
        ≡ reported
            (elem j (delivered w gs))
            worker
            as_done
            (after_groups cfg w worker j gs (lookup j store.records))
  unfolding run_batch start_round group_by_key
  batch_outcome is [] store r j v d e = sym (reported_ne worker as_done (lookup j store.records))
  batch_outcome is (m ∷ ms) store r j v d e =
      let gs = group_by_key (m ∷ ms) in
      let (ts, s) = start_round (memory_storage now) cfg w worker (m ∷ ms) store in
      let (ts', s') = run_tasks (memory_storage now) cfg w worker is ts s in
      let dgs : Distinct (ids (concat gs)) =
        Distinct-Perm (ids (m ∷ ms)) (ids (concat gs))
          (Perm.map (λ x. x.id) (Perm.symm (group_by_key_lem (m ∷ ms)).0)) d in
      let (v', same) = run_tasks-after now cfg w worker is ts s (waiting-Apart gs dgs) v in
      let (whole, count, exact) =
        run_tasks-acked (memory_storage now) cfg w worker is (m ∷ ms) store in
      let ended : all_finished ts' ≡ true = ground arith in
      let acked_perm : Perm s'.acked (delivered w gs) = exact ended in
      let da : Distinct s'.acked =
        Distinct-Perm (delivered w gs) s'.acked (Perm.symm acked_perm)
          (delivered-Distinct w gs dgs) in
      conclude-lookup s' j s'.acked refl v' da
      ∙ ap (λ b. reported b worker as_done (lookup j s'.storage.records))
          (elem-Perm j s'.acked (delivered w gs) acked_perm)
      ∙ ap (reported (elem j (delivered w gs)) worker as_done) (
          sym (after_finished now cfg w worker j ts' (lookup j s'.storage.records) ended)
          ∙ same j
          ∙ after_tasks-waiting now cfg w worker j gs (lookup j store.records))

  -- What a round over the in-memory storage does to every record, if the storage satisfies the
  -- invariant and `run_once` returns, whatever the schedule: the claim leases; in each key group
  -- the first message that fails is retried or parked, and those behind it are released; and the
  -- messages of the accepted prefixes are done, each with its attempt counted and no lease left.
  pub round_outcome :
      (is : List ℕ) (s : MemoryStorage) (r : RoundResult) (j : ℕ)
      → IsValid s
      → (run_once (memory_storage now) cfg w worker is s).0 ≡ returned r
      → let (ms, s1) = claim cfg.batch_size cfg.lease worker now s in
        let gs = group_by_key ms in
        let s2 = (run_once (memory_storage now) cfg w worker is s).1 in
        (lookup j s2.records
          ≡ reported
              (elem j (delivered w gs))
              worker
              as_done
              (after_groups cfg w worker j gs (lookup j s1.records)))
        × (elem j (delivered w gs) ≡ true
            → (o : Record) × (lookup j s.records ≡ some o)
              × (lookup j s2.records
                  ≡ some (record o {
                    status = done;
                    attempts = inc o.attempts;
                    retry_at = none;
                    leased_by = none;
                    lease_until = none;
                  })))
  unfolding run_once step lease_record
  round_outcome is s r j v e =
      let (ms, s1) = claim cfg.batch_size cfg.lease worker now s in
      let gs = group_by_key ms in
      let d = claimed_ids-Distinct cfg.batch_size cfg.lease worker now s v in
      let v1 = step-IsValid (now, claims cfg.batch_size cfg.lease worker) s tt v in
      let final = batch_outcome is ms s1 r j v1 d e in
      let p = (group_by_key_lem ms).0 in
      let dgs : Distinct (ids (concat gs)) =
        Distinct-Perm (ids ms) (ids (concat gs)) (Perm.map (λ x. x.id) (Perm.symm p)) d in
      (
        final,
        λ sent.
            let claimed : elem j (ids ms) ≡ true =
              sym (elem-Perm j (ids (concat gs)) (ids ms) (Perm.map (λ x. x.id) p))
              ∙ delivered-elem w j gs sent in
            let (o, here, leased) =
              lookup-claim cfg.batch_size cfg.lease worker now j s v claimed in
            let quiet =
              sym (after_tasks-waiting now cfg w worker j gs (lookup j s1.records))
              ∙ after_tasks-delivered cfg w worker j now gs (lookup j s1.records) dgs sent in
            (o, here, final ∙ ground (arith, sent, quiet, leased, same_text_refl worker)),
      )
