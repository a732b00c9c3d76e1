-- ===== src/Relay/Acks.antt =====
-- The messages that `run_once` of src/txoutbox/relay.py acknowledges.
use mathlib.Core.List.{Perm, perm_append_comm}
use mathlib.Core.List.Perm
use txoutbox.Base.{
  ℕ, zero, suc, ◌+◌, ◌≡◌, refl, ap, sym, subst, ◌∙◌, String, Bool, true, false, none, some, List,
  [], ◌∷◌, ◌++◌, map, arith, length, length-append, concat, append-nil, append_assoc, map-append,
}
use txoutbox.Message.{OutboxMessage}
use txoutbox.Storage.{Storage}
use txoutbox.Relay.Group.{group_by_key}
use txoutbox.Relay.Round.{
  RoundConfig, World, Shared, Task, waiting, publishing, failing, blocking, finished, crashed,
  step_task, step_at, is_finished, all_finished, has_room, run_tasks, start_round,
}

-- The messages of a group that are published before one fails: the group's accepted prefix.
unfoldable pub accepted : World → List OutboxMessage → List OutboxMessage
accepted w [] = []
accepted w (m ∷ ms) =
    let rest = accepted w ms in elim (w.publish m) [ none ↦ m ∷ rest | some e ↦ [] ]

abbrev pub ids : List OutboxMessage → List ℕ
ids = map (λ m. m.id)

-- The ids that a task has yet to acknowledge.
unfoldable pub to_ack : World → Task → List ℕ
unfolding accepted
to_ack w (waiting g) = ids (accepted w g)
to_ack w (publishing g) = ids (accepted w g)
to_ack w _ = []

abbrev pub all_to_ack : World → List Task → List ℕ
all_to_ack w [] = []
all_to_ack w (t ∷ ts) = to_ack w t ++ all_to_ack w ts

shuffle {ℓ} : {A : Type ℓ} (a t p : List A) → Perm (a ++ (t ++ p)) (t ++ (a ++ p))
shuffle a t p =
    subst (λ l. Perm l (t ++ (a ++ p))) (append_assoc a t p)
      (subst (Perm ((a ++ t) ++ p)) (append_assoc t a p)
        (Perm.append_right p (perm_append_comm a t)))

module _ {S : Type 0} (st : Storage S) (cfg : RoundConfig) (w : World) (worker : String) where
  step_task-acks :
      (free : Bool) (t : Task) (s : Shared S)
      → let (t', s') = step_task st cfg w worker free t s in
        (s'.acked ++ to_ack w t' ≡ s.acked ++ to_ack w t)
        × (s'.result.published + length s.acked ≡ s.result.published + length s'.acked)
  unfolding step_task to_ack
  step_task-acks true (waiting g) s = (refl, refl)
  step_task-acks false (waiting g) s = (refl, refl)
  step_task-acks free (publishing []) s = (refl, refl)
  step_task-acks free (publishing (m ∷ rest)) s = ground (
    arith,
    append_assoc s.acked (m.id ∷ []) (ids (accepted w rest)),
    append-nil s.acked,
    length-append s.acked (m.id ∷ []),
  )
  step_task-acks free (failing m e rest) s = ground arith
  step_task-acks free (blocking m at []) s = (refl, refl)
  step_task-acks free (blocking m at (x ∷ rest)) s = (refl, refl)
  step_task-acks free finished s = (refl, refl)
  step_task-acks free (crashed ms) s = (refl, refl)

  step_at-acks :
      (free : Bool) (i : ℕ) (ts : List Task) (s : Shared S)
      → let (ts', s') = step_at st cfg w worker free i ts s in
        Perm (s'.acked ++ all_to_ack w ts') (s.acked ++ all_to_ack w ts)
        × (s'.result.published + length s.acked ≡ s.result.published + length s'.acked)
  unfolding step_at
  step_at-acks free i [] s = (Perm.refl _, refl)
  step_at-acks free zero (t ∷ ts) s =
      let (t', s') = step_task st cfg w worker free t s in
      let (e, n) = step_task-acks free t s in
      (
        subst (λ l. Perm l (s.acked ++ (to_ack w t ++ all_to_ack w ts))) (same t' s' e)
            (Perm.refl _),
        n,
      )
    where
      same :
          (t' : Task) (s' : Shared S)
          → s'.acked ++ to_ack w t' ≡ s.acked ++ to_ack w t
          → s.acked ++ (to_ack w t ++ all_to_ack w ts)
            ≡ s'.acked ++ (to_ack w t' ++ all_to_ack w ts)
      same t' s' e =
          sym (append_assoc s.acked (to_ack w t) (all_to_ack w ts))
          ∙ ap (λ l. l ++ all_to_ack w ts) (sym e)
          ∙ append_assoc s'.acked (to_ack w t') (all_to_ack w ts)
  step_at-acks free (suc i) (t ∷ ts) s =
      let (ts', s') = step_at st cfg w worker free i ts s in
      let (p, n) = step_at-acks free i ts s in
      (
        Perm.trans (shuffle s'.acked (to_ack w t) (all_to_ack w ts')) (
            Perm.trans (Perm.append_left (to_ack w t) p)
              (Perm.symm (shuffle s.acked (to_ack w t) (all_to_ack w ts)))),
        n,
      )

  run_tasks-acks :
      (is : List ℕ) (ts : List Task) (s : Shared S)
      → let (ts', s') = run_tasks st cfg w worker is ts s in
        Perm (s'.acked ++ all_to_ack w ts') (s.acked ++ all_to_ack w ts)
        × (s'.result.published + length s.acked ≡ s.result.published + length s'.acked)
  unfolding run_tasks
  run_tasks-acks [] ts s = (Perm.refl _, refl)
  run_tasks-acks (i ∷ is) ts s =
      let (ts', s') = step_at st cfg w worker (has_room cfg.concurrency ts) i ts s in
      let (p, n) = step_at-acks (has_room cfg.concurrency ts) i ts s in
      let (q, k) = run_tasks-acks is ts' s' in (Perm.trans q p, omega arith)

to_ack-waiting :
    (w : World) (gs : List (List OutboxMessage))
    → all_to_ack w (map waiting gs) ≡ ids (concat (map (accepted w) gs))
unfolding to_ack
to_ack-waiting w [] = refl
to_ack-waiting w (g ∷ gs) =
    ap (◌++◌ (ids (accepted w g))) (to_ack-waiting w gs)
    ∙ sym (map-append (λ m. m.id) (accepted w g) (concat (map (accepted w) gs)))

all_finished-to_ack : (w : World) (ts : List Task) → all_finished ts ≡ true → all_to_ack w ts ≡ []
unfolding to_ack is_finished
all_finished-to_ack w [] h = refl
all_finished-to_ack w (waiting g ∷ ts) h = cc
all_finished-to_ack w (publishing g ∷ ts) h = cc
all_finished-to_ack w (failing m e rest ∷ ts) h = cc
all_finished-to_ack w (blocking m at rest ∷ ts) h = cc
all_finished-to_ack w (finished ∷ ts) h = all_finished-to_ack w ts h
all_finished-to_ack w (crashed ms ∷ ts) h = cc

-- Whatever the schedule and wherever it stops, `acked` and what the tasks have yet to acknowledge
-- are together the accepted prefix of each group, each message once; `published` counts `acked`;
-- and once all tasks have finished, `acked` is exactly those prefixes.
pub run_tasks-acked :
    {S : Type 0} (st : Storage S) (cfg : RoundConfig) (w : World) (worker : String) (is : List ℕ)
    (ms : List OutboxMessage) (store : S)
    → let (ts, s) = start_round st cfg w worker ms store in
      let (ts', s') = run_tasks st cfg w worker is ts s in
      let all = ids (concat (map (accepted w) (group_by_key ms))) in
      Perm (s'.acked ++ all_to_ack w ts') all
      × (s'.result.published ≡ length s'.acked)
      × (all_finished ts' ≡ true → Perm s'.acked all)
unfolding start_round
run_tasks-acked st cfg w worker is ms store =
    let (ts, s) = start_round st cfg w worker ms store in
    let (ts', s') = run_tasks st cfg w worker is ts s in
    let (p, n) = run_tasks-acks st cfg w worker is ts s in
    let all = ids (concat (map (accepted w) (group_by_key ms))) in
    let whole : Perm (s'.acked ++ all_to_ack w ts') all =
      subst (Perm (s'.acked ++ all_to_ack w ts')) (to_ack-waiting w (group_by_key ms)) p in
    (
      whole,
      omega arith,
      λ h.
          subst (λ l. Perm l all)
            (ap (◌++◌ s'.acked) (all_finished-to_ack w ts' h) ∙ append-nil s'.acked) whole,
    )
