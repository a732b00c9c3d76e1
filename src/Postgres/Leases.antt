-- ===== src/Postgres/Leases.antt =====
-- The leases of src/txoutbox/adapters/postgres.py, with either setting of `delete_on_ack` and of
-- `strict_ordering` and with a visibility delay or without.
use txoutbox.Base.{
  ℕ, ◌+◌, ◌≤◌, ◌<◌, ◌≡◌, ◌≢◌, refl, ap, sym, subst, ◌∙◌, String, Bool, true, false, not, ◌&&◌,
  Option, none, some, List, [], ◌∷◌, ◌++◌, arith, ◌==◌, take, filter, any, elem, Bool-cases, inl,
  inr, is_text, is_text_iff, same_text_refl,
}
use txoutbox.Message.{Payload}
use txoutbox.Memory.{Call, adds, claims, acks, nacks, releases, dead_letters}
use txoutbox.Memory.Fencing.{IsForeign, AllForeign}
use txoutbox.Sql.{holds}
use txoutbox.Sqlite.{
  Row, order_by_id, update_where, lease_row, new_row, is_held, set_done, set_retry, set_released,
  set_dead,
}
use txoutbox.Sqlite.Once.{is_reported}
use txoutbox.Postgres.{
  PostgresStorage, is_due, and_visible, claim_ids, claim, insert, ack, nack, release, dead_letter,
  step, run,
}
use txoutbox.Postgres.Ids.{ids_of, ids-order, ids-take}
use txoutbox.Postgres.Transactions.Rows.{insert-cases}
use txoutbox.Postgres.Producers.Stamps.{step-IsStampedFrom}

abbrev lease_ends : Option ℕ → ℕ → Bool
lease_ends none until = false
lease_ends (some t) until = t == until

-- The worker has the row until then.
abbrev pub is_leased : String → ℕ → Row → Bool
is_leased worker until r = is_text r.leased_by worker && lease_ends r.lease_until until

-- A row with the id is not the worker's.
abbrev pub is_lost : ℕ → String → ℕ → List Row → Bool
is_lost i worker until = any (λ r. i == r.id && not (is_leased worker until r))

some_inj : {a b : String} → some a ≡ some b → a ≡ b
some_inj e = ground arith

module _ (i : ℕ) (worker : String) (until : ℕ) where
  -- The rows that a claim takes are its worker's.
  pub is_lost-lease :
      (ids : List ℕ) (rows : List Row)
      → elem i ids ≡ true
      → is_lost i worker until (update_where (λ r. elem r.id ids) (lease_row worker until) rows)
        ≡ false
  unfolding lease_row
  is_lost-lease ids [] e = refl
  is_lost-lease ids (r ∷ rs) e = ground (arith, is_lost-lease ids rs, same_text_refl worker)

  is_lost-update :
      (t : Row → Bool) (g : Row → Row) (rows : List Row)
      → ((r : Row) → (g r).id ≡ r.id)
      → ((r : Row) → i ≡ r.id → is_leased worker until r ≡ true → t r ≡ false)
      → is_lost i worker until rows ≡ false
      → is_lost i worker until (update_where t g rows) ≡ false
  is_lost-update t g [] keeps spares e = refl
  is_lost-update t g (r ∷ rs) keeps spares e =
      ground (arith, is_lost-update t g rs keeps spares, keeps r, spares r)

  is_lost-filter :
      (q : Row → Bool) (rows : List Row)
      → is_lost i worker until rows ≡ false
      → is_lost i worker until (filter q rows) ≡ false
  is_lost-filter q [] e = refl
  is_lost-filter q (r ∷ rs) e = ground (arith, is_lost-filter q rs)

  is_lost-append :
      (rows : List Row) (new : Row)
      → (i == new.id) ≡ false
      → is_lost i worker until rows ≡ false
      → is_lost i worker until (rows ++ new ∷ []) ≡ false
  is_lost-append [] new ne e = ground arith
  is_lost-append (r ∷ rs) new ne e = ground (arith, is_lost-append rs new ne)

  not_selected :
      (c : Row → Bool) (rows : List Row)
      → ((r : Row) → is_leased worker until r ≡ true → c r ≡ false)
      → is_lost i worker until rows ≡ false
      → elem i (ids_of (filter c rows)) ≡ false
  not_selected c [] idle e = refl
  not_selected c (r ∷ rs) idle e = ground (arith, not_selected c rs idle, idle r)

  leased-not_due :
      (strict : Bool) (delay : Option ℕ) (now : ℕ) (rows : List Row) (r : Row)
      → now < until
      → is_leased worker until r ≡ true
      → holds (is_due strict delay now rows r) ≡ false
  unfolding is_due and_visible
  leased-not_due true none now rows r soon e = ground arith
  leased-not_due false none now rows r soon e = ground arith
  leased-not_due true (some delay) now rows r soon e = ground arith
  leased-not_due false (some delay) now rows r soon e = ground arith

  -- A claim before the end of the lease does not take the row.
  pub leased-claim_ids :
      (locked : List ℕ) (batch now : ℕ) (s : PostgresStorage)
      → now < until
      → is_lost i worker until s.rows ≡ false
      → elem i (claim_ids locked batch now s) ≡ false
  unfolding claim_ids
  leased-claim_ids locked batch now s soon e =
      let c = λ (o : Row).
        holds (is_due s.strict_ordering s.visibility_delay now s.rows o)
        && not (elem o.id locked) in
      let due = filter c s.rows in
      let absent : elem i (ids_of due) ≡ false =
        not_selected c s.rows
          (λ r h.
            let idle = leased-not_due s.strict_ordering s.visibility_delay now s.rows r soon h in
            ground arith)
          e in
      elim (Bool-cases (elem i (ids_of (take batch (order_by_id due))))) [
        | inl taken ↦
            let selected = sym (ids-order i due) ∙ ids-take i batch (order_by_id due) taken in
            ground arith
        | inr free ↦ free
      ]

  not_own :
      (other : String) (r : Row)
      → other ≢ worker
      → is_leased worker until r ≡ true
      → is_text r.leased_by other ≡ false
  not_own other r ne e = elim (Bool-cases (is_text r.leased_by other)) [
    | inl own ↦
        let by = (is_text_iff r.leased_by other).0 own in
        let mine = (is_text_iff r.leased_by worker).0 (ground arith) in
        absurd (ne (some_inj (sym by ∙ mine)))
    | inr free ↦ free
  ]

  insert-keeps :
      (topic : String) (payload : Payload) (key : Option String) (headers : List (String × String))
      (now : ℕ) (s : PostgresStorage)
      → i < s.next_id
      → is_lost i worker until s.rows ≡ false
      → is_lost i worker until (insert topic payload key headers now s).1.rows ≡ false
  insert-keeps topic payload key headers now s low e =
      elim (insert-cases topic payload key headers now s) [
        | inl (bad, same) ↦ subst (λ t. is_lost i worker until t.rows ≡ false) same e
        | inr (body, fine, added) ↦
            let new = new_row s.next_id topic body key headers now in
            subst (λ t. is_lost i worker until t.rows ≡ false) added
              (is_lost-append s.rows new (unfold new_row in ground arith) e)
      ]

  -- A call that is not a report of the worker, nor a claim after the lease, spares the row.
  pub step-keeps :
      (now : ℕ) (c : Call) (s : PostgresStorage)
      → IsForeign worker until (now, c)
      → i < s.next_id
      → is_lost i worker until s.rows ≡ false
      → is_lost i worker until (step (now, c) s).rows ≡ false
  unfolding step claim ack nack release dead_letter lease_row set_done set_retry set_released
      set_dead
  step-keeps now (adds topic payload key headers) s f low e =
      insert-keeps topic payload key headers now s low e
  step-keeps now (claims batch lease other) s f low e =
      let free = leased-claim_ids [] batch now s f e in
      is_lost-update (λ r. elem r.id (claim_ids [] batch now s)) (lease_row other (now + lease))
        s.rows (λ r. refl)
        (λ r same h. ap (λ j. elem j (claim_ids [] batch now s)) (sym same) ∙ free) e
  step-keeps now (acks [] other) s f low e = e
  step-keeps now (acks (id ∷ ids) other) s f low e = elim (Bool-cases s.delete_on_ack) [
    | inl del ↦ rw del (is_lost-filter (λ r. not (is_reported (id ∷ ids) other r)) s.rows e)
    | inr keep ↦ rw keep (
        is_lost-update (is_reported (id ∷ ids) other) set_done s.rows (λ r. refl)
          (λ r same h. let theirs = not_own other r f h in ground arith) e)
  ]
  step-keeps now (nacks id other error at) s f low e =
      is_lost-update (is_held id other) (set_retry error at) s.rows (λ r. refl)
        (λ r same h. let theirs = not_own other r f h in ground arith) e
  step-keeps now (releases [] other at) s f low e = e
  step-keeps now (releases (id ∷ ids) other at) s f low e =
      is_lost-update (is_reported (id ∷ ids) other) (set_released at) s.rows (λ r. refl)
        (λ r same h. let theirs = not_own other r f h in ground arith) e
  step-keeps now (dead_letters id other error) s f low e =
      is_lost-update (is_held id other) (set_dead error) s.rows (λ r. refl)
        (λ r same h. let theirs = not_own other r f h in ground arith) e

  step-grows : (now : ℕ) (c : Call) (s : PostgresStorage) → s.next_id ≤ (step (now, c) s).next_id
  step-grows now c s = (step-IsStampedFrom now s c).grows

  pub run-keeps :
      (cs : List (ℕ × Call)) (s : PostgresStorage)
      → AllForeign worker until cs
      → i < s.next_id
      → is_lost i worker until s.rows ≡ false
      → is_lost i worker until (run cs s).rows ≡ false
  unfolding run
  run-keeps [] s f low e = e
  run-keeps ((now, c) ∷ cs) s f low e =
      let grows = step-grows now c s in
      run-keeps cs (step (now, c) s) f.1 (omega (arith, low, grows)) (step-keeps now c s f.0 low e)
