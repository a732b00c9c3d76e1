-- ===== src/Postgres/Transactions/Reports.antt =====
-- The calls other than claims of src/txoutbox/adapters/postgres.py, when they end while claims are in
-- flight.
use txoutbox.Base.{
  ℕ, ◌+◌, ◌≡◌, refl, ap, sym, ◌∙◌, String, Bool, true, false, Option, List, [], ◌∷◌, ◌++◌, arith,
  elem, Bool-cases, inl, inr, is_text,
}
use txoutbox.Message.{Payload}
use txoutbox.Memory.{Call, adds, claims, acks, nacks, releases, dead_letters}
use txoutbox.Sqlite.{Row, lease_row, new_row, is_held, set_done, set_retry, set_released, set_dead}
use txoutbox.Sqlite.Once.{is_reported}
use txoutbox.Postgres.{PostgresStorage, insert, ack, nack, release, dead_letter, step}
use txoutbox.Postgres.Transactions.{
  Flight, locked, reported, reporter, waits, is_claiming, is_busy, is_claim,
}
use txoutbox.Postgres.Transactions.Land.{landed, Fresh, landed-update, landed-filter, landed-append}
use txoutbox.Postgres.Transactions.Rows.{insert-cases}

-- The claims in flight are other workers'.
Fresh_lem :
    (t : Row → Bool) (worker : String) (fs : List Flight)
    → ((r : Row) → is_text r.leased_by worker ≡ false → t r ≡ false)
    → is_claiming worker fs ≡ false
    → Fresh t fs
unfolding is_claiming lease_row
Fresh_lem t worker [] own e = tt
Fresh_lem t worker (f ∷ fs) own e = (
  λ r. own (lease_row f.worker f.until r) (ground arith),
  Fresh_lem t worker fs own (ground arith),
)

-- A report that need not wait may as well be made when every claim in flight has ended.
module _ (fs : List Flight) (now : ℕ) (s : PostgresStorage) where
  unfoldable pub after_all : PostgresStorage → PostgresStorage
  after_all t = record t { rows = landed fs t.rows }

  insert-after_all :
      (topic : String) (payload : Payload) (key : Option String) (headers : List (String × String))
      → elem s.next_id (locked fs) ≡ false
      → after_all (insert topic payload key headers now s).1
        ≡ (insert topic payload key headers now (after_all s)).1
  unfolding after_all new_row
  insert-after_all topic payload key headers e =
      elim (insert-cases topic payload key headers now s) [
        | inl (bad, same) ↦ elim (insert-cases topic payload key headers now (after_all s)) [
          | inl (bad', same') ↦ ap after_all (sym same) ∙ same'
          | inr (body, fine, added) ↦ ground arith
        ]
        | inr (body, fine, added) ↦
            elim (insert-cases topic payload key headers now (after_all s)) [
              | inl (bad, same') ↦ ground arith
              | inr (body', fine', added') ↦
                  let new = new_row s.next_id topic body key headers now in
                  ap after_all (sym added)
                  ∙ (λ i. record s {
                    next_id = s.next_id + 1;
                    rows = landed-append fs s.rows new e i;
                  })
                  ∙ ap
                      (λ b. record s {
                        next_id = s.next_id + 1;
                        rows = landed fs s.rows ++ new_row s.next_id topic b key headers now ∷ [];
                      })
                      (ground arith)
                  ∙ added'
            ]
      ]

  pub step-after_all :
      (c : Call)
      → is_claim c ≡ false
      → is_busy c fs ≡ false
      → waits c s.rows fs ≡ false
      → elem s.next_id (locked fs) ≡ false
      → after_all (step (now, c) s) ≡ step (now, c) (after_all s)
  unfolding after_all step is_claim is_busy reporter waits reported ack nack release dead_letter
      set_done set_retry set_released set_dead
  step-after_all (adds topic payload key headers) r e w new =
      insert-after_all topic payload key headers new
  step-after_all (claims batch lease worker) r e w new = cc
  step-after_all (acks [] worker) r e w new = refl
  step-after_all (acks (id ∷ ids) worker) r e w new =
      let t = is_reported (id ∷ ids) worker in
      let fresh = Fresh_lem t worker fs (λ q h. ground arith) e in
      elim (Bool-cases s.delete_on_ack) [
        | inl del ↦
            rw del
              (λ i. record s { delete_on_ack = true; rows = landed-filter t fs s.rows fresh w i })
        | inr keep ↦ rw keep (λ i. record s {
          delete_on_ack = false;
          rows = landed-update t set_done fs s.rows (λ q. refl) fresh w i;
        })
      ]
  step-after_all (nacks id worker error at) r e w new =
      let fresh = Fresh_lem (is_held id worker) worker fs (λ q h. ground arith) e in
      λ i. record s {
        rows =
            landed-update (is_held id worker) (set_retry error at) fs s.rows (λ q. refl) fresh w i;
      }
  step-after_all (releases [] worker at) r e w new = refl
  step-after_all (releases (id ∷ ids) worker at) r e w new =
      let t = is_reported (id ∷ ids) worker in
      let fresh = Fresh_lem t worker fs (λ q h. ground arith) e in
      λ i. record s { rows = landed-update t (set_released at) fs s.rows (λ q. refl) fresh w i }
  step-after_all (dead_letters id worker error) r e w new =
      let fresh = Fresh_lem (is_held id worker) worker fs (λ q h. ground arith) e in
      λ i. record s {
        rows = landed-update (is_held id worker) (set_dead error) fs s.rows (λ q. refl) fresh w i;
      }
