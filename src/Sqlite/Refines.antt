-- ===== src/Sqlite/Refines.antt =====
-- The calls of src/txoutbox/adapters/sqlite.py compared with those of the in-memory storage.
use txoutbox.Base.{
  ℕ, zero, suc, ◌+◌, ◌≡◌, ◌≢◌, refl, ap, sym, ◌∙◌, String, Bool, false, Option, none, List, [], ◌∷◌,
  ◌++◌, map, map-append, arith, filter, elem, take, Distinct, Bool-cases, Option-cases, inl, inr,
}
use txoutbox.Message.{Payload, encode_payload}
use txoutbox.Memory
use txoutbox.Memory.{
  Record, Records, MemoryStorage, lookup, modify, modify_all, is_owned, owned, change_owned,
  lease_record, mark_done, mark_retry, mark_released, mark_dead, put, Call, adds, claims, acks,
  nacks, releases, dead_letters,
}
use txoutbox.Memory.Eligible.{change_ids, messages_at, eligible, Increasing}
use txoutbox.Memory.Ids.{change_ids-none, messages_at-none}
use txoutbox.Memory.Claim.{claim_lem}
use txoutbox.Memory.Owned.{KeepsMessage}
use txoutbox.Memory.Sound.{Valid, IsValid, Valid-le, Valid-Increasing}
use txoutbox.Memory.Invariant.{
  mark_done-message, mark_retry-message, mark_released-message, mark_dead-message,
}
use txoutbox.Sqlite.Reports.{update_many-change_owned}
use txoutbox.Sql.{holds}
use txoutbox.Sqlite.{
  Row, SqliteStorage, update_where, order_by_id, is_due, take_rows, lease_row, set_done, set_retry,
  set_released, set_dead, row_to_message, update_many, new_row, insert, claim, ack, nack, release,
  dead_letter, step,
}
use txoutbox.Sqlite.View.{
  to_record, to_records, view, filter-Increasing, order_by_id_lem, Agrees, update_where-change_ids,
  select-messages_at,
}
use txoutbox.Sqlite.Due.{select_due-eligible}

pub lease_row-Agrees :
    (worker : String) (until : ℕ) → Agrees (lease_row worker until) (lease_record worker until)
unfolding lease_row lease_record
lease_row-Agrees worker until r = (refl, refl)

map-take {ℓ κ} :
    {A : Type ℓ} {B : Type κ} (f : A → B) (n : ℕ) (xs : List A)
    → map f (take n xs) ≡ take n (map f xs)
map-take f zero xs = refl
map-take f (suc n) [] = refl
map-take f (suc n) (x ∷ xs) = ap (◌∷◌ (f x)) (map-take f n xs)

pub update_where-Increasing :
    (p : Row → Bool) (f : Row → Row) (lo : ℕ) (rows : List Row)
    → ((r : Row) → (f r).id ≡ r.id)
    → Increasing lo (to_records rows)
    → Increasing lo (to_records (update_where p f rows))
update_where-Increasing p f lo [] keep inc = tt
update_where-Increasing p f lo (r ∷ rs) keep inc = elim (Bool-cases (p r)) [
  | inl e ↦ rw (e, keep r) (inc.0, refl, update_where-Increasing p f (suc r.id) rs keep inc.2)
  | inr e ↦ rw e (inc.0, refl, update_where-Increasing p f (suc r.id) rs keep inc.2)
]

take_rows_lem :
    (ids : List ℕ) (worker : String) (until lo : ℕ) (s : SqliteStorage)
    → Increasing lo (to_records s.rows)
    → let (ms, s') = take_rows ids worker until s in
      let rs = change_ids (lease_record worker until) ids (to_records s.rows) in
      (ms ≡ messages_at ids rs) × (view s' ≡ record (view s) { records = rs })
unfolding take_rows
take_rows_lem [] worker until lo s inc =
    let e = change_ids-none (lease_record worker until) (to_records s.rows) in
    (
      sym (ap (messages_at []) e ∙ messages_at-none (to_records s.rows)),
      λ i. record (view s) { records = sym e i },
    )
take_rows_lem (id ∷ ids) worker until lo s inc =
    let hit = λ (r : Row). elem r.id (id ∷ ids) in
    let rows = update_where hit (lease_row worker until) s.rows in
    let inc' =
      update_where-Increasing hit (lease_row worker until) lo s.rows
        (λ r. (lease_row-Agrees worker until r).0) inc in
    let e =
      update_where-change_ids (lease_row worker until) (lease_record worker until) (id ∷ ids) s.rows
        (lease_row-Agrees worker until) in
    (
      ap (map row_to_message)
            (order_by_id_lem lo (filter hit rows) (filter-Increasing hit lo rows inc'))
          ∙ select-messages_at (id ∷ ids) rows
          ∙ ap (messages_at (id ∷ ids)) e,
      λ i. record (view s) { records = e i },
    )

claim_ids :
    (batch now lo : ℕ) (s : SqliteStorage)
    → Increasing lo (to_records s.rows)
    → map
        (λ r. r.id)
        (take batch
          (order_by_id (filter (λ o. holds (is_due s.strict_ordering now s.rows o)) s.rows)))
      ≡ take batch (eligible s.strict_ordering now [] (to_records s.rows))
claim_ids batch now lo s inc =
    let due = λ (o : Row). holds (is_due s.strict_ordering now s.rows o) in
    ap (λ l. map (λ r. r.id) (take batch l))
      (order_by_id_lem lo (filter due s.rows) (filter-Increasing due lo s.rows inc))
    ∙ map-take (λ r. r.id) batch (filter due s.rows)
    ∙ ap (take batch) (select_due-eligible s.strict_ordering now lo s.rows inc)

-- A claim on the table is the claim on its view: it returns the same messages.
pub claim-refines :
    (batch lease : ℕ) (worker : String) (now lo : ℕ) (s : SqliteStorage)
    → Increasing lo (to_records s.rows)
    → let (ms, s') = claim batch lease worker now s in
      let (ms', v) = Memory.claim batch lease worker now (view s) in (ms ≡ ms') × (view s' ≡ v)
unfolding claim
claim-refines batch lease worker now lo s inc =
    let ids = take batch (eligible s.strict_ordering now [] (to_records s.rows)) in
    rw (claim_ids batch now lo s inc, claim_lem batch lease worker now lo (view s) inc)
      (take_rows_lem ids worker (now + lease) lo s inc)

pub set_done-Agrees : Agrees set_done mark_done
unfolding set_done mark_done
set_done-Agrees r = (refl, refl)

pub set_retry-Agrees : (error : String) (at : ℕ) → Agrees (set_retry error at) (mark_retry error at)
unfolding set_retry mark_retry
set_retry-Agrees error at r = (refl, refl)

pub set_released-Agrees : (at : ℕ) → Agrees (set_released at) (mark_released at)
unfolding set_released mark_released
set_released-Agrees at r = (refl, refl)

pub set_dead-Agrees : (error : String) → Agrees (set_dead error) (mark_dead error)
unfolding set_dead mark_dead
set_dead-Agrees error r = (refl, refl)

-- A report: the UPDATEs are the loop over the owned records.
report-refines :
    (f : Row → Row) (g : Record → Record) (lo : ℕ) (ids : List ℕ) (worker : String)
    (s : SqliteStorage)
    → Agrees f g
    → KeepsMessage g
    → Distinct ids
    → Increasing lo (to_records s.rows)
    → view (record s { rows = update_many f ids worker s.rows })
      ≡ change_owned ids worker g (view s)
unfolding change_owned
report-refines f g lo ids worker s a keep d inc = λ i. record (view s) {
  records = update_many-change_owned f g lo ids worker s.rows a keep d inc i;
}

put-new :
    (lo next : ℕ) (q : Record) (rs : Records)
    → Valid lo next rs
    → put next q rs ≡ rs ++ (next, q) ∷ []
put-new lo next q [] v = refl
put-new lo next q ((i, r) ∷ rs) v =
    ground (arith, Valid-le (suc i) next rs v.3, put-new (suc i) next q rs v.3)

pub insert-refines :
    (topic : String) (payload : Payload) (key : Option String) (headers : List (String × String))
    (now : ℕ) (s : SqliteStorage)
    → encode_payload payload ≢ none
    → IsValid (view s)
    → view (insert topic payload key headers now s).1
      ≡ (Memory.add topic payload key headers now (view s)).1
unfolding insert Memory.add
insert-refines topic payload key headers now s fine v =
    elim (Option-cases (encode_payload payload)) [
      | inl e ↦ absurd (fine e)
      | inr (b, e) ↦
          let row = new_row s.next_id topic b key headers now in
          rw (e, insert, Memory.add)
            (λ i. record (view s) {
              next_id = s.next_id + 1;
              records =
                  (map-append (λ r. (r.id, to_record r)) s.rows (row ∷ [])
                      ∙ sym (put-new 1 s.next_id (to_record row) (to_records s.rows) v))
                    i;
            })
    ]

-- A call with a payload that can be encoded, and with each id at most once.
abbrev pub IsPlain : Call → Type 0
IsPlain (adds topic payload key headers) = encode_payload payload ≢ none
IsPlain (acks ids worker) = Distinct ids
IsPlain (releases ids worker at) = Distinct ids
IsPlain _ = Unit

-- Each call on the table is the call on its view, if acknowledged rows are kept.
pub step-refines :
    (c : ℕ × Call) (s : SqliteStorage)
    → s.delete_on_ack ≡ false
    → IsPlain c.1
    → IsValid (view s)
    → view (step c s) ≡ Memory.step c (view s)
unfolding step Memory.step ack nack release dead_letter Memory.ack Memory.nack Memory.release
    Memory.dead_letter
step-refines (now, adds topic payload key headers) s keep p v =
    insert-refines topic payload key headers now s p v
step-refines (now, claims batch lease worker) s keep p v =
    (claim-refines batch lease worker now 1 s
      (Valid-Increasing 1 s.next_id (to_records s.rows) v)).1
step-refines (now, acks [] worker) s keep p v =
    report-refines set_done mark_done 1 [] worker s set_done-Agrees mark_done-message tt
      (Valid-Increasing 1 s.next_id (to_records s.rows) v)
step-refines (now, acks (id ∷ ids) worker) s keep p v = rw keep (
    report-refines set_done mark_done 1 (id ∷ ids) worker s set_done-Agrees mark_done-message p
      (Valid-Increasing 1 s.next_id (to_records s.rows) v))
step-refines (now, nacks id worker error at) s keep p v =
    report-refines (set_retry error at) (mark_retry error at) 1 (id ∷ []) worker s
      (set_retry-Agrees error at) (mark_retry-message error at) (refl, tt)
      (Valid-Increasing 1 s.next_id (to_records s.rows) v)
step-refines (now, releases [] worker at) s keep p v =
    report-refines (set_released at) (mark_released at) 1 [] worker s (set_released-Agrees at)
      (mark_released-message at) tt (Valid-Increasing 1 s.next_id (to_records s.rows) v)
step-refines (now, releases (id ∷ ids) worker at) s keep p v =
    report-refines (set_released at) (mark_released at) 1 (id ∷ ids) worker s
      (set_released-Agrees at) (mark_released-message at) p
      (Valid-Increasing 1 s.next_id (to_records s.rows) v)
step-refines (now, dead_letters id worker error) s keep p v =
    report-refines (set_dead error) (mark_dead error) 1 (id ∷ []) worker s (set_dead-Agrees error)
      (mark_dead-message error) (refl, tt) (Valid-Increasing 1 s.next_id (to_records s.rows) v)
