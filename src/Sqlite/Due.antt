-- ===== src/Sqlite/Due.antt =====
-- The claim's SELECT of src/txoutbox/adapters/sqlite.py, whose NOT EXISTS subquery is over the whole
-- table, and the walk over the earlier records.
use txoutbox.Base.{
  ℕ, suc, ◌≤◌, ◌<◌, ◌≡◌, refl, ap, sym, fun_ext, ◌∙◌, String, Bool, false, ◌&&◌, ◌||◌, some, List,
  [], ◌∷◌, ◌++◌, map, append_assoc, arith, ltb, filter, any, All, Option-cases, inl, inr,
}
use txoutbox.Memory.{Record, held}
use txoutbox.Memory.Eligible.{holds_back, claimable, eligible, Increasing}
use txoutbox.Sql.{holds, le}
use txoutbox.Sqlite.{Row, blocks, not_blocked, is_due}
use txoutbox.Sqlite.View.{to_record, to_records}

any-append {ℓ} :
    {A : Type ℓ} (p : A → Bool) (xs ys : List A) → any p (xs ++ ys) ≡ (any p xs || any p ys)
any-append p [] ys = refl
any-append p (x ∷ xs) ys = ground (arith, any-append p xs ys)

-- One row blocks another exactly if it stands before it and its record holds back the key.
blocks-holds_back :
    (now : ℕ) (o p : Row) (k : String)
    → o.key ≡ some k
    → holds (blocks now o p) ≡ (ltb p.id o.id && holds_back now k (to_record p))
unfolding blocks holds_back held
blocks-holds_back now o p k e = ground arith

-- The rows before `o` that hold back a key, among rows with smaller ids and among the others.
before : ℕ → ℕ → String → Row → Bool
before now i k p = ltb p.id i && holds_back now k (to_record p)

any-before_below :
    (now i lo : ℕ) (k : String) (xs : List Row)
    → lo ≤ i
    → All (λ p. p.id < lo) xs
    → any (before now i k) xs ≡ any (λ p. holds_back now k (to_record p)) xs
unfolding before
any-before_below now i lo k [] le b = refl
any-before_below now i lo k (x ∷ xs) le b = ground (arith, any-before_below now i lo k xs)

any-before_above :
    (now i lo : ℕ) (k : String) (rs : List Row)
    → i ≤ lo
    → Increasing lo (to_records rs)
    → any (before now i k) rs ≡ false
unfolding before
any-before_above now i lo k [] le inc = refl
any-before_above now i lo k (r ∷ rs) le inc = ground (arith, any-before_above now i (suc r.id) k rs)

is_due-claimable :
    (strict : Bool) (now : ℕ) (rows : List Row) (earlier : List Record) (o : Row)
    → ((k : String) → any (before now o.id k) rows ≡ any (holds_back now k) earlier)
    → holds (is_due strict now rows o) ≡ claimable strict now earlier (to_record o)
unfolding is_due not_blocked claimable held
is_due-claimable strict now rows earlier o h = elim (Option-cases o.key) [
  | inl e ↦ ground arith
  | inr (k, e) ↦ ground (arith, seen k e, h k)
]
  where
    seen :
        (k : String)
        → o.key ≡ some k
        → any (λ p. holds (blocks now o p)) rows ≡ any (before now o.id k) rows
    seen k e = ap (λ (q : Row → Bool). any q rows) (fun_ext (λ p. same p k e))
      where
        same :
            (p : Row) (k : String) → o.key ≡ some k → holds (blocks now o p) ≡ before now o.id k p
        same p k e = unfold before in blocks-holds_back now o p k e

All-append_one {ℓ κ} :
    {A : Type ℓ} (P : A → Type κ) (xs : List A) (x : A) → All P xs → P x → All P (xs ++ x ∷ [])
All-append_one P [] x h p = (p, tt)
All-append_one P (y ∷ xs) x h p = (h.0, All-append_one P xs x h.1 p)

All-below_suc :
    (lo i : ℕ) (xs : List Row) → lo ≤ i → All (λ p. p.id < lo) xs → All (λ p. p.id < suc i) xs
All-below_suc lo i [] le b = tt
All-below_suc lo i (x ∷ xs) le b = (omega arith, All-below_suc lo i xs le b.1)

-- `xs` are the rows already passed, `earlier` their records.
select_due :
    (strict : Bool) (now lo : ℕ) (rows xs rs : List Row) (earlier : List Record)
    → rows ≡ xs ++ rs
    → All (λ p. p.id < lo) xs
    → Increasing lo (to_records rs)
    → ((k : String) → any (λ p. holds_back now k (to_record p)) xs ≡ any (holds_back now k) earlier)
    → map (λ r. r.id) (filter (λ o. holds (is_due strict now rows o)) rs)
      ≡ eligible strict now earlier (to_records rs)
unfolding eligible
select_due strict now lo rows xs [] earlier e b inc h = refl
select_due strict now lo rows xs (o ∷ rs) earlier e b inc h =
    let one = is_due-claimable strict now rows earlier o (λ k.
      ap (any (before now o.id k)) e
      ∙ any-append (before now o.id k) xs (o ∷ rs)
      ∙ ground (
        arith,
        any-before_below now o.id lo k xs inc.0 b,
        any-before_above now o.id o.id k (o ∷ rs) (omega arith) (omega arith, refl, inc.2),
        h k,
      )) in
    let rest =
      select_due strict now (suc o.id) rows (xs ++ o ∷ []) rs (to_record o ∷ earlier)
        (e ∙ sym (append_assoc xs (o ∷ []) rs))
        (All-append_one (λ p. p.id < suc o.id) xs o (All-below_suc lo o.id xs inc.0 b)
          (omega arith))
        inc.2
        (λ k. any-append (λ p. holds_back now k (to_record p)) xs (o ∷ []) ∙ ground (arith, h k)) in
    ground (arith, one, rest)

-- The ids of the rows that the SELECT finds, before LIMIT.
pub select_due-eligible :
    (strict : Bool) (now lo : ℕ) (rows : List Row)
    → Increasing lo (to_records rows)
    → map (λ r. r.id) (filter (λ o. holds (is_due strict now rows o)) rows)
      ≡ eligible strict now [] (to_records rows)
select_due-eligible strict now lo rows inc =
    select_due strict now lo rows [] rows [] refl tt inc (λ k. refl)
