-- ===== src/Postgres/Transactions/Land.antt =====
-- The end of a claim's transaction, compared with the other statements of
-- src/txoutbox/adapters/postgres.py before it and after it.
use txoutbox.Base.{
  ℕ, ◌≡◌, refl, ap, ◌∙◌, String, Bool, true, false, not, ◌&&◌, List, [], ◌∷◌, ◌++◌, arith,
  if◌then◌else◌, filter, any, elem, elem-append,
}
use txoutbox.Sqlite.{Row, update_where, lease_row}
use txoutbox.Postgres.Transactions.{Flight, locked, land}

-- The rows when every claim in flight has ended.
unfoldable pub landed : List Flight → List Row → List Row
unfolding land
landed [] rows = rows
landed (f ∷ fs) rows = landed fs (land f rows)

-- A condition that no row of the list in `ids` meets.
abbrev pub any_in : (Row → Bool) → List ℕ → List Row → Bool
any_in t ids = any (λ r. t r && elem r.id ids)

module _ (t : Row → Bool) (f : Flight)
    (fresh : (r : Row) → t (lease_row f.worker f.until r) ≡ false) where
  land-update :
      (g : Row → Row) (rows : List Row)
      → ((r : Row) → (g r).id ≡ r.id)
      → any_in t f.ids rows ≡ false
      → land f (update_where t g rows) ≡ update_where t g (land f rows)
  unfolding land
  land-update g [] keeps e = refl
  land-update g (r ∷ rs) keeps e = ground (arith, land-update g rs keeps, keeps r, fresh r)

  land-filter :
      (rows : List Row)
      → any_in t f.ids rows ≡ false
      → land f (filter (λ r. not (t r)) rows) ≡ filter (λ r. not (t r)) (land f rows)
  unfolding land
  land-filter [] e = refl
  land-filter (r ∷ rs) e = ground (arith, land-filter rs, fresh r)

  any_in-land :
      (ids : List ℕ) (rows : List Row)
      → any_in t ids rows ≡ false
      → any_in t ids (land f rows) ≡ false
  unfolding land lease_row
  any_in-land ids [] e = refl
  any_in-land ids (r ∷ rs) e = ground (arith, any_in-land ids rs, fresh r)

-- Rows that a statement does not change while the claims in flight have them locked.
abbrev pub waits_for : (Row → Bool) → List Row → List Flight → Bool
waits_for t rows = any (λ f. any_in t f.ids rows)

waits_for-land :
    (t : Row → Bool) (f : Flight) (rows : List Row) (fs : List Flight)
    → ((r : Row) → t (lease_row f.worker f.until r) ≡ false)
    → waits_for t rows fs ≡ false
    → waits_for t (land f rows) fs ≡ false
waits_for-land t f rows [] fresh e = refl
waits_for-land t f rows (g ∷ gs) fresh e =
    ground (arith, waits_for-land t f rows gs fresh, any_in-land t f fresh g.ids rows)

abbrev pub Fresh : (Row → Bool) → List Flight → Type 0
Fresh t [] = Unit {0}
Fresh t (f ∷ fs) = ((r : Row) → t (lease_row f.worker f.until r) ≡ false) × Fresh t fs

pub landed-update :
    (t : Row → Bool) (g : Row → Row) (fs : List Flight) (rows : List Row)
    → ((r : Row) → (g r).id ≡ r.id)
    → Fresh t fs
    → waits_for t rows fs ≡ false
    → landed fs (update_where t g rows) ≡ update_where t g (landed fs rows)
unfolding landed
landed-update t g [] rows keeps fresh e = refl
landed-update t g (f ∷ fs) rows keeps (fresh, rest) e =
    ap (landed fs) (land-update t f fresh g rows keeps (ground arith))
    ∙ landed-update t g fs (land f rows) keeps rest
        (waits_for-land t f rows fs fresh (ground arith))

pub landed-filter :
    (t : Row → Bool) (fs : List Flight) (rows : List Row)
    → Fresh t fs
    → waits_for t rows fs ≡ false
    → landed fs (filter (λ r. not (t r)) rows) ≡ filter (λ r. not (t r)) (landed fs rows)
unfolding landed
landed-filter t [] rows fresh e = refl
landed-filter t (f ∷ fs) rows (fresh, rest) e =
    ap (landed fs) (land-filter t f fresh rows (ground arith))
    ∙ landed-filter t fs (land f rows) rest (waits_for-land t f rows fs fresh (ground arith))

land-append :
    (f : Flight) (rows : List Row) (new : Row)
    → elem new.id f.ids ≡ false
    → land f (rows ++ new ∷ []) ≡ land f rows ++ new ∷ []
unfolding land
land-append f [] new e = ground arith
land-append f (r ∷ rs) new e =
    ap (◌∷◌ (if f.commits && elem r.id f.ids then lease_row f.worker f.until r else r))
      (land-append f rs new e)

-- A new row is in no claim's way.
pub landed-append :
    (fs : List Flight) (rows : List Row) (new : Row)
    → elem new.id (locked fs) ≡ false
    → landed fs (rows ++ new ∷ []) ≡ landed fs rows ++ new ∷ []
unfolding landed locked
landed-append [] rows new e = refl
landed-append (f ∷ fs) rows new e =
    ap (landed fs) (land-append f rows new (ground (arith, elem-append new.id f.ids (locked fs))))
    ∙ landed-append fs (land f rows) new (ground (arith, elem-append new.id f.ids (locked fs)))

-- Claims of different rows may end in either order.
pub land-land :
    (f g : Flight) (rows : List Row)
    → ((j : ℕ) → elem j f.ids ≡ true → elem j g.ids ≡ false)
    → land f (land g rows) ≡ land g (land f rows)
unfolding land lease_row
land-land f g [] apart = refl
land-land f g (r ∷ rs) apart = ground (arith, land-land f g rs apart, apart r.id)

pub landed-last :
    (fs : List Flight) (f : Flight) (rows : List Row)
    → landed (fs ++ f ∷ []) rows ≡ land f (landed fs rows)
unfolding landed
landed-last [] f rows = refl
landed-last (g ∷ gs) f rows = landed-last gs f (land g rows)

-- What a statement that passes over locked rows sees.
filter-land :
    (c : Row → Bool) (f : Flight) (ids : List ℕ) (rows : List Row)
    → ((j : ℕ) → elem j f.ids ≡ true → elem j ids ≡ true)
    → filter (λ r. c r && not (elem r.id ids)) (land f rows)
      ≡ filter (λ r. c r && not (elem r.id ids)) rows
unfolding land lease_row
filter-land c f ids [] sub = refl
filter-land c f ids (r ∷ rs) sub = ground (arith, filter-land c f ids rs sub, sub r.id)

pub filter-landed :
    (c : Row → Bool) (fs : List Flight) (ids : List ℕ) (rows : List Row)
    → ((j : ℕ) → elem j (locked fs) ≡ true → elem j ids ≡ true)
    → filter (λ r. c r && not (elem r.id ids)) (landed fs rows)
      ≡ filter (λ r. c r && not (elem r.id ids)) rows
unfolding landed locked
filter-landed c [] ids rows sub = refl
filter-landed c (f ∷ fs) ids rows sub =
    filter-landed c fs ids (land f rows)
      (λ j e. sub j (ground (arith, elem-append j f.ids (locked fs))))
    ∙ filter-land c f ids rows (λ j e. sub j (ground (arith, elem-append j f.ids (locked fs))))

-- What the claim returns does not depend on the claims of other rows.
returned-land :
    (ids : List ℕ) (worker : String) (until : ℕ) (f : Flight) (rows : List Row)
    → ((j : ℕ) → elem j f.ids ≡ true → elem j ids ≡ false)
    → filter
        (λ r. elem r.id ids)
        (update_where (λ r. elem r.id ids) (lease_row worker until) (land f rows))
      ≡ filter
          (λ r. elem r.id ids)
          (update_where (λ r. elem r.id ids) (lease_row worker until) rows)
unfolding land lease_row
returned-land ids worker until f [] apart = refl
returned-land ids worker until f (r ∷ rs) apart =
    ground (arith, returned-land ids worker until f rs apart, apart r.id)

pub returned-landed :
    (ids : List ℕ) (worker : String) (until : ℕ) (fs : List Flight) (rows : List Row)
    → ((j : ℕ) → elem j (locked fs) ≡ true → elem j ids ≡ false)
    → filter
        (λ r. elem r.id ids)
        (update_where (λ r. elem r.id ids) (lease_row worker until) (landed fs rows))
      ≡ filter
          (λ r. elem r.id ids)
          (update_where (λ r. elem r.id ids) (lease_row worker until) rows)
unfolding landed locked
returned-landed ids worker until [] rows apart = refl
returned-landed ids worker until (f ∷ fs) rows apart =
    returned-landed ids worker until fs (land f rows)
      (λ j e. apart j (ground (arith, elem-append j f.ids (locked fs))))
    ∙ returned-land ids worker until f rows
        (λ j e. apart j (ground (arith, elem-append j f.ids (locked fs))))
