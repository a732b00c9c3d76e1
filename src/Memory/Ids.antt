-- ===== src/Memory/Ids.antt =====
-- Changing the records at given ids, where ids rise along the records.
use txoutbox.Base.{ℕ, zero, suc, ◌<◌, ◌≡◌, refl, ap, String, true, List, [], ◌∷◌, arith, elem, take}
use txoutbox.Memory.{Record, Records, lease_record}
use txoutbox.Memory.Eligible.{change_ids, messages_at, Increasing}

pub elem-take : (j n : ℕ) (xs : List ℕ) → elem j (take n xs) ≡ true → elem j xs ≡ true
elem-take j zero xs h = cc
elem-take j (suc n) [] h = cc
elem-take j (suc n) (x ∷ xs) h = ground (arith, elem-take j n xs)

-- An id below the bound of the records marks none of them.
pub change_ids-below :
    (f : Record → Record) (i lo : ℕ) (ids : List ℕ) (rs : Records)
    → i < lo
    → Increasing lo rs
    → change_ids f (i ∷ ids) rs ≡ change_ids f ids rs
unfolding change_ids
change_ids-below f i lo ids [] lt inc = refl
change_ids-below f i lo ids ((j, r) ∷ rs) lt inc =
    ground (arith, change_ids-below f i (suc j) ids rs)

pub messages_at-below :
    (i lo : ℕ) (ids : List ℕ) (rs : Records)
    → i < lo
    → Increasing lo rs
    → messages_at (i ∷ ids) rs ≡ messages_at ids rs
unfolding messages_at
messages_at-below i lo ids [] lt inc = refl
messages_at-below i lo ids ((j, r) ∷ rs) lt inc = ground (arith, messages_at-below i (suc j) ids rs)

pub change_ids-none : (f : Record → Record) (rs : Records) → change_ids f [] rs ≡ rs
unfolding change_ids
change_ids-none f [] = refl
change_ids-none f ((i, r) ∷ rs) = ap (◌∷◌ (i, r)) (change_ids-none f rs)

pub messages_at-none : (rs : Records) → messages_at [] rs ≡ []
unfolding messages_at
messages_at-none [] = refl
messages_at-none ((i, r) ∷ rs) = messages_at-none rs

-- A change that keeps each record's message keeps the ids.
pub change_ids-Increasing :
    (f : Record → Record) (lo : ℕ) (ids : List ℕ) (rs : Records)
    → ((r : Record) → (f r).message ≡ r.message)
    → Increasing lo rs
    → Increasing lo (change_ids f ids rs)
unfolding change_ids
change_ids-Increasing f lo ids [] keep inc = tt
change_ids-Increasing f lo ids ((i, r) ∷ rs) keep inc =
    (inc.0, ground (arith, keep r), change_ids-Increasing f (suc i) ids rs keep inc.2)

pub lease_record-message :
    (worker : String) (until : ℕ) (r : Record) → (lease_record worker until r).message ≡ r.message
unfolding lease_record
lease_record-message worker until r = refl
