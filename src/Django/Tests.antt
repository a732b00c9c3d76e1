-- ===== src/Django/Tests.antt =====
-- Runs of DjangoStorage, and its theorems at concrete inputs.
use txoutbox.Base.{
  ℕ, ◌≡◌, ◌≢◌, refl, String, true, none, some, List, [], ◌∷◌, map, arith, same_text,
}
use txoutbox.Base.Int.{ℤ, pos}
use txoutbox.Message.{bytes, encode_payload}
use txoutbox.Memory.{Call, adds, claims, acks, nacks, releases, dead_letters}
use txoutbox.Sqlite
use txoutbox.Django.{DjangoStorage, create, claim, ack, nack, release, dead_letter, step, run}
use txoutbox.Django.Claim.{to_sqlite}
use txoutbox.Django.Refines.{django_run-eq}

abbrev table : DjangoStorage
table = record { strict_ordering = true; rows = []; next_id = 1 }

abbrev calls : List (ℕ × Call)
calls =
    (10, adds "t" (bytes (1 ∷ [])) (some "a") [])
    ∷ (11, adds "t" (bytes (2 ∷ [])) (some "a") [])
    ∷ (12, adds "t" (bytes (3 ∷ [])) none [])
    ∷ (20, claims 2 30 "w")
    ∷ (21, nacks 1 "w" "boom" 90)
    ∷ (22, releases (2 ∷ 2 ∷ []) "w" 90)
    ∷ (23, claims 2 30 "v")
    ∷ (24, acks (3 ∷ []) "v")
    ∷ (100, claims 1 30 "v")
    ∷ (101, dead_letters 1 "v" "late")
    ∷ []

django_run-eq_example :
    (to_sqlite (run calls table) ≡ Sqlite.run calls (to_sqlite table))
    × ((batch lease : ℕ) (worker : String) (now : ℕ)
        → (claim [] batch lease worker now (run calls table)).0
          ≡ (Sqlite.claim batch lease worker now (Sqlite.run calls (to_sqlite table))).0)
    × ((ids : List ℕ) (worker : String) (at : ℕ) → release ids worker at (run calls table) ≢ none)
django_run-eq_example = django_run-eq calls table (omega arith)

-- Row 2 was claimed and released, so its next claim is its first.
count_after_release :
    map {B = ℕ × ℤ} (λ m. (m.id, m.attempts)) (claim [] 5 30 "u" 200 (run calls table)).0
    ≡ (2, pos 1) ∷ []
unfolding run claim step create ack nack release dead_letter encode_payload same_text
count_after_release = refl
