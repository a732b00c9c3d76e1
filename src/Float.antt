-- ===== src/Float.antt =====
-- Python's floats as the sources use them: a parameter, with the laws that IEEE doubles have on the
-- values that the program computes with, none of which is NaN. `a <= b` is `not (b < a)`.
pub mod Whole
use txoutbox.Base.{ℕ, ◌≡◌, Bool, true, false, Option, some, if◌then◌else◌}
use txoutbox.Base.Int.{ℤ, pos, lt_ℤ}

pub record Float : Type 1 where
  pub F : Type 0
  pub lt : F → F → Bool
  pub mul : F → F → F
  pub add : F → F → F
  pub sub : F → F → F
  -- `x ** n`, with `none` for OverflowError.
  pub pow : F → ℕ → Option F
  pub zero_f : F
  pub one : F
  pub of_ℕ : ℕ → F
  -- `total_seconds()` and `timedelta(seconds=…)`; a timedelta is its microseconds.
  pub seconds : ℤ → F
  pub timedelta : F → ℤ

-- `min(a, b)`
abbrev pub min_of : (fl : Float) → fl.F → fl.F → fl.F
min_of fl a b = if fl.lt b a then b else a

-- Order, and products with a factor of at least 1 or with a positive number.
pub record Laws (fl : Float) : Type 0 where
  pub irrefl : (a : fl.F) → fl.lt a a ≡ false
  pub asym : (a b : fl.F) → fl.lt a b ≡ true → fl.lt b a ≡ false
  pub le_trans : (a b c : fl.F) → fl.lt b a ≡ false → fl.lt c b ≡ false → fl.lt c a ≡ false
  pub lt_le_trans : (a b c : fl.F) → fl.lt a b ≡ true → fl.lt c b ≡ false → fl.lt a c ≡ true
  pub grows :
      (a f : fl.F)
      → fl.lt fl.zero_f a ≡ true
      → fl.lt f fl.one ≡ false
      → fl.lt (fl.mul a f) a ≡ false
  pub mul_mono :
      (a b c : fl.F)
      → fl.lt a fl.zero_f ≡ false
      → fl.lt c b ≡ false
      → fl.lt (fl.mul a c) (fl.mul a b) ≡ false
  pub spread :
      (j : fl.F) → fl.lt j fl.zero_f ≡ false → fl.lt (fl.add fl.one j) (fl.sub fl.one j) ≡ false
  pub pow-ge-one :
      (f p : fl.F) (n : ℕ) → fl.lt f fl.one ≡ false → fl.pow f n ≡ some p → fl.lt p fl.one ≡ false
  pub seconds_positive : (t : ℤ) → lt_ℤ (pos 0) t ≡ true → fl.lt fl.zero_f (fl.seconds t) ≡ true
  pub seconds_mono : (s t : ℤ) → lt_ℤ t s ≡ false → fl.lt (fl.seconds t) (fl.seconds s) ≡ false

-- `random.uniform` stays between its arguments.
abbrev pub IsUniform : (fl : Float) → (fl.F → fl.F → fl.F) → Type 0
IsUniform fl draw =
    (lo hi : fl.F)
    → fl.lt hi lo ≡ false
    → (fl.lt (draw lo hi) lo ≡ false) × (fl.lt hi (draw lo hi) ≡ false)
