-- ===== src/Float/Whole.antt =====
-- Whole numbers as an instance of `Float`, on which examples run. A power overflows from 20 on.
use txoutbox.Base.{
  ℕ, zero, suc, ◌+◌, ◌*◌, ◌-◌, ◌≤◌, ◌≡◌, true, false, none, some, arith, ltb, if◌then◌else◌,
}
use txoutbox.Base.Int.{ℤ, pos, negsuc, lt_ℤ}
use txoutbox.Float.{Float, Laws, IsUniform}

abbrev pub power : ℕ → ℕ → ℕ
power f zero = 1
power f (suc n) = f * power f n

abbrev pub whole_seconds : ℤ → ℕ
whole_seconds (pos n) = n
whole_seconds (negsuc n) = 0

abbrev pub whole : Float
whole = record {
  F = ℕ;
  lt = ltb;
  mul = ◌*◌;
  add = ◌+◌;
  sub = ◌-◌;
  pow = λ f n. if ltb n 20 then some (power f n) else none;
  zero_f = 0;
  one = 1;
  of_ℕ = λ n. n;
  seconds = whole_seconds;
  timedelta = pos;
}

power-ge-one : (f n : ℕ) → 1 ≤ f → 1 ≤ power f n
power-ge-one f zero h = omega arith
power-ge-one f (suc n) h = grind (arith, power-ge-one f n h)

seconds_pos : (t : ℤ) → lt_ℤ (pos 0) t ≡ true → ltb 0 (whole_seconds t) ≡ true
seconds_pos (pos n) h = h
seconds_pos (negsuc n) h = cc

seconds_mono_whole : (s t : ℤ) → lt_ℤ t s ≡ false → ltb (whole_seconds t) (whole_seconds s) ≡ false
seconds_mono_whole (pos m) (pos n) h = h
seconds_mono_whole (pos m) (negsuc n) h = cc
seconds_mono_whole (negsuc m) (pos n) h = ground arith
seconds_mono_whole (negsuc m) (negsuc n) h = ground arith

times_more : (a b c : ℕ) → b ≤ c → a * b ≤ a * c
times_more a b c h = grind arith

pub whole-Laws : Laws whole
whole-Laws = record {
  irrefl = λ a. ground arith;
  asym = λ a b h. ground arith;
  le_trans = λ a b c g h. ground arith;
  lt_le_trans = λ a b c g h. ground arith;
  grows = λ a f g h. ground (arith, times_more a 1 f (ground arith));
  mul_mono = λ a b c g h. ground (arith, times_more a b c (ground arith));
  spread = λ j h. ground arith;
  pow-ge-one = λ f p n h e. ground (arith, power-ge-one f n);
  seconds_positive = seconds_pos;
  seconds_mono = seconds_mono_whole;
}

-- The least draw.
abbrev pub low_draw : ℕ → ℕ → ℕ
low_draw lo hi = lo

pub low_draw-IsUniform : IsUniform whole low_draw
low_draw-IsUniform lo hi h = (ground arith, h)
