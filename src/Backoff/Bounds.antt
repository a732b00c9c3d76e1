-- ===== src/Backoff/Bounds.antt =====
-- The bounds of the delay of `Backoff` in src/txoutbox/backoff.py.
use txoutbox.Base.{ℕ, ◌≡◌, true, false, none, arith, Option-cases, inl, inr}
use txoutbox.Base.Int.{pos, lt_ℤ}
use txoutbox.Float.{Float, Laws, IsUniform}
use txoutbox.Backoff.{Backoff, check, capped, delay_seconds}

module _ (fl : Float) (laws : Laws fl) (b : Backoff fl.F) (valid : check fl b ≡ none) where
  factor-ge-one : fl.lt b.factor fl.one ≡ false
  unfolding check
  factor-ge-one = ground (arith, valid)

  jitter_nonneg : fl.lt b.jitter fl.zero_f ≡ false
  unfolding check
  jitter_nonneg = ground (arith, valid)

  base_positive : lt_ℤ (pos 0) b.base ≡ true
  unfolding check
  base_positive = ground (arith, valid)

  base-le-maximum : lt_ℤ b.maximum b.base ≡ false
  unfolding check
  base-le-maximum = ground (arith, valid)

  capped-le : (n : ℕ) → fl.lt (fl.seconds b.maximum) (capped fl b n) ≡ false
  unfolding capped
  capped-le n = ground (arith, laws.irrefl (fl.seconds b.maximum), laws.asym (fl.seconds b.maximum))

  -- No delay before jitter is below `base`.
  capped-ge : (n : ℕ) → fl.lt (capped fl b n) (fl.seconds b.base) ≡ false
  unfolding capped
  capped-ge n = elim (Option-cases (fl.pow b.factor n)) [
    | inl e ↦ ground (arith, laws.seconds_mono b.base b.maximum base-le-maximum)
    | inr (p, e) ↦ ground (
      arith,
      laws.seconds_mono b.base b.maximum base-le-maximum,
      laws.grows (fl.seconds b.base) p (laws.seconds_positive b.base base_positive)
          (laws.pow-ge-one b.factor p n factor-ge-one e),
    )
  ]

  capped_nonneg : (n : ℕ) → fl.lt (capped fl b n) fl.zero_f ≡ false
  capped_nonneg n =
      laws.le_trans fl.zero_f (fl.seconds b.base) (capped fl b n)
        (laws.asym fl.zero_f (fl.seconds b.base) (laws.seconds_positive b.base base_positive))
        (capped-ge n)

  -- For a policy that the constructor accepts: the delay before jitter lies between `base` and
  -- `maximum`, for every attempt, also where the power overflows; without jitter it is the delay,
  -- and with jitter the delay is within `1 - jitter` and `1 + jitter` times it.
  pub delay_bounds :
      (draw : fl.F → fl.F → fl.F) (n : ℕ)
      → IsUniform fl draw
      → (fl.lt (capped fl b n) (fl.seconds b.base) ≡ false)
        × (fl.lt (fl.seconds b.maximum) (capped fl b n) ≡ false)
        × (fl.lt fl.zero_f b.jitter ≡ false → delay_seconds fl b draw n ≡ capped fl b n)
        × (fl.lt fl.zero_f b.jitter ≡ true
            → (fl.lt (delay_seconds fl b draw n) (fl.mul (capped fl b n) (fl.sub fl.one b.jitter))
                ≡ false)
              × (fl.lt (fl.mul (capped fl b n) (fl.add fl.one b.jitter)) (delay_seconds fl b draw n)
                  ≡ false))
  unfolding delay_seconds
  delay_bounds draw n u =
      let c = capped fl b n in
      let lo = fl.sub fl.one b.jitter in
      let hi = fl.add fl.one b.jitter in
      let (low, high) = u lo hi (laws.spread b.jitter jitter_nonneg) in
      (
        capped-ge n,
        capped-le n,
        (λ e. ground (arith, jitter_nonneg)),
        λ e. (
          ground (arith, laws.mul_mono c lo (draw lo hi) (capped_nonneg n) low),
          ground (arith, laws.mul_mono c (draw lo hi) hi (capped_nonneg n) high),
        ),
      )
