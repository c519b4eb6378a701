-- ===== src/Scoring/Commitment/Bounds.antt =====
-- Bounds and monotonicity of the commitment adjustment, as rounded. A hypothesis `IsKnown x` says
-- that a value on the way is not NaN; doubles meet it unless a hypothesis value is infinite.
use league_table.Prelude.{◌≡◌, true, some, arith}
use mathlib.Core.Option.{some-injective}
use league_table.Number.{Number, zero_number, whole, hundred, le}
use league_table.Number.Order.{
  IsKnown, le_trans, known_whole, math_min-le_left, math_min-le_right, le-math_min, math_min_mono,
}
use league_table.Number.Laws.{IsOrdered}
use league_table.Scoring.Commitment.{commitment_factor, adjust}

module _ {W : Type 0} ⦃num : Number W⦄ where
  open num use {add, mul, lt, eq}

  -- What `commitmentFactor` computes before it caps the factor.
  abbrev pub uncapped : W → W → W
  uncapped h rate = add (whole 1) (mul rate h)

  module _ (laws : IsOrdered W) where
    open laws use {
      eq_symm, add_mono_right, mul_mono_right, mul-one, mul_nonneg, le-add_nonneg, literal_nonneg,
    }

    -- With a rate that is not negative and a cap of 1 or more, the factor of any hours lies
    -- between 1 and the cap.
    pub commitment_factor_bounds :
        (h rate limit : W)
        → le zero_number rate ≡ true
        → le zero_number h ≡ true
        → le (whole 1) limit ≡ true
        → IsKnown limit
        → IsKnown (mul rate h)
        → IsKnown (uncapped h rate)
        → (le (whole 1) (commitment_factor h rate limit) ≡ true)
          × (le (commitment_factor h rate limit) limit ≡ true)
    unfolding commitment_factor
    commitment_factor_bounds h rate limit hr hh hc kc km ku =
        let grown = le-add_nonneg (whole 1) (mul rate h) (mul_nonneg rate h hr hh km) ku in
        (
          le-math_min laws _ (uncapped h rate) limit ku kc grown hc,
          math_min-le_right laws _ limit ku kc,
        )

    -- The factor does not fall as the weighted hours rise.
    factor_mono :
        (h h' rate limit : W)
        → le zero_number rate ≡ true
        → le h h' ≡ true
        → IsKnown limit
        → IsKnown (mul rate h)
        → IsKnown (mul rate h')
        → IsKnown (uncapped h rate)
        → IsKnown (uncapped h' rate)
        → le (commitment_factor h rate limit) (commitment_factor h' rate limit) ≡ true
    unfolding commitment_factor
    factor_mono h h' rate limit hr hh kc km km' ku ku' =
        math_min_mono laws _ _ limit ku ku' kc
          (add_mono_right (whole 1) _ _ (mul_mono_right rate h h' hr hh km km') ku ku')

    -- No value on the way from hours to the adjusted score is NaN.
    abbrev pub Computes : (raw h rate limit : W) → Type 0
    Computes raw h rate limit =
        IsKnown (mul rate h)
        × IsKnown (uncapped h rate)
        × IsKnown (mul raw (commitment_factor h rate limit))

    -- More weighted hours never lower the adjusted score that they give: for a raw score and a rate
    -- that are not negative, `adjust` by the factor of more hours gives at least as much.
    pub adjust_mono_hours :
        (raw h h' rate limit : W) {less more : W}
        → le zero_number raw ≡ true
        → le zero_number rate ≡ true
        → le h h' ≡ true
        → IsKnown limit
        → Computes raw h rate limit
        → Computes raw h' rate limit
        → (adjust (some raw) (commitment_factor h rate limit)).adjusted ≡ some less
        → (adjust (some raw) (commitment_factor h' rate limit)).adjusted ≡ some more
        → le less more ≡ true
    unfolding adjust
    adjust_mono_hours raw h h' rate limit h0 hr hh kc (km, ku, kv) (km', ku', kv') e e' =
        let k100 = known_whole laws 100 (omega arith) in
        let product =
          mul_mono_right raw _ _ h0 (factor_mono h h' rate limit hr hh kc km km' ku ku') kv kv' in
        rw (← some-injective _ _ e, ← some-injective _ _ e')
          (le-math_min laws _ hundred _ k100 kv' (math_min-le_left laws hundred _ k100 kv)
            (le_trans laws _ _ _ (math_min-le_right laws hundred _ k100 kv) product))
