-- ===== src/Examples/Hours.antt =====
-- Commitment hours and the adjustment of a score.
use league_table.Prelude.{◌≡◌, refl, true}
use league_table.Number.{le}
use league_table.Number.Fixed.{Fixed, plus, fixed_number}
use league_table.Number.Fixed.Ordered.{Fixed-IsOrdered}
use league_table.Scoring.Commitment.{commitment_factor, adjust}
use league_table.Scoring.Commitment.Bounds.{adjust_mono_hours}
use league_table.Examples.Fixtures.{n}

-- 80 with 10 hours and with 20
adjust_mono_hours_example : le {W = Fixed} (n 88) (n 96) ≡ true
unfolding adjust commitment_factor
adjust_mono_hours_example =
    adjust_mono_hours Fixed-IsOrdered (n 80) (n 10) (n 20) (plus 10) (plus 1250) {less = n 88}
      {more = n 96} refl refl refl refl (refl, refl, refl) (refl, refl, refl) refl refl
