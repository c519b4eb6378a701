-- ===== src/Scoring/Commitment.antt =====
-- The commitment adjustment of scoring.js: `resolveHours`, `weightedHours`, `commitmentFactor`,
-- `adjust` and `mean`.
pub mod Bounds
pub mod Reversal
use league_table.Prelude.{
  ℕ, String, Bool, true, false, ◌&&◌, Option, none, some, List, [], ◌∷◌, foldl, ◌==◌, ◌===◌, leb,
  if◌then◌else◌, or_default, find, length, present, Dict, keys, lookup,
}
use league_table.Number.{Number, zero_number, whole, hundred, math_min}
use league_table.Model.{Hours, Baseline, WeeklyUpdate, Resolved, Adjusted}

-- `!text` for a text that may be `null`
abbrev pub is_unset : Option String → Bool
is_unset none = true
is_unset (some s) = s === ""

module _ {W : Type 0} ⦃num : Number W⦄ where
  open num use {literal, add, mul, div, lt}

  -- `ZERO_HOURS`
  abbrev pub zero_hours : Hours W
  zero_hours = record { work = zero_number; childcare = zero_number; eldercare = zero_number }

  abbrev pub hours_of_update : WeeklyUpdate W → Hours W
  hours_of_update u = record {
    work = u.work_hours;
    childcare = u.childcare_hours;
    eldercare = u.eldercare_hours;
  }

  abbrev pub hours_of_baseline : Baseline W → Hours W
  hours_of_baseline b = record {
    work = b.work_hours;
    childcare = b.childcare_hours;
    eldercare = b.eldercare_hours;
  }

  -- the test of the weekly update that applies
  abbrev pub applies_in : ℕ → WeeklyUpdate W → Bool
  applies_in week_number u = u.week_number == week_number && is_unset u.reversed_at

  abbrev pub from_baseline : Baseline W → ℕ → Resolved W
  from_baseline b week_number =
      if leb (or_default b.effective_from_week 1) week_number
      then record { hours = hours_of_baseline b; source = "baseline" }
      else record { hours = zero_hours; source = "before-effective" }

  abbrev pub from_update : Option (WeeklyUpdate W) → Baseline W → ℕ → Resolved W
  from_update (some u) b week_number = record { hours = hours_of_update u; source = "weekly" }
  from_update none b week_number = from_baseline b week_number

  unfoldable pub resolve_hours : Option (Baseline W) → List (WeeklyUpdate W) → ℕ → Resolved W
  resolve_hours none updates week_number = record { hours = zero_hours; source = "none" }
  resolve_hours (some b) updates week_number =
      if b.status === "approved"
      then from_update (find (applies_in week_number) updates) b week_number
      else record { hours = zero_hours; source = b.status }

  -- `hours[k]`, for any key
  abbrev pub hours_at : Hours W → String → Option W
  hours_at h k =
      if k === "work"
      then some h.work
      else if k === "childcare"
      then some h.childcare
      else if k === "eldercare"
      then some h.eldercare
      else none

  unfoldable pub weighted_hours : Hours W → Dict W → W
  weighted_hours hours type_weights =
      foldl
        (λ s k. add s (
          mul (or_default (lookup k type_weights) zero_number)
            (or_default (hours_at hours k) zero_number)))
        zero_number (keys type_weights)

  unfoldable pub commitment_factor : W → W → W → W
  commitment_factor h rate cap = math_min (add (whole 1) (mul rate h)) cap

  -- `CAP_TOLERANCE`
  abbrev pub cap_tolerance : W
  cap_tolerance = literal 1 9

  unfoldable pub adjust : Option W → W → Adjusted W
  adjust none factor = record { adjusted = none; capped = false }
  adjust (some raw) factor =
      let value = mul raw factor in
      record {
        adjusted = some (math_min hundred value);
        capped = lt (add hundred cap_tolerance) value;
      }

  abbrev pub mean_of : List W → Option W
  mean_of [] = none
  mean_of (x ∷ xs) = some (div (foldl add zero_number (x ∷ xs)) (whole (length (x ∷ xs))))

  unfoldable pub mean : List (Option W) → Option W
  mean values = mean_of (present values)
