-- ===== src/Scoring/Commitment/Reversal.antt =====
-- Which commitment hours apply, and what a reversal does.
use league_table.Prelude.{
  ℕ, ◌≤◌, ◌<◌, ◌≡◌, ◌≢◌, refl, Bool, true, false, Option, none, some, List, [], ◌∷◌, ◌++◌, arith,
  filter, find, or_default, All,
}
use league_table.Number.{Number}
use league_table.Model.{Baseline, WeeklyUpdate, Resolved}
use league_table.Scoring.Commitment.{
  is_unset, applies_in, resolve_hours, zero_hours, hours_of_update, hours_of_baseline,
}

module _ {W : Type 0} ⦃num : Number W⦄ where
  abbrev pub stands : WeeklyUpdate W → Bool
  stands u = is_unset u.reversed_at

  find-standing :
      (week : ℕ) (updates : List (WeeklyUpdate W))
      → find (applies_in week) (filter stands updates) ≡ find (applies_in week) updates
  find-standing week [] = refl
  find-standing week (u ∷ us) = ground (arith, find-standing week us)

  -- A reversed update never counts: without the reversed updates every week resolves to the same
  -- hours and source.
  pub resolve_hours-standing :
      (baseline : Option (Baseline W)) (updates : List (WeeklyUpdate W)) (week : ℕ)
      → resolve_hours baseline (filter stands updates) week ≡ resolve_hours baseline updates week
  unfolding resolve_hours
  resolve_hours-standing none updates week = refl
  resolve_hours-standing (some b) updates week = rw (find-standing week updates)

  -- The rule for the hours of a week: none unless the baseline is approved, then the first update of
  -- the week that stands, else the baseline from its first week on (week 1 if none is set).
  pub data Applies : Option (Baseline W) → List (WeeklyUpdate W) → ℕ → Resolved W → Type 0 where
    no_baseline :
        (updates : List (WeeklyUpdate W)) (week : ℕ)
        → Applies none updates week (record { hours = zero_hours; source = "none" })
    unapproved :
        (b : Baseline W) (updates : List (WeeklyUpdate W)) (week : ℕ)
        → b.status ≢ "approved"
        → Applies (some b) updates week (record { hours = zero_hours; source = b.status })
    updated :
        (b : Baseline W) (before : List (WeeklyUpdate W)) (u : WeeklyUpdate W)
        (after updates : List (WeeklyUpdate W)) (week : ℕ)
        → b.status ≡ "approved"
        → updates ≡ before ++ (u ∷ after)
        → All (λ v. applies_in week v ≡ false) before
        → u.week_number ≡ week
        → stands u ≡ true
        → Applies (some b) updates week (record { hours = hours_of_update u; source = "weekly" })
    baseline_holds :
        (b : Baseline W) (updates : List (WeeklyUpdate W)) (week : ℕ)
        → b.status ≡ "approved"
        → All (λ v. applies_in week v ≡ false) updates
        → or_default b.effective_from_week 1 ≤ week
        → Applies
            (some b)
            updates
            week
            (record { hours = hours_of_baseline b; source = "baseline" })
    too_early :
        (b : Baseline W) (updates : List (WeeklyUpdate W)) (week : ℕ)
        → b.status ≡ "approved"
        → All (λ v. applies_in week v ≡ false) updates
        → week < or_default b.effective_from_week 1
        → Applies (some b) updates week (record { hours = zero_hours; source = "before-effective" })

  -- what `find` found, with the list that it stands in
  data Found (week : ℕ) (updates : List (WeeklyUpdate W)) : Type 0 where
    nothing :
        find (applies_in week) updates ≡ none
        → All (λ v. applies_in week v ≡ false) updates
        → Found week updates
    first :
        (before : List (WeeklyUpdate W)) (u : WeeklyUpdate W) (after : List (WeeklyUpdate W))
        → find (applies_in week) updates ≡ some u
        → updates ≡ before ++ (u ∷ after)
        → All (λ v. applies_in week v ≡ false) before
        → applies_in week u ≡ true
        → Found week updates
