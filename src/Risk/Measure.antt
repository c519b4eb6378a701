-- ===== src/Risk/Measure.antt =====
-- The measurements of risk.js: `declineRun`, `missingRun`, `missedAssignments`, `weeksSet`,
-- `totalsFor`, `pct` and `measure`.
pub mod Runs
use league_table.Prelude.{
  ℕ, suc, String, Bool, Option, none, some, List, [], ◌∷◌, foldl, reverse, if◌then◌else◌, ltb,
  filter, present, length, map, is_some, lookup,
}
use league_table.Number.{Number, zero_number, whole, hundred}
use league_table.Model.{Slot}
use league_table.Scoring.Raw.{empty_slot, add_to_slot}
use league_table.Risk.Types.{WeekData}

pub record Measures (W : Type 0) : Type 0 where
  pub weekly : List (WeekData W)
  -- the scored weeks, with their raw scores
  pub scored : List (WeekData W)
  pub hours : W
  pub run : ℕ
  pub missed : ℕ
  pub set_count : ℕ
  pub attendance_pct : Option W
  pub participation_pct : Option W
  pub projected : Option W
  pub gap : ℕ

module _ {W : Type 0} where
  -- the loop of `missingRun`, over `best` and `run`
  unfoldable pub missing_run_from : ℕ → ℕ → List (WeekData W) → ℕ
  missing_run_from best run [] = best
  missing_run_from best run (w ∷ ws) =
      let next = if w.has_entries then 0 else suc run in
      missing_run_from (if ltb best next then next else best) next ws

  unfoldable pub missing_run : List (WeekData W) → ℕ
  unfolding missing_run_from
  missing_run = missing_run_from 0 0

module _ {W : Type 0} ⦃num : Number W⦄ where
  open num use {literal, add, sub, mul, div, lt, eq}

  unfoldable pub pct : W → W → Option W
  pct earned possible =
      if lt zero_number possible then some (div (mul hundred earned) possible) else none

  -- `DECLINE_TOLERANCE`
  abbrev pub decline_tolerance : W
  decline_tolerance = literal 1 9

  -- `later < earlier - tolerance`
  abbrev pub falls : W → W → Bool
  falls later earlier = lt later (sub earlier decline_tolerance)

  -- the loop of `declineRun`, over the raw scores from the latest back
  unfoldable pub run_back : List W → ℕ
  run_back [] = 0
  run_back (x ∷ []) = 0
  run_back (x ∷ y ∷ rest) = let more = run_back (y ∷ rest) in if falls x y then suc more else 0

  abbrev pub raw_scores : List (WeekData W) → List W
  raw_scores weekly = present (map (λ w. w.raw) weekly)

  unfoldable pub decline_run : List (WeekData W) → ℕ
  unfolding run_back
  decline_run weekly = run_back (reverse (raw_scores weekly))

  abbrev pub with_possible : Option (Slot W) → Option (Slot W)
  with_possible none = none
  with_possible (some slot) = if lt zero_number slot.possible then some slot else none

  -- `homeworkSet`
  abbrev pub homework_set : WeekData W → Option (Slot W)
  homework_set w = with_possible (lookup "homework" w.by_key)

  abbrev pub earned_nothing : Option (Slot W) → Bool
  earned_nothing none = Bool.false
  earned_nothing (some slot) = eq slot.earned zero_number

  unfoldable pub missed_assignments : List (WeekData W) → ℕ
  missed_assignments weekly = length (filter (λ w. earned_nothing (homework_set w)) weekly)

  unfoldable pub weeks_set : List (WeekData W) → ℕ
  weeks_set weekly = length (filter (λ w. is_some (homework_set w)) weekly)

  abbrev pub add_slot : Slot W → Option (Slot W) → Slot W
  add_slot total none = total
  add_slot total (some slot) = add_to_slot slot.earned slot.possible total

  unfoldable pub totals_for : List (WeekData W) → String → Slot W
  totals_for weekly key = foldl (λ total w. add_slot total (lookup key w.by_key)) empty_slot weekly

  -- the sum over the scored weeks by their number
  abbrev pub average : List W → Option W
  average [] = none
  average (x ∷ xs) = some (div (foldl add zero_number (x ∷ xs)) (whole (length (x ∷ xs))))

  unfoldable pub measure : List (WeekData W) → W → Measures W
  unfolding totals_for pct decline_run missing_run missed_assignments weeks_set
  measure weekly hours =
      let attendance = totals_for weekly "attendance" in
      let participation = totals_for weekly "participation" in
      record {
        weekly = weekly;
        scored = filter (λ w. is_some w.raw) weekly;
        hours = hours;
        run = decline_run weekly;
        missed = missed_assignments weekly;
        set_count = weeks_set weekly;
        attendance_pct = pct attendance.earned attendance.possible;
        participation_pct = pct participation.earned participation.possible;
        projected = average (raw_scores weekly);
        gap = missing_run weekly;
      }
