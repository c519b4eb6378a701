-- ===== src/Risk/Signals.antt =====
-- `SIGNAL_DEFINITIONS` of risk.js: for each signal, whether it is on, its summary and its evidence.
use Prim.Native.String.{◌++◌}
use league_table.Prelude.{
  ℕ, String, Bool, not, Option, none, some, List, [], ◌∷◌, map, if◌then◌else◌, ◌==◌, length,
  present, take_last, count_text, join,
}
use league_table.Number.{Number, whole, le, round1, to_number}
use league_table.Risk.Types.{SignalKey, Thresholds, WeekData, Evidence, Finding}
use league_table.Risk.Measure.{Measures}

-- `TREND_WEEKS_SHOWN`
abbrev pub trend_weeks_shown : ℕ
trend_weeks_shown = 6

abbrev pub evidence_of : String → String → Evidence
evidence_of label value = record { label = label; value = value }

-- `plural`
abbrev pub plural : ℕ → String → String
plural n word = ((count_text n ++ " ") ++ word) ++ (if n == 1 then "" else "s")

abbrev pub is_empty : List String → Bool
is_empty [] = Bool.true
is_empty (_ ∷ _) = Bool.false

module _ {W : Type 0} ⦃num : Number W⦄ where
  open num use {lt, show}

  abbrev pub rounded_text : W → String
  rounded_text x = show (round1 x)

  -- `percentLabel`
  abbrev pub percent_label : Option W → String
  percent_label none = "—"
  percent_label (some x) = rounded_text x ++ "%"

  abbrev pub reason_below : String → Option W → W → Option String
  reason_below what none limit = none
  reason_below what (some x) limit =
      if lt x limit
      then some (((((what ++ " ") ++ rounded_text x) ++ "% is under ") ++ show limit) ++ "%")
      else none

  -- a count reaches a threshold
  abbrev pub reaches : ℕ → W → Bool
  reaches n limit = le limit (whole n)

  -- `engagementReasons`
  unfoldable pub engagement_reasons : Measures W → Thresholds W → List String
  engagement_reasons m t = present (
      reason_below "attendance" m.attendance_pct t.attendance_pct
      ∷ (if reaches m.missed t.missed_assignments
          then some (count_text m.missed ++ " assignments not handed in")
          else none)
      ∷ reason_below "participation" m.participation_pct t.participation_pct
      ∷ [])

  abbrev pub week_label : WeekData W → String
  week_label w = "Week " ++ count_text w.week_number

  unfoldable pub trend_finding : Measures W → Thresholds W → Finding
  trend_finding m t =
      let on = reaches m.run t.decline_weeks in
      record {
        on = on;
        summary =
            if on
            then ("The weighted score has fallen " ++ count_text m.run) ++ " weeks running."
            else ((("The score has fallen " ++ plural m.run "week")
                  ++ " running; the threshold is ")
                ++ show t.decline_weeks)
              ++ ".";
        evidence =
            map (λ w. evidence_of (week_label w) (rounded_text (to_number w.raw)))
              (take_last trend_weeks_shown m.scored);
      }

  unfoldable pub engagement_finding : Measures W → Thresholds W → Finding
  unfolding engagement_reasons
  engagement_finding m t =
      let reasons = engagement_reasons m t in
      record {
        on = not (is_empty reasons);
        summary =
            if is_empty reasons
            then "Attendance, homework and participation are all above their thresholds."
            else ("Triggered by " ++ join "; " reasons) ++ ".";
        evidence =
            evidence_of "Assignments not handed in"
              ((count_text m.missed ++ " of ") ++ count_text m.set_count)
            ∷ evidence_of "Attendance to date" (percent_label m.attendance_pct)
            ∷ evidence_of "Participation to date" (percent_label m.participation_pct)
            ∷ [];
      }

  abbrev pub is_below : Option W → W → Bool
  is_below none limit = Bool.false
  is_below (some x) limit = lt x limit

  abbrev pub grade_summary : Option W → W → String
  grade_summary none limit = "No scores yet, so no projection."
  grade_summary (some x) limit =
      ((("The score to date averages " ++ rounded_text x) ++ ", against a pass threshold of ")
        ++ show limit)
      ++ "."

  abbrev pub grade_text : Option W → String
  grade_text none = "—"
  grade_text (some x) = rounded_text x

  unfoldable pub grade_finding : Measures W → Thresholds W → Finding
  grade_finding m t = record {
    on = is_below m.projected t.projected_grade;
    summary = grade_summary m.projected t.projected_grade;
    evidence =
        evidence_of "Weeks counted" (count_text (length m.scored))
        ∷ evidence_of "Projected grade" (grade_text m.projected)
        ∷ evidence_of "Pass threshold" (show t.projected_grade)
        ∷ [];
  }

  unfoldable pub commitments_finding : Measures W → Thresholds W → Finding
  commitments_finding m t =
      let on = le t.commitment_hours m.hours in
      record {
        on = on;
        summary =
            if on
            then ((rounded_text m.hours
                  ++ " weighted hours of work and care a week, at or above the ")
                ++ show t.commitment_hours)
              ++ "-hour threshold."
            else ((rounded_text m.hours ++ " weighted hours a week, under the ")
                ++ show t.commitment_hours)
              ++ "-hour threshold.";
        evidence =
            evidence_of "Weighted hours this week" (rounded_text m.hours)
            ∷ evidence_of "Threshold" (show t.commitment_hours ++ " hours")
            ∷ [];
      }

  unfoldable pub missing_finding : Measures W → Thresholds W → Finding
  missing_finding m t =
      let on = reaches m.gap t.missing_weeks in
      record {
        on = on;
        summary =
            if on
            then count_text m.gap ++ " consecutive weeks with no entries at all."
            else ((("The longest gap is " ++ plural m.gap "week") ++ "; the threshold is ")
                ++ show t.missing_weeks)
              ++ ".";
        evidence =
            map
              (λ w. evidence_of (week_label w) (if w.has_entries then "recorded" else "no entries"))
              (take_last trend_weeks_shown m.weekly);
      }

  -- `SIGNAL_DEFINITIONS[key](m, t)`
  unfoldable pub finding_of : SignalKey → Measures W → Thresholds W → Finding
  unfolding trend_finding engagement_finding grade_finding commitments_finding missing_finding
  finding_of SignalKey.downward_trend m t = trend_finding m t
  finding_of SignalKey.missed_engagement m t = engagement_finding m t
  finding_of SignalKey.low_projected_grade m t = grade_finding m t
  finding_of SignalKey.heavy_commitments m t = commitments_finding m t
  finding_of SignalKey.missing_data m t = missing_finding m t
