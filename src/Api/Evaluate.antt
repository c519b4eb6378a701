-- ===== src/Api/Evaluate.antt =====
-- What `evaluateClass` and `evaluateStudentAt` of api.js make of a class.
use league_table.Prelude.{ℕ, String, false, Option, none, some, List, map, if◌then◌else◌, ◌===◌}
use league_table.Number.{Number}
use league_table.Model.{Student, Note}
use league_table.Risk.Types.{Thresholds, ThresholdPatch}
use league_table.Risk.Evaluate.{Evaluation, evaluate_signals}
use league_table.Api.Types.{
  Result, ok, RiskSettings, Snapshot, DataSource, AppStore, Env, Action, pure, lift, ◌>>=◌,
}
use league_table.Api.Weeks.{evaluation_week}
use league_table.Api.Snapshot.{risk_weekly, hours_at_week}
use league_table.Api.Load.{load}

-- One student of an evaluated class.
pub record RiskRow (W : Type 0) : Type 0 where
  pub student_id : String
  pub display_name : String
  pub evaluation : Evaluation W

pub record ClassRisk (W : Type 0) : Type 0 where
  pub week : ℕ
  pub rows : List (RiskRow W)

-- `caller.instructorId || DEFAULT_INSTRUCTOR_ID`
abbrev pub instructor_or_default : Option String → String
instructor_or_default none = "i1"
instructor_or_default (some id) = if id === "" then "i1" else id

module _ {W : Type 0} where
  abbrev pub as_patch : Thresholds W → ThresholdPatch W
  as_patch t = record {
    decline_weeks = some t.decline_weeks;
    missed_assignments = some t.missed_assignments;
    attendance_pct = some t.attendance_pct;
    participation_pct = some t.participation_pct;
    projected_grade = some t.projected_grade;
    commitment_hours = some t.commitment_hours;
    missing_weeks = some t.missing_weeks;
  }

module _ {W : Type 0} ⦃num : Number W⦄ where
  unfoldable pub evaluate_student_at : Snapshot W → Student → ℕ → RiskSettings W → Evaluation W
  unfolding risk_weekly hours_at_week evaluate_signals
  evaluate_student_at snap student week_number settings =
      evaluate_signals (risk_weekly snap student week_number)
        (hours_at_week snap student week_number) (as_patch settings.thresholds) settings.active

  module _ {S : Type 0} (source : DataSource W) (store : AppStore W S) where
    abbrev pub risk_settings_of : String → Action W S (RiskSettings W)
    risk_settings_of class_id s = (store.get_risk_settings s.store class_id, s)

    abbrev pub notes_of : String → Option String → String → Action W S (List Note)
    notes_of class_id student_id instructor_id s =
        (store.list_notes s.store class_id student_id instructor_id, s)

    abbrev pub week_or_latest : Option ℕ → Snapshot W → Result ℕ
    week_or_latest none snap = evaluation_week snap
    week_or_latest (some week) snap = ok week

    unfoldable pub evaluate_class : Env → String → Option ℕ → Action W S (ClassRisk W)
    unfolding load evaluation_week evaluate_student_at
    evaluate_class env class_id up_to = do
      snap ← load source store env class_id false
      settings ← risk_settings_of class_id
      week ← lift (week_or_latest up_to snap)
      pure (record {
        week = week;
        rows =
            map
              (λ s. record {
                student_id = s.id;
                display_name = s.display_name;
                evaluation = evaluate_student_at snap s week settings;
              })
              snap.students;
      })
