-- ===== src/Api/Standing.antt =====
-- The risk record of a student and the student's own standing: `getRiskRecord` and `getMyStanding` of
-- api.js.
pub mod Notes
pub mod Made
pub mod History
pub mod Agrees
use Prim.Native.Nat.{max}
use league_table.Prelude.{
  ℕ, zero, suc, ◌+◌, ◌-◌, String, false, Option, none, some, List, [], ◌∷◌, map, if◌then◌else◌,
  ◌===◌, find, filter, length,
}
use league_table.Number.{Number}
use league_table.Model.{Class, Student, Note}
use league_table.Risk.Types.{Level, Thresholds, Signal}
use league_table.Risk.Evaluate.{Metrics}
use league_table.Api.Types.{
  api_error, Caller, RiskSettings, Snapshot, DataSource, AppStore, Env, Action, pure, throw,
  throw_if, lift, ◌>>=◌, ◌>>◌,
}
use league_table.Api.Weeks.{evaluation_week, joined_or_first}
use league_table.Api.Load.{load}
use league_table.Api.Evaluate.{
  instructor_or_default, evaluate_student_at, risk_settings_of, notes_of,
}
use league_table.Api.Table.{is_other_student}

pub record HistoryLine : Type 0 where
  pub week_number : ℕ
  pub level : Level
  pub count : ℕ

pub record RiskRecord (W : Type 0) : Type 0 where
  pub class_name : String
  pub student_id : String
  pub display_name : String
  pub week : ℕ
  pub level : Level
  pub one_away : Option Level
  pub signals : List Signal
  pub metrics : Metrics W
  pub thresholds : Thresholds W
  pub history : List HistoryLine
  pub notes : List Note

pub record Standing (W : Type 0) : Type 0 where
  pub student_id : String
  pub display_name : String
  pub week : ℕ
  pub level : Level
  pub signals : List Signal
  pub metrics : Metrics W
  pub help : String

-- `HELP_TEXT`
abbrev pub help_text : String
help_text =
    "Office hours are Tuesdays 2–4pm, and the advising team can be reached at advising@example.edu."

abbrev pub class_name_or_id : Option Class → String → String
class_name_or_id none id = id
class_name_or_id (some c) id = c.name

-- `n` weeks from `first`
abbrev pub weeks_from : ℕ → ℕ → List ℕ
weeks_from first zero = []
weeks_from first (suc n) = first ∷ weeks_from (suc first) n

-- from `first` to `last`, both included
abbrev pub weeks_between : ℕ → ℕ → List ℕ
weeks_between first last = weeks_from first (last + 1 - first)

module _ {W : Type 0} ⦃num : Number W⦄ where
  unfoldable pub history_of : Snapshot W → Student → ℕ → RiskSettings W → List HistoryLine
  unfolding evaluate_student_at
  history_of snap student week settings =
      map
        (λ w.
          let e = evaluate_student_at snap student w settings in
          record { week_number = w; level = e.level; count = length e.signals_on })
        (weeks_between (max (joined_or_first student.joined_week) 2) week)

  unfoldable pub risk_record_of :
      (class_name student_id : String)
      → Snapshot W
      → Student
      → ℕ
      → RiskSettings W
      → List Note
      → RiskRecord W
  unfolding history_of
  risk_record_of class_name student_id snap student week settings notes =
      let current = evaluate_student_at snap student week settings in
      record {
        class_name = class_name;
        student_id = student_id;
        display_name = student.display_name;
        week = week;
        level = current.level;
        one_away = current.one_away;
        signals = current.signals;
        metrics = current.metrics;
        thresholds = settings.thresholds;
        history = history_of snap student week settings;
        notes = notes;
      }

  abbrev pub standing_of : RiskRecord W → Standing W
  standing_of risk = record {
    student_id = risk.student_id;
    display_name = risk.display_name;
    week = risk.week;
    level = risk.level;
    signals = filter (λ s. s.on) risk.signals;
    metrics = risk.metrics;
    help = help_text;
  }

  module _ {S : Type 0} (source : DataSource W) (store : AppStore W S) where
    abbrev pub or_missing : Option Student → Action W S Student
    or_missing none = throw (api_error "No such student in this class." 404)
    or_missing (some student) = pure student

    -- notes are read for an instructor only
    abbrev pub notes_for : Caller → String → String → Action W S (List Note)
    notes_for caller class_id student_id =
        if caller.role === "instructor"
        then notes_of source store class_id (some student_id)
            (instructor_or_default caller.instructor_id)
        else pure []

    -- from the settings on
    unfoldable pub read_record :
        String → String → Caller → Snapshot W → Student → Action W S (RiskRecord W)
    unfolding evaluation_week risk_record_of
    read_record class_id student_id caller snap student = do
      settings ← risk_settings_of source store class_id
      week ← lift (evaluation_week snap)
      classes ← lift (source.list_classes "i1")
      notes ← notes_for caller class_id student_id
      let class_name = class_name_or_id (find (λ c. c.id === class_id) classes) class_id
      pure (risk_record_of class_name student_id snap student week settings notes)

    unfoldable pub get_risk_record : Env → String → String → Caller → Action W S (RiskRecord W)
    unfolding load read_record
    get_risk_record env class_id student_id caller = do
      throw_if (is_other_student caller student_id)
          (api_error "A student may only open their own standing." 403)
      snap ← load source store env class_id false
      student ← or_missing (find (λ s. s.id === student_id) snap.students)
      read_record class_id student_id caller snap student

    -- a student who asks for the own record
    abbrev pub as_student : String → Caller
    as_student student_id = record {
      role = "student";
      student_id = some student_id;
      class_id = none;
      instructor_id = none;
    }

    unfoldable pub get_my_standing : Env → String → String → Caller → Action W S (Standing W)
    unfolding get_risk_record
    get_my_standing env class_id student_id caller = do
      throw_if (is_other_student caller student_id)
          (api_error "A student may only read their own standing." 403)
      risk ← get_risk_record env class_id student_id (as_student student_id)
      pure (standing_of risk)
