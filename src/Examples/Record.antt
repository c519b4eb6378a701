-- ===== src/Examples/Record.antt =====
-- A student reads the own risk record.
use league_table.Prelude.{String, ◌≡◌, ◌≢◌, refl, false, true, [], eq_iff, count_text}
use league_table.Number.Fixed.{Fixed, fixed_number, print_fixed}
use league_table.Risk.Types.{default_thresholds, default_active}
use league_table.Risk.Evaluate.{Evaluation}
use league_table.Api.Types.{ok, RiskSettings}
use league_table.Api.Load.{load}
use league_table.Api.Weeks.{evaluation_week}
use league_table.Api.Evaluate.{evaluate_student_at}
use league_table.Api.Standing.{RiskRecord, history_of, get_risk_record}
use league_table.Api.Standing.Notes.{get_risk_record-notes}
use league_table.Store.{get_risk_settings, toy_app_store}
use league_table.Examples.Fixtures.{source, student, snapshot, cached, env_at, ada}

abbrev settings : RiskSettings Fixed
settings = record { thresholds = default_thresholds; active = default_active }

abbrev own : Evaluation Fixed
unfolding evaluate_student_at
own = evaluate_student_at snapshot (student "s01" "Ada Lane") 1 settings

abbrev own_record : RiskRecord Fixed
unfolding own history_of
own_record = record {
  class_name = "c1";
  student_id = "s01";
  display_name = "Ada Lane";
  week = 1;
  level = own.level;
  one_away = own.one_away;
  signals = own.signals;
  metrics = own.metrics;
  thresholds = settings.thresholds;
  history = history_of snapshot (student "s01" "Ada Lane") 1 settings;
  notes = [];
}

record_read :
    (get_risk_record source toy_app_store (env_at 120000) "c1" "s01" ada cached).0 ≡ ok own_record
unfolding get_risk_record load evaluation_week get_risk_settings own_record own history_of
    print_fixed count_text
record_read = refl

no_instructor : ◌≢◌ {A = String} "student" "instructor"
no_instructor e = let same : false ≡ true = (eq_iff "student" "instructor").1 e in cc

get_risk_record-notes_example : own_record.notes ≡ []
get_risk_record-notes_example =
    get_risk_record-notes source toy_app_store (env_at 120000) "c1" "s01" ada cached own_record
      no_instructor record_read
