-- ===== src/Examples/Fixtures.antt =====
-- A class of two students and two weeks, its data source, and the app store of mockSource.js with
-- what the class has on file.
use league_table.Prelude.{ℕ, String, false, Option, none, some, List, [], ◌∷◌, ◌*◌}
use Prim.Native.String.{count}
use league_table.Number.Fixed.{Fixed, plus, fixed_number}
use league_table.Model.{Student, Criterion, Week, Entry, Baseline, WeeklyUpdate}
use league_table.Risk.Types.{ThresholdPatch, default_thresholds, default_active}
use league_table.Api.Types.{ok, err, other_error, Caller, Snapshot, DataSource, ApiState, Env}
use league_table.Api.Table.{Request}
use league_table.Store.{ToyStore}
use league_table.Store.Seed.{default_settings}

abbrev pub n : ℕ → Fixed
n k = plus (k * 1000)

abbrev pub student : String → String → Student
student id name = record {
  id = id;
  class_id = "c1";
  display_name = name;
  nickname = none;
  joined_week = 1;
}

abbrev pub students : List Student
students = student "s01" "Ada Lane" ∷ student "s02" "Ben Okoro" ∷ []

abbrev criterion : String → String → ℕ → Criterion Fixed
criterion key label weight = record { key = key; label = label; default_weight = n weight }

abbrev pub criteria : List (Criterion Fixed)
criteria =
    criterion "attendance" "Attendance" 40
    ∷ criterion "homework" "Homework" 60
    ∷ criterion "exam" "Exam" 20
    ∷ []

abbrev pub weeks : List Week
weeks =
    record { id = "w1"; term_id = "t1"; week_number = 1 }
    ∷ record { id = "w2"; term_id = "t1"; week_number = 2 }
    ∷ []

abbrev pub entry : String → String → String → String → Option ℕ → Entry Fixed
entry id student_id key week_id earned = record {
  id = id;
  student_id = student_id;
  criterion_key = key;
  week_id = week_id;
  earned = elim earned [ none ↦ none | some k ↦ some (n k) ];
  possible = some (n 10);
}

-- Ada has no homework of week 2, and Ben's attendance of week 1 is not recorded.
abbrev pub entries : List (Entry Fixed)
entries =
    entry "e1" "s01" "attendance" "w1" (some 9)
    ∷ entry "e2" "s01" "homework" "w1" (some 8)
    ∷ entry "e3" "s02" "attendance" "w1" none
    ∷ entry "e4" "s02" "homework" "w1" (some 7)
    ∷ entry "e5" "s01" "attendance" "w2" (some 10)
    ∷ entry "e6" "s02" "attendance" "w2" (some 6)
    ∷ entry "e7" "s02" "homework" "w2" (some 5)
    ∷ []

abbrev pub baseline : Baseline Fixed
baseline = record {
  id = "b1";
  student_id = "s01";
  work_hours = n 12;
  childcare_hours = n 6;
  eldercare_hours = n 0;
  status = "approved";
  effective_from_week = some 2;
}

abbrev pub update : Option String → WeeklyUpdate Fixed
update reversed = record {
  id = "u1";
  student_id = "s01";
  week_number = 2;
  work_hours = n 20;
  childcare_hours = n 4;
  eldercare_hours = n 0;
  reversed_at = reversed;
}

abbrev pub source : DataSource Fixed
source = record {
  kind = "sheet";
  label = "Class sheet";
  list_accounts = none;
  list_classes = λ instructor_id. ok [];
  list_students = λ class_id. ok students;
  list_criteria = λ class_id. ok criteria;
  list_weeks = λ term_id. ok weeks;
  get_entries = λ query. ok entries;
}

-- A source that answers nothing.
abbrev pub down : DataSource Fixed
down = record source { list_students = λ class_id. err (other_error "offline") }

abbrev pub filed : ToyStore Fixed
filed = record {
  settings = ("c1", default_settings) ∷ ("c2", default_settings) ∷ [];
  weights = [];
  commitments =
      ("c1", record { baselines = baseline ∷ []; weekly_updates = update none ∷ [] }) ∷ [];
  risk_settings = ("c1", record { thresholds = default_thresholds; active = default_active }) ∷ [];
  notes = [];
  log = [];
}

abbrev pub snapshot : Snapshot Fixed
snapshot = record {
  at = 100000;
  stale = false;
  class_id = "c1";
  students = students;
  criteria = criteria;
  weeks = weeks;
  entries = entries;
  baselines = baseline ∷ [];
  weekly_updates = update none ∷ [];
  settings = default_settings;
  issues = [];
}

abbrev pub fresh : ApiState Fixed (ToyStore Fixed)
fresh = record { caches = []; last_refresh_at = 0; forced_error = none; store = filed }

abbrev pub cached : ApiState Fixed (ToyStore Fixed)
cached = record fresh { caches = ("c1", snapshot) ∷ [] }

abbrev pub env_at : ℕ → Env
env_at t = record { called_at = t; read_at = t; drawn_failure = false }

abbrev pub instructor : Caller
instructor = record {
  role = "instructor";
  student_id = none;
  class_id = none;
  instructor_id = some "i1";
}

abbrev pub ada : Caller
ada = record {
  role = "student";
  student_id = some "s01";
  class_id = some "c1";
  instructor_id = none;
}

abbrev pub request : Request Fixed
request = record {
  class_id = "c1";
  week_id = "w2";
  window_mode = "cumulative";
  rolling_n = 3;
  criteria_keys = [];
  weights = none;
  name_mode = "full";
  caller = ada;
}

abbrev pub by_length : String → String → Fixed
by_length a b = fixed_number.sub (plus (count a)) (plus (count b))

abbrev pub no_patch : ThresholdPatch Fixed
no_patch = record {
  decline_weeks = none;
  missed_assignments = none;
  attendance_pct = none;
  participation_pct = none;
  projected_grade = none;
  commitment_hours = none;
  missing_weeks = none;
}
