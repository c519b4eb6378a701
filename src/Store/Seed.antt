-- ===== src/Store/Seed.antt =====
-- The seeds of `createToyAppStore`: default settings, commitments, risk settings and notes.
use Prim.Native.String.{◌++◌}
use league_table.Prelude.{
  ℕ, ◌+◌, String, Option, none, some, List, [], ◌∷◌, if◌then◌else◌, ltb, ◌===◌, count_text,
}
use league_table.Number.{Number, whole}
use league_table.Model.{Baseline, WeeklyUpdate, Settings, Note}
use league_table.Risk.Types.{default_thresholds, default_active}
use league_table.Api.Types.{RiskSettings}

-- `String(n).padStart(2, '0')`, below 100
abbrev pub two_digits : ℕ → String
two_digits n = if ltb n 10 then "0" ++ count_text n else count_text n

-- the id of the student at an index of a class
unfoldable pub student_id_at : String → ℕ → String
unfolding count_text
student_id_at class_id i = (if class_id === "c1" then "s" else "t") ++ two_digits (i + 1)

module _ {W : Type 0} ⦃num : Number W⦄ where
  open num use {literal}

  -- `DEFAULT_SETTINGS`
  abbrev pub default_settings : Settings W
  default_settings = record {
    type_weights = ("work", whole 1) ∷ ("childcare", whole 1) ∷ ("eldercare", whole 1) ∷ [];
    rate = literal 1 2;
    cap = literal 125 2;
    tie_breakers = "attendance" ∷ "homework" ∷ [];
    weights = none;
  }

  abbrev baseline_at : String → ℕ → ℕ → ℕ → ℕ → ℕ → String → Option ℕ → Baseline W
  baseline_at class_id n i work childcare eldercare status from = record {
    id = (class_id ++ "-b") ++ count_text n;
    student_id = student_id_at class_id i;
    work_hours = whole work;
    childcare_hours = whole childcare;
    eldercare_hours = whole eldercare;
    status = status;
    effective_from_week = from;
  }

  -- `seedCommitments`, the baselines
  unfoldable pub seed_baselines : String → List (Baseline W)
  unfolding student_id_at count_text
  seed_baselines c =
      baseline_at c 1 0 12 6 0 "approved" (some 1)
      ∷ baseline_at c 2 1 30 10 5 "approved" (some 1)
      ∷ baseline_at c 3 2 10 0 4 "pending" none
      ∷ baseline_at c 4 3 40 20 10 "rejected" none
      ∷ baseline_at c 5 4 8 0 0 "approved" (some 6)
      ∷ baseline_at c 6 5 6 4 0 "approved" (some 1)
      ∷ baseline_at c 7 6 10 0 2 "approved" (some 1)
      ∷ []

  abbrev update_at : String → ℕ → ℕ → ℕ → ℕ → ℕ → ℕ → Option String → WeeklyUpdate W
  update_at class_id n i week work childcare eldercare reversed = record {
    id = (class_id ++ "-u") ++ count_text n;
    student_id = student_id_at class_id i;
    week_number = week;
    work_hours = whole work;
    childcare_hours = whole childcare;
    eldercare_hours = whole eldercare;
    reversed_at = reversed;
  }

  -- `seedCommitments`, the weekly updates
  unfoldable pub seed_updates : String → List (WeeklyUpdate W)
  unfolding student_id_at count_text
  seed_updates c =
      update_at c 1 5 10 20 4 0 none ∷ update_at c 2 6 9 46 0 2 (some "2025-10-21T08:30:00Z") ∷ []

  -- `seedRiskSettings`
  abbrev pub seed_risk_settings : RiskSettings W
  seed_risk_settings = record { thresholds = default_thresholds; active = default_active }

abbrev seed_note : String → String → String → String → Note
seed_note class_id id body at = record {
  id = id;
  instructor_id = "i1";
  class_id = class_id;
  student_id = "s13";
  body = body;
  created_at = at;
}

unfoldable pub seed_notes : String → List Note
seed_notes class_id =
    if class_id === "c1"
    then seed_note class_id "n1" "Emailed 3 Nov about the two missed problem sets. No reply yet."
        "2025-11-03T11:20:00Z"
      ∷ seed_note class_id "n2"
          "Met in office hours 7 Nov. Shift pattern changed at work. Follow up in two weeks."
          "2025-11-07T15:05:00Z"
      ∷ []
    else []
