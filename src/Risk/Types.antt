-- ===== src/Risk/Types.antt =====
-- The constants and types of risk.js: signals, levels, thresholds and their defaults.
use league_table.Prelude.{ℕ, suc, String, Bool, true, Option, List, [], ◌∷◌, Dict, or_default, map}
use league_table.Number.{Number, whole}
use league_table.Model.{Slot}

pub data SignalKey : Type 0 where
  downward_trend missed_engagement low_projected_grade heavy_commitments missing_data : SignalKey

-- `SIGNAL_KEYS`
abbrev pub signal_keys : List SignalKey
signal_keys =
    SignalKey.downward_trend ∷ SignalKey.missed_engagement ∷ SignalKey.low_projected_grade
    ∷ SignalKey.heavy_commitments ∷ SignalKey.missing_data ∷ []

abbrev pub key_text : SignalKey → String
key_text SignalKey.downward_trend = "downward_trend"
key_text SignalKey.missed_engagement = "missed_engagement"
key_text SignalKey.low_projected_grade = "low_projected_grade"
key_text SignalKey.heavy_commitments = "heavy_commitments"
key_text SignalKey.missing_data = "missing_data"

-- `SIGNAL_LABELS`
abbrev pub signal_label : SignalKey → String
signal_label SignalKey.downward_trend = "Downward trend"
signal_label SignalKey.missed_engagement = "Missed or low engagement"
signal_label SignalKey.low_projected_grade = "Low projected grade"
signal_label SignalKey.heavy_commitments = "Heavy outside commitments"
signal_label SignalKey.missing_data = "Missing data"

-- `DEFAULT_ACTIVE`
abbrev pub default_active : Dict Bool
default_active = map (λ k. (key_text k, true)) signal_keys

-- `LEVELS`, in order
pub data Level : Type 0 where
  not_flagged watch at_risk high_risk : Level

-- `LEVELS[Math.min(count, 3)]`
unfoldable pub level_for : ℕ → Level
level_for ℕ.zero = Level.not_flagged
level_for (suc ℕ.zero) = Level.watch
level_for (suc (suc ℕ.zero)) = Level.at_risk
level_for (suc (suc (suc _))) = Level.high_risk

pub record Thresholds (W : Type 0) : Type 0 where
  pub decline_weeks : W
  pub missed_assignments : W
  pub attendance_pct : W
  pub participation_pct : W
  pub projected_grade : W
  pub commitment_hours : W
  pub missing_weeks : W

-- Thresholds that a request gives, some or all.
pub record ThresholdPatch (W : Type 0) : Type 0 where
  pub decline_weeks : Option W
  pub missed_assignments : Option W
  pub attendance_pct : Option W
  pub participation_pct : Option W
  pub projected_grade : Option W
  pub commitment_hours : Option W
  pub missing_weeks : Option W

-- `{ ...base, ...patch }`
unfoldable pub merge_thresholds : {W : Type 0} → Thresholds W → ThresholdPatch W → Thresholds W
merge_thresholds base patch = record {
  decline_weeks = or_default patch.decline_weeks base.decline_weeks;
  missed_assignments = or_default patch.missed_assignments base.missed_assignments;
  attendance_pct = or_default patch.attendance_pct base.attendance_pct;
  participation_pct = or_default patch.participation_pct base.participation_pct;
  projected_grade = or_default patch.projected_grade base.projected_grade;
  commitment_hours = or_default patch.commitment_hours base.commitment_hours;
  missing_weeks = or_default patch.missing_weeks base.missing_weeks;
}

-- `DEFAULT_THRESHOLDS`
abbrev pub default_thresholds : {W : Type 0} ⦃num : Number W⦄ → Thresholds W
default_thresholds = record {
  decline_weeks = whole 3;
  missed_assignments = whole 2;
  attendance_pct = whole 70;
  participation_pct = whole 50;
  projected_grade = whole 60;
  commitment_hours = whole 20;
  missing_weeks = whole 2;
}

-- One week of a student: the raw score, whether anything was recorded, and the totals.
pub record WeekData (W : Type 0) : Type 0 where
  pub week_number : ℕ
  pub raw : Option W
  pub has_entries : Bool
  pub by_key : Dict (Slot W)

pub record Evidence : Type 0 where
  pub label : String
  pub value : String

-- What a signal's definition returns.
pub record Finding : Type 0 where
  pub on : Bool
  pub summary : String
  pub evidence : List Evidence

pub record Signal : Type 0 where
  pub key : SignalKey
  pub label : String
  pub active : Bool
  pub on : Bool
  pub summary : String
  pub evidence : List Evidence
