-- ===== src/Risk/Evaluate.antt =====
-- `evaluateSignals` and `diffState` of risk.js.
pub mod Levels
use league_table.Prelude.{
  ℕ, suc, Bool, true, false, ◌&&◌, Option, none, some, List, [], ◌∷◌, map, if◌then◌else◌, ltb,
  length, filter, Dict, lookup,
}
use league_table.Number.{Number, round1, round1_or_null}
use league_table.Risk.Types.{
  SignalKey, signal_keys, key_text, signal_label, Level, level_for, ThresholdPatch,
  merge_thresholds, default_thresholds, WeekData, Finding, Signal,
}
use league_table.Risk.Measure.{measure}
use league_table.Risk.Signals.{finding_of}

pub record Metrics (W : Type 0) : Type 0 where
  pub decline_run : ℕ
  pub missed_assignments : ℕ
  pub attendance_pct : Option W
  pub participation_pct : Option W
  pub projected : Option W
  pub hours : W
  pub missing_run : ℕ

pub record Evaluation (W : Type 0) : Type 0 where
  pub signals : List Signal
  pub signals_on : List SignalKey
  pub level : Level
  pub one_away : Option Level
  pub metrics : Metrics W

abbrev is_true : Option Bool → Bool
is_true none = true
is_true (some b) = b

-- `active[key] !== false`
abbrev pub is_active : Dict Bool → SignalKey → Bool
is_active active key = is_true (lookup (key_text key) active)

abbrev pub signal_of : Bool → SignalKey → Finding → Signal
signal_of active key finding = record {
  key = key;
  label = signal_label key;
  active = active;
  on = active && finding.on;
  summary = finding.summary;
  evidence = finding.evidence;
}

-- the states of a digest row
pub data Change : Type 0 where
  new still cleared quiet : Change

abbrev pub change_of : Bool → Bool → Change
change_of false true = Change.new
change_of true true = Change.still
change_of true false = Change.cleared
change_of false false = Change.quiet

abbrev pub is_flagged : List SignalKey → Bool
is_flagged [] = false
is_flagged (_ ∷ _) = true

module _ {W : Type 0} ⦃num : Number W⦄ where
  unfoldable pub evaluate_signals :
      List (WeekData W) → W → ThresholdPatch W → Dict Bool → Evaluation W
  unfolding merge_thresholds measure finding_of level_for
  evaluate_signals weekly hours thresholds active =
      let t = merge_thresholds default_thresholds thresholds in
      let m = measure weekly hours in
      let signals =
        map (λ key. signal_of (is_active active key) key (finding_of key m t)) signal_keys in
      let on = filter (λ s. s.on) signals in
      record {
        signals = signals;
        signals_on = map (λ s. s.key) on;
        level = level_for (length on);
        one_away = if ltb (length on) 3 then some (level_for (suc (length on))) else none;
        metrics = record {
          decline_run = m.run;
          missed_assignments = m.missed;
          attendance_pct = round1_or_null m.attendance_pct;
          participation_pct = round1_or_null m.participation_pct;
          projected = round1_or_null m.projected;
          hours = round1 hours;
          missing_run = m.gap;
        };
      }

  abbrev pub was_flagged : Option (Evaluation W) → Bool
  was_flagged none = false
  was_flagged (some e) = is_flagged e.signals_on

  unfoldable pub diff_state : Option (Evaluation W) → Evaluation W → Change
  diff_state prior current = change_of (was_flagged prior) (is_flagged current.signals_on)
