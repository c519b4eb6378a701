-- ===== src/Risk/Evaluate/Levels.antt =====
-- What an evaluation of risk.js answers: its level, and how its signals depend on the switches.
use league_table.Prelude.{
  ℕ, suc, ◌≡◌, refl, ap, sym, zero, Bool, false, not, ◌&&◌, Option, none, some, List, [], ◌∷◌, map,
  arith, if◌then◌else◌, ltb, length, filter, Dict, insert, lookup-insert, ◌===◌,
}
use league_table.Number.{Number}
use league_table.Risk.Types.{
  SignalKey, signal_keys, key_text, Level, level_for, ThresholdPatch, WeekData, Finding,
  merge_thresholds, default_thresholds, Signal,
}
use league_table.Risk.Measure.{measure}
use league_table.Risk.Signals.{finding_of}
use league_table.Risk.Evaluate.{is_active, signal_of, evaluate_signals}

abbrev keys_on : List Signal → List SignalKey
keys_on signals = map (λ s. s.key) (filter (λ s. s.on) signals)

length-keys_on :
    (signals : List Signal) → length (keys_on signals) ≡ length (filter (λ s. s.on) signals)
length-keys_on [] = refl
length-keys_on (s ∷ ss) = ground (arith, length-keys_on ss)

-- Every signal but one.
abbrev pub without : SignalKey → List SignalKey → List SignalKey
without key = filter (λ k. not (key_text key === key_text k))

-- One level up.
abbrev pub next_level : Level → Option Level
next_level Level.not_flagged = some Level.watch
next_level Level.watch = some Level.at_risk
next_level Level.at_risk = some Level.high_risk
next_level Level.high_risk = none

level_for-suc :
    (n : ℕ) → (if ltb n 3 then some (level_for (suc n)) else none) ≡ next_level (level_for n)
unfolding level_for
level_for-suc zero = refl
level_for-suc (suc zero) = refl
level_for-suc (suc (suc zero)) = refl
level_for-suc (suc (suc (suc n))) = ground arith

module _ (f : SignalKey → Finding) (active : Dict Bool) (key : SignalKey) where
  is_active-insert :
      (k : SignalKey)
      → is_active (insert (key_text key) false active) k
        ≡ (not (key_text key === key_text k) && is_active active k)
  is_active-insert k = rw (lookup-insert (key_text key) (key_text k) false active) (ground arith)

  keys_on-insert :
      (keys : List SignalKey)
      → keys_on
          (map (λ k. signal_of (is_active (insert (key_text key) false active) k) k (f k)) keys)
        ≡ without key (keys_on (map (λ k. signal_of (is_active active k) k (f k)) keys))
  keys_on-insert [] = refl
  keys_on-insert (k ∷ ks) = ground (arith, is_active-insert k, keys_on-insert ks)

module _ {W : Type 0} ⦃num : Number W⦄ where
  -- Switching a signal off takes that signal out of those that are on, and changes no other.
  pub evaluate_signals-switch_off :
      (weekly : List (WeekData W)) (hours : W) (thresholds : ThresholdPatch W) (active : Dict Bool)
      (key : SignalKey)
      → (evaluate_signals weekly hours thresholds (insert (key_text key) false active)).signals_on
        ≡ without key (evaluate_signals weekly hours thresholds active).signals_on
  unfolding evaluate_signals
  evaluate_signals-switch_off weekly hours thresholds active key =
      let t = merge_thresholds default_thresholds thresholds in
      keys_on-insert (λ k. finding_of k (measure weekly hours) t) active key signal_keys

  -- The level counts the signals that are on, High risk from three, and `oneAway` is the level that
  -- one more signal would give, none at High risk.
  pub evaluate_signals-level :
      (weekly : List (WeekData W)) (hours : W) (thresholds : ThresholdPatch W) (active : Dict Bool)
      → let e = evaluate_signals weekly hours thresholds active in
        (e.level ≡ level_for (length e.signals_on)) × (e.one_away ≡ next_level e.level)
  unfolding evaluate_signals
  evaluate_signals-level weekly hours thresholds active =
      let t = merge_thresholds default_thresholds thresholds in
      let signals =
        map (λ k. signal_of (is_active active k) k (finding_of k (measure weekly hours) t))
          signal_keys in
      (
        ap level_for (sym (length-keys_on signals)),
        level_for-suc (length (filter (λ s. s.on) signals)),
      )
