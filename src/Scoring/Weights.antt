-- ===== src/Scoring/Weights.antt =====
-- `normaliseWeights` of scoring.js: weights rescaled to total 100.
use league_table.Prelude.{
  List, foldl, map, if◌then◌else◌, or_default, Dict, keys, lookup, from_entries, String,
}
use league_table.Number.{Number, zero_number, hundred, or_zero}

module _ {W : Type 0} ⦃num : Number W⦄ where
  open num use {add, mul, div, eq}

  abbrev pub weight_at : Dict W → String → W
  weight_at weights k = or_default (lookup k weights) zero_number

  abbrev pub total_weight : Dict W → List String → W
  total_weight weights = foldl (λ s k. add s (or_zero (weight_at weights k))) zero_number

  unfoldable pub normalise_weights : Dict W → Dict W
  normalise_weights weights =
      let total = total_weight weights (keys weights) in
      if eq total zero_number
      then from_entries (map (λ k. (k, zero_number)) (keys weights))
      else from_entries
          (map (λ k. (k, div (mul (weight_at weights k) hundred) total)) (keys weights))
