-- ===== src/Scoring/Raw.antt =====
-- The weighted raw score of scoring.js: `normalise`, `aggregate` and `scoreStudent`.
pub mod Totals
pub mod Missing
use league_table.Prelude.{
  String, Bool, true, false, not, ◌&&◌, Option, none, some, List, [], ◌∷◌, map, foldl,
  if◌then◌else◌, or_default, filter, Dict, lookup, insert,
}
use league_table.Number.{Number, zero_number, hundred, le, to_number}
use league_table.Model.{Criterion, Entry, Slot, Part, StudentScore}

module _ {W : Type 0} ⦃num : Number W⦄ where
  open num use {add, mul, div, lt, eq}

  unfoldable pub normalise : Option W → Option W → Option W
  normalise earned none = none
  normalise none (some possible) = none
  normalise (some earned) (some possible) =
      if le possible zero_number then none else some (div (mul hundred earned) possible)

  abbrev pub empty_slot : Slot W
  empty_slot = record { earned = zero_number; possible = zero_number }

  -- `slot.earned += earned; slot.possible += possible`
  abbrev pub add_to_slot : W → W → Slot W → Slot W
  add_to_slot earned possible slot = record {
    earned = add slot.earned earned;
    possible = add slot.possible possible;
  }

  -- one round of the loop of `aggregate`, by the entry's two numbers
  unfoldable pub add_numbers : String → Option W → Option W → Dict (Slot W) → Dict (Slot W)
  add_numbers key (some earned) (some possible) out =
      insert key (add_to_slot earned possible (or_default (lookup key out) empty_slot)) out
  add_numbers key none _ out = out
  add_numbers key (some earned) none out = out

  unfoldable pub aggregate_onto : Dict (Slot W) → List (Entry W) → Dict (Slot W)
  unfolding add_numbers
  aggregate_onto out [] = out
  aggregate_onto out (e ∷ es) =
      aggregate_onto (add_numbers e.criterion_key e.earned e.possible out) es

  unfoldable pub aggregate : List (Entry W) → Dict (Slot W)
  unfolding aggregate_onto
  aggregate = aggregate_onto []

  -- `a && a.possible > 0`
  abbrev pub has_data : Option (Slot W) → Bool
  has_data none = false
  has_data (some a) = lt zero_number a.possible

  -- `weights[key] ?? 0`
  abbrev pub weight_of : Dict W → String → W
  weight_of weights key = or_default (lookup key weights) zero_number

  -- the criteria that count towards the weights: with data, and a weight above 0
  abbrev pub is_counted : Dict (Slot W) → Dict W → Criterion W → Bool
  is_counted agg weights c = has_data (lookup c.key agg) && lt zero_number (weight_of weights c.key)

  abbrev pub sum_weights : Dict W → List (Criterion W) → W
  sum_weights weights = foldl (λ s c. add s (weight_of weights c.key)) zero_number

  -- one criterion's part, by its totals
  unfoldable pub part_of : W → W → Criterion W → Option (Slot W) → Part W
  unfolding normalise
  part_of weight_sum weight c (some a) =
      let missing = not (lt zero_number a.possible) in
      let normalised = if missing then none else normalise (some a.earned) (some a.possible) in
      let effective =
        if missing
        then zero_number
        else if eq weight_sum zero_number
        then zero_number
        else mul (div weight weight_sum) hundred in
      record {
        key = c.key;
        label = c.label;
        earned = if missing then none else some a.earned;
        possible = if missing then none else some a.possible;
        normalised = normalised;
        weight = weight;
        effective_weight = effective;
        points =
            if missing then zero_number else div (mul (to_number normalised) effective) hundred;
        missing = missing;
      }
  part_of weight_sum weight c none = record {
    key = c.key;
    label = c.label;
    earned = none;
    possible = none;
    normalised = none;
    weight = weight;
    effective_weight = zero_number;
    points = zero_number;
    missing = true;
  }

  abbrev pub sum_points : List (Part W) → W
  sum_points = foldl (λ s p. add s p.points) zero_number

  unfoldable pub score_student : List (Entry W) → List (Criterion W) → Dict W → StudentScore W
  unfolding aggregate part_of
  score_student entries criteria weights =
      let agg = aggregate entries in
      let weight_sum = sum_weights weights (filter (is_counted agg weights) criteria) in
      let parts =
        map (λ c. part_of weight_sum (weight_of weights c.key) c (lookup c.key agg)) criteria in
      record {
        score = if eq weight_sum zero_number then none else some (sum_points parts);
        parts = parts;
        missing_keys = map (λ p. p.key) (filter (λ p. p.missing && lt zero_number p.weight) parts);
      }
