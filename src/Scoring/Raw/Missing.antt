-- ===== src/Scoring/Raw/Missing.antt =====
-- When a student has a raw score, and which criteria count as missing.
use league_table.Prelude.{
  ◌≡◌, refl, Bool, not, ◌&&◌, Option, none, some, List, [], ◌∷◌, map, arith, filter, Dict, lookup,
}
use league_table.Number.{Number, zero_number}
use league_table.Model.{Criterion, Entry, Slot}
use league_table.Scoring.Raw.{aggregate, has_data, weight_of, part_of, score_student}

module _ {W : Type 0} ⦃num : Number W⦄ where
  open num use {add, lt, eq}

  missing-part_of :
      (weight_sum weight : W) (c : Criterion W) (slot : Option (Slot W))
      → (part_of weight_sum weight c slot).missing ≡ not (has_data slot)
  unfolding part_of
  missing-part_of weight_sum weight c none = refl
  missing-part_of weight_sum weight c (some a) = refl

  key-part_of :
      (weight_sum weight : W) (c : Criterion W) (slot : Option (Slot W))
      → ((part_of weight_sum weight c slot).key ≡ c.key)
        × ((part_of weight_sum weight c slot).weight ≡ weight)
  unfolding part_of
  key-part_of weight_sum weight c none = (refl, refl)
  key-part_of weight_sum weight c (some a) = (refl, refl)

  -- the criteria that `missingKeys` should name
  abbrev pub is_missing : Dict (Slot W) → Dict W → Criterion W → Bool
  is_missing agg weights c =
      not (has_data (lookup c.key agg)) && lt zero_number (weight_of weights c.key)

  missing_keys_lem :
      (agg : Dict (Slot W)) (weights : Dict W) (sum : W) (criteria : List (Criterion W))
      → map
          (λ p. p.key)
          (filter
            (λ p. p.missing && lt zero_number p.weight)
            (map (λ c. part_of sum (weight_of weights c.key) c (lookup c.key agg)) criteria))
        ≡ map (λ c. c.key) (filter (is_missing agg weights) criteria)
  missing_keys_lem agg weights sum [] = refl
  missing_keys_lem agg weights sum (c ∷ cs) =
      let (k, w) = key-part_of sum (weight_of weights c.key) c (lookup c.key agg) in
      ground (
        arith,
        k,
        w,
        missing-part_of sum (weight_of weights c.key) c (lookup c.key agg),
        missing_keys_lem agg weights sum cs,
      )

  -- `missingKeys` names, in the order of the criteria, those with a weight above 0 whose recorded
  -- possible points do not add up to more than 0.
  pub score_student-missing_keys :
      (entries : List (Entry W)) (criteria : List (Criterion W)) (weights : Dict W)
      → (score_student entries criteria weights).missing_keys
        ≡ map (λ c. c.key) (filter (is_missing (aggregate entries) weights) criteria)
  unfolding score_student
  score_student-missing_keys entries criteria weights =
      missing_keys_lem (aggregate entries) weights _ criteria
