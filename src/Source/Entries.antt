-- ===== src/Source/Entries.antt =====
-- `buildEntries` of mockSource.js: the random scores of a class, in the order of the draws.
use Prim.Native.String.{◌++◌}
use league_table.Prelude.{
  ℕ, suc, ◌+◌, String, Bool, true, ◌&&◌, Option, none, some, List, [], ◌∷◌, ◌++◌ as append, map,
  if◌then◌else◌, ltb, leb, ◌==◌, ◌===◌, or_default, any, find, get_elem?, Dict, lookup, count_text,
}
use league_table.Number.{Number, whole, zero_number, math_min, math_max}
use league_table.Model.{Student, Week, Entry}
use league_table.Source.Random.{draw}
use league_table.Source.Fixtures.{ToyCriterion, criteria_of}

-- The generator's state and the number of entries so far.
pub record Drawn : Type 0 where
  pub seed : ℕ
  pub count : ℕ

abbrev pub is_scored : Option (List ℕ) → ℕ → Bool
is_scored none week_number = true
is_scored (some weeks) week_number = any (λ w. w == week_number) weeks

abbrev pub is_left_out : ℕ → String → ℕ → Bool
is_left_out i key week_number = i == 17 && key === "participation" && week_number == 7

module _ {W : Type 0} ⦃num : Number W⦄ where
  open num use {literal, add, sub, mul, round}

  -- `Math.min(high, Math.max(low, x))`
  abbrev pub clamp : W → W → W → W
  clamp low high x = math_min high (math_max low x)

  -- `(rng() - 0.5) * spread`
  abbrev spread_of : W → W → W
  spread_of value spread = mul (sub value (literal 5 1)) spread

  -- the abilities of one student, a draw for each criterion
  unfoldable pub abilities_by_key : W → List (ToyCriterion W) → ℕ → Dict W × ℕ
  unfolding draw
  abilities_by_key base [] seed = ([], seed)
  abilities_by_key base (c ∷ cs) seed =
      let (value, next) = draw {W = W} seed in
      let (rest, last) = abilities_by_key base cs next in
      (
        (c.key, clamp (literal 12 2) (literal 99 2) (add base (spread_of value (literal 28 2))))
            ∷ rest,
        last,
      )

  -- the base of a student: 0.9 for the first two, without a draw
  unfoldable pub base_of : ℕ → ℕ → W × ℕ
  unfolding draw
  base_of i seed =
      let (value, next) = draw {W = W} seed in
      if leb i 1 then (literal 9 1, seed) else (add (literal 55 2) (mul value (literal 42 2)), next)

  unfoldable pub abilities : ℕ → List Student → List (ToyCriterion W) → ℕ → Dict (Dict W) × ℕ
  unfolding base_of abilities_by_key
  abilities i [] criteria seed = ([], seed)
  abilities i (s ∷ ss) criteria seed =
      let (base, next) = base_of i seed in
      let (own, then_seed) = abilities_by_key base criteria next in
      let (rest, last) = abilities (suc i) ss criteria then_seed in ((s.id, own) ∷ rest, last)

  -- every student and criterion has an ability
  abbrev ability_of : Dict (Dict W) → String → String → W
  ability_of ability id key =
      or_default (lookup key (or_default (lookup id ability) [])) zero_number

  -- the share of the possible points, with the three weeks that are set by hand
  abbrev pub share_of : ℕ → ℕ → W → W
  share_of i week_number x =
      if i == 12 && week_number == 6
      then zero_number
      else if i == 1 && week_number == 5
      then literal 92 2
      else if i == 0 && week_number == 5
      then whole 1
      else clamp zero_number (whole 1) x

  abbrev new_entry : String → Student → ToyCriterion W → Week → ℕ → W → Entry W
  unfolding count_text
  new_entry class_id s c w n share = record {
    id = (class_id ++ "-e") ++ count_text n;
    student_id = s.id;
    criterion_key = c.key;
    week_id = w.id;
    earned = some (round (mul share c.possible));
    possible = some c.possible;
  }

  -- one turn of the innermost loop, for the student at index `i`
  unfoldable pub make_entry :
      String
      → Dict (Dict W)
      → Week
      → ToyCriterion W
      → ℕ
      → Student
      → Drawn
      → Option (Entry W) × Drawn
  unfolding draw new_entry
  make_entry class_id ability w c i s d =
      let (value, next) = draw {W = W} d.seed in
      let share =
        share_of i w.week_number
          (add (ability_of ability s.id c.key) (spread_of value (literal 26 2))) in
      if ltb w.week_number s.joined_week
      then (none, d)
      else if is_left_out i c.key w.week_number
      then (none, record d { seed = next })
      else (
        some (new_entry class_id s c w (d.count + 1) share),
        record { seed = next; count = d.count + 1 },
      )

  abbrev pub onto : Option (Entry W) → List (Entry W) → List (Entry W)
  onto none es = es
  onto (some e) es = e ∷ es

  unfoldable pub entries_of_students :
      String
      → Dict (Dict W)
      → Week
      → ToyCriterion W
      → ℕ
      → List Student
      → Drawn
      → List (Entry W) × Drawn
  unfolding make_entry
  entries_of_students class_id ability w c i [] d = ([], d)
  entries_of_students class_id ability w c i (s ∷ ss) d =
      let (made, next) = make_entry class_id ability w c i s d in
      let (rest, last) = entries_of_students class_id ability w c (suc i) ss next in
      (onto made rest, last)

  unfoldable pub entries_of_week :
      String
      → Dict (Dict W)
      → List Student
      → Week
      → List (ToyCriterion W)
      → Drawn
      → List (Entry W) × Drawn
  unfolding entries_of_students
  entries_of_week class_id ability students w [] d = ([], d)
  entries_of_week class_id ability students w (c ∷ cs) d =
      let (scored, next) =
        if is_scored c.weeks w.week_number
        then entries_of_students class_id ability w c 0 students d
        else ([], d) in
      let (rest, last) = entries_of_week class_id ability students w cs next in
      (append scored rest, last)

  unfoldable pub entries_of_weeks :
      String
      → Dict (Dict W)
      → List Student
      → List Week
      → List (ToyCriterion W)
      → Drawn
      → List (Entry W)
  unfolding entries_of_week
  entries_of_weeks class_id ability students [] criteria d = []
  entries_of_weeks class_id ability students (w ∷ ws) criteria d =
      let (scored, next) = entries_of_week class_id ability students w criteria d in
      append scored (entries_of_weeks class_id ability students ws criteria next)

  -- the student's entry of week 9 for a criterion
  abbrev pub is_ninth : String → String → Entry W → Bool
  is_ninth id key x = x.week_id === "w9" && x.student_id === id && x.criterion_key === key

  abbrev pub copy_earned : Entry W → Option (Entry W) → Entry W
  copy_earned e none = e
  copy_earned e (some twin) = record e { earned = twin.earned }

  -- the tie of week 9: `b` gets what `a` earned, and `a`, another student, keeps it
  abbrev pub twin_with : Student → Student → List (Entry W) → Entry W → Entry W
  twin_with a b all e =
      if e.week_id === "w9" && e.student_id === b.id
      then copy_earned e (find (is_ninth a.id e.criterion_key) all)
      else e

  -- `students[10]` and `students[11]`; a class without them would throw
  abbrev pub tie_week : Option Student → Option Student → List (Entry W) → List (Entry W)
  tie_week none _ entries = entries
  tie_week (some a) none entries = entries
  tie_week (some a) (some b) entries = map (twin_with a b entries) entries

  unfoldable pub build_entries : String → List Student → List Week → List (Entry W)
  unfolding abilities entries_of_weeks
  build_entries class_id students weeks =
      let criteria = criteria_of class_id in
      let seed = if class_id === "c1" then 20260706 else 20260707 in
      let (ability, next) = abilities 0 students criteria seed in
      tie_week (get_elem? students 10) (get_elem? students 11) (
        entries_of_weeks class_id ability students weeks criteria
          (record { seed = next; count = 0 }))
