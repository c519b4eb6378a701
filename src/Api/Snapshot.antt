-- ===== src/Api/Snapshot.antt =====
-- What api.js computes from a snapshot: weights, the rows of a table and the weeks of the risk engine.
use league_table.Prelude.{
  ℕ, String, Bool, true, false, not, ◌&&◌, Option, none, some, List, [], ◌∷◌, map, foldl, leb,
  ◌===◌, or_default, or_else, filter, find, any, present, last?, includes, Dict, lookup, insert,
  from_entries,
}
use league_table.Number.{Number, zero_number, minus_one, to_number}
use league_table.Model.{
  Student, Criterion, Week, Entry, Baseline, WeeklyUpdate, Slot, StudentScore, WeekRow, Row, Ranked,
}
use league_table.Scoring.Raw.{score_student, empty_slot, add_to_slot}
use league_table.Scoring.Commitment.{resolve_hours, weighted_hours, commitment_factor, adjust, mean}
use league_table.Scoring.Weights.{normalise_weights}
use league_table.Scoring.Names.{display_name}
use league_table.Scoring.Ranking.{rank_rows}
use league_table.Risk.Types.{WeekData}
use league_table.Api.Types.{Snapshot}
use league_table.Api.Weeks.{joined_or_first, window_weeks}

-- The choices of a request: the window, the weights, the criteria and the names.
pub record View (W : Type 0) : Type 0 where
  pub window_mode : String
  pub rolling_n : ℕ
  pub weights : Dict W
  pub criteria_keys : List String
  pub name_mode : String

module _ {W : Type 0} ⦃num : Number W⦄ where
  -- `defaultWeightsOf`
  unfoldable pub default_weights_of : List (Criterion W) → Dict W
  default_weights_of criteria = from_entries (map (λ c. (c.key, c.default_weight)) criteria)

  -- `allKeysUnlessGiven`
  abbrev pub all_keys_unless_given : List String → List (Criterion W) → List String
  all_keys_unless_given [] criteria = map (λ c. c.key) criteria
  all_keys_unless_given (k ∷ ks) criteria = k ∷ ks

  unfoldable pub baseline_of : Snapshot W → Student → Option (Baseline W)
  baseline_of snap student =
      find (λ b. b.student_id === student.id && not (b.status === "superseded")) snap.baselines

  unfoldable pub updates_of : Snapshot W → Student → List (WeeklyUpdate W)
  updates_of snap student = filter (λ u. u.student_id === student.id) snap.weekly_updates

  -- the totals that `riskWeekly` adds up: a `null` counts as 0 there
  abbrev pub add_entry : Dict (Slot W) → Entry W → Dict (Slot W)
  add_entry by_key e =
      insert e.criterion_key
        (add_to_slot (to_number e.earned) (to_number e.possible)
          (or_default (lookup e.criterion_key by_key) empty_slot))
        by_key

  abbrev pub raw_of : List (Entry W) → List (Criterion W) → Dict W → Option W
  raw_of [] criteria weights = none
  raw_of (e ∷ es) criteria weights = (score_student (e ∷ es) criteria weights).score

  abbrev pub is_any : List (Entry W) → Bool
  is_any [] = false
  is_any (_ ∷ _) = true

  abbrev pub entries_of : Snapshot W → Student → Week → List (Entry W)
  entries_of snap student w =
      filter (λ e. e.week_id === w.id && e.student_id === student.id) snap.entries

  unfoldable pub risk_weekly : Snapshot W → Student → ℕ → List (WeekData W)
  unfolding normalise_weights default_weights_of score_student
  risk_weekly snap student up_to =
      let weights =
        normalise_weights (or_default snap.settings.weights (default_weights_of snap.criteria)) in
      map
        (λ w.
          let entries = entries_of snap student w in
          record {
            week_number = w.week_number;
            raw = raw_of entries snap.criteria weights;
            has_entries = is_any entries;
            by_key = foldl add_entry [] entries;
          })
        (filter
          (λ w. leb (joined_or_first student.joined_week) w.week_number && leb w.week_number up_to)
          snap.weeks)

  unfoldable pub hours_at_week : Snapshot W → Student → ℕ → W
  unfolding baseline_of updates_of resolve_hours weighted_hours
  hours_at_week snap student week_number =
      weighted_hours
        (resolve_hours (baseline_of snap student) (updates_of snap student) week_number).hours
        snap.settings.type_weights

  unfoldable pub resolved_weights : Snapshot W → List String → Option (Dict W) → Dict W
  unfolding normalise_weights default_weights_of
  resolved_weights snap keys override =
      let base =
        or_default (or_else override snap.settings.weights) (default_weights_of snap.criteria) in
      normalise_weights (from_entries (map (λ k. (k, or_default (lookup k base) zero_number)) keys))

  -- a week's row from its raw score
  abbrev pub week_row : Snapshot W → Student → Week → StudentScore W → Option W → Option (WeekRow W)
  week_row snap student w result none = none
  week_row snap student w result (some raw) =
      let resolved =
        resolve_hours (baseline_of snap student) (updates_of snap student) w.week_number in
      let h = weighted_hours resolved.hours snap.settings.type_weights in
      let factor = commitment_factor h snap.settings.rate snap.settings.cap in
      let outcome = adjust (some raw) factor in
      some (record {
        week_id = w.id;
        week_number = w.week_number;
        raw = raw;
        hours = resolved.hours;
        hours_source = resolved.source;
        weighted_hours = h;
        factor = factor;
        adjusted = outcome.adjusted;
        capped = outcome.capped;
        parts = result.parts;
        missing_keys = result.missing_keys;
      })

  abbrev pub scored_week :
      Snapshot W
      → Student
      → Week
      → List (Criterion W)
      → Dict W
      → List (Entry W)
      → Option (WeekRow W)
  scored_week snap student w criteria weights [] = none
  scored_week snap student w criteria weights (e ∷ es) =
      let result = score_student (e ∷ es) criteria weights in
      week_row snap student w result result.score

  unfoldable pub student_weeks :
      Snapshot W
      → Student
      → List Week
      → List (Criterion W)
      → List String
      → Dict W
      → List (WeekRow W)
  unfolding baseline_of updates_of score_student resolve_hours weighted_hours commitment_factor
      adjust
  student_weeks snap student weeks criteria criteria_keys weights = present (
      map
        (λ w.
          scored_week snap student w criteria weights
            (filter (λ e. includes criteria_keys e.criterion_key) (entries_of snap student w)))
        weeks)

  -- a student's row from the weeks that have a score; none where no week has
  abbrev pub row_of_weeks :
      Student → String → List (WeekRow W) → Option (WeekRow W) → Option (Row W)
  row_of_weeks s name_mode weeks none = none
  row_of_weeks s name_mode weeks (some last) = some (record {
    student_id = s.id;
    display_name = display_name s name_mode;
    full_name = s.display_name;
    score = mean (map (λ r. r.adjusted) weeks);
    raw = mean (map (λ r. some r.raw) weeks);
    factor = mean (map (λ r. some r.factor) weeks);
    weighted_hours = mean (map (λ r. some r.weighted_hours) weeks);
    capped = any (λ r. r.capped) weeks;
    hours_source = last.hours_source;
    weeks = weeks;
    parts = last.parts;
    missing_keys = last.missing_keys;
    normalised_by_key =
        from_entries (map (λ p. (p.key, or_default p.normalised minus_one)) last.parts);
  })

  abbrev pub rows_of :
      Snapshot W → List Week → List (Criterion W) → View W → List Student → List (Row W)
  rows_of snap weeks criteria view students = present (
      map
        (λ s.
          let scored = student_weeks snap s weeks criteria view.criteria_keys view.weights in
          row_of_weeks s view.name_mode scored (last? scored))
        students)

  unfoldable pub build_rows : (String → String → W) → Snapshot W → String → View W → List (Ranked W)
  unfolding window_weeks student_weeks display_name mean rank_rows
  build_rows locale_compare snap week_id view =
      let criteria = filter (λ c. includes view.criteria_keys c.key) snap.criteria in
      let weeks = window_weeks snap.weeks week_id view.window_mode view.rolling_n in
      rank_rows locale_compare (rows_of snap weeks criteria view snap.students)
        snap.settings.tie_breakers
