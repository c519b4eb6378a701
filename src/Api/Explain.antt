-- ===== src/Api/Explain.antt =====
-- `getExplanation`, `getExplainer` and `getCommitments` of api.js.
pub mod Agrees
use league_table.Prelude.{
  ℕ, String, Bool, false, Option, none, some, List, [], ◌∷◌, map, reverse, ltb, ◌===◌, find,
  find_index, get_elem?, last?, take, Dict,
}
use league_table.Number.{Number, whole}
use league_table.Model.{Hours, WeekRow, Ranked, Settings, Baseline, WeeklyUpdate}
use league_table.Scoring.Commitment.{resolve_hours, weighted_hours, commitment_factor, adjust}
use league_table.Scoring.Ranking.{gap_to_next, gap_to_below}
use league_table.Api.Types.{
  Result, ok, err, api_error, type_error, Caller, Snapshot, Commitments, DataSource, AppStore, Env,
  Action, pure, throw_if, lift, ◌>>=◌, ◌>>◌,
}
use league_table.Api.Snapshot.{build_rows}
use league_table.Api.Load.{load}
use league_table.Api.Table.{Request, is_other_student, view_of}

-- One week of an explanation.
pub record WeekLine (W : Type 0) : Type 0 where
  pub week_number : ℕ
  pub raw : W
  pub weighted_hours : W
  pub factor : W
  pub adjusted : Option W
  pub capped : Bool

pub record Explanation (W : Type 0) : Type 0 where
  pub display_name : String
  pub rank : ℕ
  pub tied : Bool
  pub score : Option W
  pub raw : Option W
  pub factor : Option W
  pub weighted_hours : Option W
  pub capped : Bool
  -- the last scored week of the window
  pub focus : WeekRow W
  pub type_weights : Dict W
  pub rate : W
  pub cap : W
  pub weeks : List (WeekLine W)
  pub gap_to_next : Option W
  pub gap_to_below : Option W
  pub above : Option String

pub record Explainer (W : Type 0) : Type 0 where
  pub type_weights : Dict W
  pub rate : W
  pub cap : W
  pub table : List (W × W)
  pub example_hours : W
  pub example_factor : W
  pub example_adjusted : Option W

-- One week of a student's commitments.
pub record CommitmentWeek (W : Type 0) : Type 0 where
  pub week_number : ℕ
  pub hours : Hours W
  pub source : String
  pub weighted_hours : W
  pub factor : W

pub record CommitmentReport (W : Type 0) : Type 0 where
  pub baseline : Option (Baseline W)
  pub weekly_updates : List (WeeklyUpdate W)
  pub by_week : List (CommitmentWeek W)

module _ {W : Type 0} ⦃num : Number W⦄ where
  abbrev line_of : WeekRow W → WeekLine W
  line_of r = record {
    week_number = r.week_number;
    raw = r.raw;
    weighted_hours = r.weighted_hours;
    factor = r.factor;
    adjusted = r.adjusted;
    capped = r.capped;
  }

  abbrev name_of : Option (Ranked W) → Option String
  name_of none = none
  name_of (some r) = some r.display_name

  abbrev pub explanation_at :
      Snapshot W → List (Ranked W) → ℕ → Ranked W → WeekRow W → Explanation W
  explanation_at snap rows i row focus = record {
    display_name = row.display_name;
    rank = row.rank;
    tied = row.tied;
    score = row.score;
    raw = row.raw;
    factor = row.factor;
    weighted_hours = row.weighted_hours;
    capped = row.capped;
    focus = focus;
    type_weights = snap.settings.type_weights;
    rate = snap.settings.rate;
    cap = snap.settings.cap;
    weeks = map line_of row.weeks;
    gap_to_next = gap_to_next rows i;
    gap_to_below = gap_to_below rows i;
    above = name_of (find (λ r. ltb r.rank row.rank) (reverse (take i rows)));
  }

  abbrev pub explain_row :
      Snapshot W → List (Ranked W) → ℕ → Ranked W → Option (WeekRow W) → Result (Explanation W)
  explain_row snap rows i row none = err type_error
  explain_row snap rows i row (some focus) = ok (explanation_at snap rows i row focus)

  abbrev pub explain_at : Snapshot W → List (Ranked W) → Option ℕ → Result (Explanation W)
  explain_at snap rows none = err (api_error "No entries for that student in this window." 404)
  explain_at snap rows (some i) = elim (get_elem? rows i) [
    | none ↦ err type_error
    | some row ↦ explain_row snap rows i row (last? row.weeks)
  ]

  unfoldable pub explanation_of :
      (String → String → W) → Snapshot W → Request W → String → Result (Explanation W)
  unfolding build_rows gap_to_next gap_to_below
  explanation_of locale_compare snap request student_id =
      let rows = build_rows locale_compare snap request.week_id (view_of snap request) in
      explain_at snap rows (find_index (λ r. r.student_id === student_id) rows)

  -- `EXPLAINER_EXAMPLE`
  abbrev pub example_raw : W
  example_raw = whole 80

  abbrev pub example_hours : Hours W
  example_hours = record { work = whole 12; childcare = whole 6; eldercare = whole 0 }

  unfoldable pub explainer_of : Settings W → Explainer W
  unfolding weighted_hours commitment_factor adjust
  explainer_of settings =
      let h = weighted_hours example_hours settings.type_weights in
      let factor = commitment_factor h settings.rate settings.cap in
      record {
        type_weights = settings.type_weights;
        rate = settings.rate;
        cap = settings.cap;
        table =
            map (λ hours. (hours, commitment_factor hours settings.rate settings.cap))
              (whole 0 ∷ whole 10 ∷ whole 20 ∷ whole 25 ∷ []);
        example_hours = h;
        example_factor = factor;
        example_adjusted = (adjust (some example_raw) factor).adjusted;
      }

  unfoldable pub report_of : Snapshot W → Commitments W → CommitmentReport W
  unfolding resolve_hours weighted_hours commitment_factor
  report_of snap own = record {
    baseline = own.baseline;
    weekly_updates = own.weekly_updates;
    by_week =
        map
          (λ w.
            let resolved = resolve_hours own.baseline own.weekly_updates w.week_number in
            let h = weighted_hours resolved.hours snap.settings.type_weights in
            record {
              week_number = w.week_number;
              hours = resolved.hours;
              source = resolved.source;
              weighted_hours = h;
              factor = commitment_factor h snap.settings.rate snap.settings.cap;
            })
          snap.weeks;
  }

  module _ {S : Type 0} (source : DataSource W) (store : AppStore W S) where
    unfoldable pub get_explanation :
        (String → String → W) → Env → Request W → String → Action W S (Explanation W)
    unfolding load explanation_of
    get_explanation locale_compare env request student_id = do
      throw_if (is_other_student request.caller student_id)
          (api_error "A student may only open their own breakdown." 403)
      snap ← load source store env request.class_id false
      lift (explanation_of locale_compare snap request student_id)

    unfoldable pub get_explainer : Env → String → Action W S (Explainer W)
    unfolding load explainer_of
    get_explainer env class_id = do
      snap ← load source store env class_id false
      pure (explainer_of snap.settings)

    unfoldable pub get_commitments :
        Env → String → String → Caller → Action W S (CommitmentReport W)
    unfolding load report_of
    get_commitments env class_id student_id caller = do
      throw_if (is_other_student caller student_id)
          (api_error "A student may only read their own commitments." 403)
      snap ← load source store env class_id false
      own ← λ s. (store.get_commitments s.store class_id student_id, s)
      pure (report_of snap own)
