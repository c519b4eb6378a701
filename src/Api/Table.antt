-- ===== src/Api/Table.antt =====
-- `previousRanks`, `scopeRow` and `getRanking` of api.js: the ranked table and who sees what of it.
pub mod Privacy
pub mod Ranks
use league_table.Prelude.{
  ℕ, zero, suc, String, Bool, true, false, not, ◌&&◌, ◌||◌, Option, none, some, List, [], ◌∷◌, map,
  if◌then◌else◌, ◌===◌, find_index, get_elem?, length, Dict, lookup, from_entries, ℤ, sub_ℕ,
}
use league_table.Number.{Number}
use league_table.Model.{Ranked, Week}
use league_table.Scoring.Ranking.{gap_to_next, gap_to_below}
use league_table.Api.Types.{
  api_error, Issue, Caller, Snapshot, DataSource, AppStore, Env, Action, pure, throw_if, ◌>>=◌,
  ◌>>◌,
}
use league_table.Api.Weeks.{window_weeks}
use league_table.Api.Snapshot.{View, all_keys_unless_given, resolved_weights, build_rows}
use league_table.Api.Load.{load}

-- `text === value`, where the value may be absent
abbrev pub is_text : Option String → String → Bool
is_text none s = false
is_text (some t) s = t === s

-- `caller.role === 'student'`
abbrev pub is_student_role : Caller → Bool
is_student_role caller = caller.role === "student"

-- the test of `requireOwnStudent`
abbrev pub is_other_student : Caller → String → Bool
is_other_student caller student_id =
    is_student_role caller && not (is_text caller.student_id student_id)

-- What every reader of a table receives of a row.
pub record PublicRow (W : Type 0) : Type 0 where
  pub student_id : String
  pub display_name : String
  pub score : Option W
  pub rank : ℕ
  pub tied : Bool
  pub rank_delta : Option ℤ
  pub gap_to_next : Option W
  pub gap_to_below : Option W
  pub missing : List String
  pub is_self : Bool

-- What only an instructor and the student receive.
pub record PrivateRow (W : Type 0) : Type 0 where
  pub raw : Option W
  pub factor : Option W
  pub weighted_hours : Option W
  pub capped : Bool
  pub hours_source : String

pub record ScopedRow (W : Type 0) : Type 0 where
  pub public : PublicRow W
  pub private : Option (PrivateRow W)

-- a ranked row with what `getRanking` adds
pub record Decorated (W : Type 0) : Type 0 where
  pub ranked : Ranked W
  pub open ranked use *
  pub rank_delta : Option ℤ
  pub gap_to_next : Option W
  pub gap_to_below : Option W
  pub is_self : Bool

-- A request for a table or an explanation.
pub record Request (W : Type 0) : Type 0 where
  pub class_id : String
  pub week_id : String
  pub window_mode : String
  pub rolling_n : ℕ
  pub criteria_keys : List String
  pub weights : Option (Dict W)
  pub name_mode : String
  pub caller : Caller

pub record Ranking (W : Type 0) : Type 0 where
  pub criteria_keys : List String
  pub weights : Dict W
  pub rows : List (ScopedRow W)
  pub week_count : ℕ
  pub last_updated : ℕ
  pub stale : Bool
  pub issues : List Issue

abbrev week_before : List Week → Option ℕ → Option Week
week_before weeks none = none
week_before weeks (some zero) = none
week_before weeks (some (suc i)) = get_elem? weeks i

abbrev delta_from : Option ℕ → ℕ → Option ℤ
delta_from none rank = none
delta_from (some before) rank = some (sub_ℕ before rank)

-- an absent or empty class of a caller matches all
abbrev class_matches : String → Option String → Bool
class_matches class_id none = true
class_matches class_id (some id) = id === "" || id === class_id

-- a student may not read another class, where the caller names a class
abbrev pub is_other_class : Caller → String → Bool
is_other_class caller class_id =
    is_student_role caller && not (class_matches class_id caller.class_id)

module _ {W : Type 0} ⦃num : Number W⦄ where
  abbrev pub ranks_of : List (Ranked W) → Dict ℕ
  ranks_of rows = from_entries (map (λ r. (r.student_id, r.rank)) rows)

  abbrev rows_before : (String → String → W) → Snapshot W → View W → Option Week → Dict ℕ
  rows_before locale_compare snap view none = []
  rows_before locale_compare snap view (some w) =
      ranks_of (build_rows locale_compare snap w.id view)

  unfoldable pub previous_ranks : (String → String → W) → Snapshot W → String → View W → Dict ℕ
  unfolding build_rows
  previous_ranks locale_compare snap week_id view =
      rows_before locale_compare snap view
        (week_before snap.weeks (find_index (λ w. w.id === week_id) snap.weeks))

  abbrev public_of : Decorated W → PublicRow W
  public_of row = record {
    student_id = row.student_id;
    display_name = row.display_name;
    score = row.score;
    rank = row.rank;
    tied = row.tied;
    rank_delta = row.rank_delta;
    gap_to_next = row.gap_to_next;
    gap_to_below = row.gap_to_below;
    missing = row.missing_keys;
    is_self = row.is_self;
  }

  abbrev pub private_of : Decorated W → PrivateRow W
  private_of row = record {
    raw = row.raw;
    factor = row.factor;
    weighted_hours = row.weighted_hours;
    capped = row.capped;
    hours_source = row.hours_source;
  }

  unfoldable pub scope_row : Decorated W → Caller → ScopedRow W
  scope_row row caller = record {
    public = public_of row;
    private =
        if caller.role === "instructor" || is_text caller.student_id row.student_id
        then some (private_of row)
        else none;
  }

  abbrev pub decorate : List (Ranked W) → Dict ℕ → Caller → ℕ → Ranked W → Decorated W
  decorate rows previous caller i r = record {
    ranked = r;
    rank_delta = delta_from (lookup r.student_id previous) r.rank;
    gap_to_next = gap_to_next rows i;
    gap_to_below = gap_to_below rows i;
    is_self = is_student_role caller && is_text caller.student_id r.student_id;
  }

  -- `rows.map((r, i) => scopeRow(…))`
  unfoldable pub scope_rows :
      List (Ranked W) → Dict ℕ → Caller → ℕ → List (Ranked W) → List (ScopedRow W)
  unfolding scope_row gap_to_next gap_to_below
  scope_rows all previous caller i [] = []
  scope_rows all previous caller i (r ∷ rs) =
      scope_row (decorate all previous caller i r) caller
      ∷ scope_rows all previous caller (suc i) rs

  abbrev pub view_of : Snapshot W → Request W → View W
  view_of snap request =
      let keys = all_keys_unless_given request.criteria_keys snap.criteria in
      record {
        window_mode = request.window_mode;
        rolling_n = request.rolling_n;
        weights = resolved_weights snap keys request.weights;
        criteria_keys = keys;
        name_mode = request.name_mode;
      }

  unfoldable pub ranking_of : (String → String → W) → Snapshot W → Request W → Ranking W
  unfolding previous_ranks scope_rows build_rows window_weeks resolved_weights
  ranking_of locale_compare snap request =
      let view = view_of snap request in
      let rows = build_rows locale_compare snap request.week_id view in
      let previous = previous_ranks locale_compare snap request.week_id view in
      record {
        criteria_keys = view.criteria_keys;
        weights = view.weights;
        rows = scope_rows rows previous request.caller 0 rows;
        week_count =
            length (window_weeks snap.weeks request.week_id request.window_mode request.rolling_n);
        last_updated = snap.at;
        stale = snap.stale;
        issues = snap.issues;
      }

  module _ {S : Type 0} (locale_compare : String → String → W) (source : DataSource W)
      (store : AppStore W S) where
    unfoldable pub get_ranking : Env → Request W → Action W S (Ranking W)
    unfolding load ranking_of
    get_ranking env request = do
      snap ← load source store env request.class_id false
      throw_if (is_other_class request.caller request.class_id)
          (api_error "That class is not yours to read." 403)
      pure (ranking_of locale_compare snap request)
