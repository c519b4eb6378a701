-- ===== src/Store.antt =====
-- `createToyAppStore` of frontend/services/mockSource.js: the in-memory app store, as an
-- implementation of the interface that api.js receives. For a class that it does not hold the
-- JavaScript reads `undefined`: the reads of a field throw, as here, and `getLeagueSettings` and
-- `getRiskSettings`, which return an object without the settings, are modelled by the same error.
pub mod Seed
pub mod Initial
pub mod ReadBack
pub mod Notes
use Prim.Native.String.{◌++◌}
use league_table.Prelude.{
  ℕ, ◌+◌, String, Bool, not, ◌&&◌, ◌||◌, Option, none, some, List, [], ◌∷◌, ◌===◌, or_default,
  or_else, filter, find, length, Dict, lookup, insert, from_entries_onto, count_text,
}
use mathlib.Core.List
use league_table.Model.{Baseline, WeeklyUpdate, Settings, Note}
use league_table.Risk.Types.{Thresholds, ThresholdPatch, merge_thresholds}
use league_table.Api.Types.{
  Result, ok, err, type_error, RiskSettings, RiskPatch, SettingsPatch, NoteDraft, Commitments,
  AppStore,
}

-- A line of the change log; its old and new values are texts here.
pub record LogEntry : Type 0 where
  pub id : String
  pub actor_id : String
  pub action : String
  pub student_id : String
  pub week_id : String
  pub at : String

-- What a class has on file.
pub record Filed (W : Type 0) : Type 0 where
  pub baselines : List (Baseline W)
  pub weekly_updates : List (WeeklyUpdate W)

-- The variables of `createToyAppStore`. The `weights` of a class stand apart from its settings.
pub record ToyStore (W : Type 0) : Type 0 where
  pub settings : Dict (Settings W)
  pub weights : Dict (Dict W)
  pub commitments : Dict (Filed W)
  pub risk_settings : Dict (RiskSettings W)
  pub notes : List Note
  pub log : List LogEntry

abbrev pub or_throw : {A : Type 0} → Option A → Result A
or_throw none = err type_error
or_throw (some a) = ok a

-- the filter of `listNotes`: an absent or empty student stands for all
abbrev pub of_student : Option String → Note → Bool
of_student none n = Bool.true
of_student (some id) n = id === "" || n.student_id === id

abbrev pub is_listed : String → Option String → String → Note → Bool
is_listed class_id student_id instructor_id n =
    n.class_id === class_id && n.instructor_id === instructor_id && of_student student_id n

abbrev pub new_note : ℕ → NoteDraft → String → Note
new_note count draft now_text = record {
  id = "n" ++ count_text (count + 1);
  instructor_id = draft.instructor_id;
  class_id = draft.class_id;
  student_id = draft.student_id;
  body = draft.body;
  created_at = now_text;
}

module _ {W : Type 0} where
  abbrev pub with_weights : Option (Settings W) → Option (Dict W) → Result (Settings W)
  with_weights none weights = err type_error
  with_weights (some settings) weights = ok (record settings { weights = weights })

  unfoldable pub get_league_settings : ToyStore W → String → Result (Settings W)
  get_league_settings s class_id =
      with_weights (lookup class_id s.settings) (lookup class_id s.weights)

  -- `{ ...settings, ...rest }`; the weights are kept apart
  abbrev pub merge_settings : Settings W → SettingsPatch W → Settings W
  merge_settings settings patch = record {
    type_weights = or_default patch.type_weights settings.type_weights;
    rate = or_default patch.rate settings.rate;
    cap = or_default patch.cap settings.cap;
    tie_breakers = or_default patch.tie_breakers settings.tie_breakers;
    weights = settings.weights;
  }

  abbrev pub put_weights : String → Option (Dict W) → Dict (Dict W) → Dict (Dict W)
  put_weights class_id none all = all
  put_weights class_id (some weights) all = insert class_id weights all

  abbrev pub put_settings :
      String → SettingsPatch W → Option (Settings W) → Dict (Settings W) → Dict (Settings W)
  put_settings class_id patch none all = all
  put_settings class_id patch (some settings) all =
      insert class_id (merge_settings settings patch) all

  unfoldable pub save_league_settings :
      ToyStore W → String → SettingsPatch W → Result (Settings W) × ToyStore W
  unfolding get_league_settings
  save_league_settings s class_id patch =
      let next : ToyStore W = record s {
        weights = put_weights class_id patch.weights s.weights;
        settings = put_settings class_id patch (lookup class_id s.settings) s.settings;
      } in
      (get_league_settings next class_id, next)

  abbrev baselines_of : Option (Filed W) → Result (List (Baseline W))
  baselines_of none = err type_error
  baselines_of (some c) = ok c.baselines

  abbrev updates_on_file : Option (Filed W) → Result (List (WeeklyUpdate W))
  updates_on_file none = err type_error
  updates_on_file (some c) = ok c.weekly_updates

  unfoldable pub list_baselines : ToyStore W → String → Result (List (Baseline W))
  list_baselines s class_id = baselines_of (lookup class_id s.commitments)

  unfoldable pub list_weekly_updates : ToyStore W → String → Result (List (WeeklyUpdate W))
  list_weekly_updates s class_id = updates_on_file (lookup class_id s.commitments)

  abbrev own_commitments : String → Option (Filed W) → Result (Commitments W)
  own_commitments student_id none = err type_error
  own_commitments student_id (some c) = ok (record {
    baseline =
        find (λ b. b.student_id === student_id && not (b.status === "superseded")) c.baselines;
    weekly_updates = filter (λ u. u.student_id === student_id) c.weekly_updates;
  })

  unfoldable pub get_commitments : ToyStore W → String → String → Result (Commitments W)
  get_commitments s class_id student_id = own_commitments student_id (lookup class_id s.commitments)

  unfoldable pub get_risk_settings : ToyStore W → String → Result (RiskSettings W)
  get_risk_settings s class_id = or_throw (lookup class_id s.risk_settings)

  abbrev patch_thresholds : Thresholds W → Option (ThresholdPatch W) → Thresholds W
  patch_thresholds t none = t
  patch_thresholds t (some patch) = merge_thresholds t patch

  -- `{ ...riskSettings.active, ...(patch.active || {}) }`
  abbrev pub merge_risk : RiskSettings W → RiskPatch W → RiskSettings W
  merge_risk settings patch = record {
    thresholds = patch_thresholds settings.thresholds patch.thresholds;
    active = from_entries_onto settings.active (or_default patch.active []);
  }

  abbrev pub save_risk :
      ToyStore W
      → String
      → RiskPatch W
      → Option (RiskSettings W)
      → Result (RiskSettings W) × ToyStore W
  save_risk s class_id patch none = (err type_error, s)
  save_risk s class_id patch (some settings) =
      let next = merge_risk settings patch in
      (ok next, record s { risk_settings = insert class_id next s.risk_settings })

  unfoldable pub save_risk_settings :
      ToyStore W → String → RiskPatch W → Result (RiskSettings W) × ToyStore W
  unfolding merge_thresholds
  save_risk_settings s class_id patch = save_risk s class_id patch (lookup class_id s.risk_settings)

  unfoldable pub add_note : ToyStore W → NoteDraft → String → Result Note × ToyStore W
  add_note s draft now_text =
      let note = new_note (length s.notes) draft now_text in
      (ok note, record s { notes = List.◌++◌ s.notes (note ∷ []) })

  unfoldable pub list_notes : ToyStore W → String → Option String → String → Result (List Note)
  list_notes s class_id student_id instructor_id =
      ok (filter (is_listed class_id student_id instructor_id) s.notes)

  -- the entry's own id and time, if it has any, are those that stand; here it has none
  unfoldable pub append_log : ToyStore W → LogEntry → String → LogEntry × ToyStore W
  append_log s entry now_text =
      let line : LogEntry = record entry {
        id = "l" ++ count_text (length s.log + 1);
        at = now_text;
      } in
      (line, record s { log = List.◌++◌ s.log (line ∷ []) })

  -- whatever the class
  unfoldable pub list_log : ToyStore W → String → List LogEntry
  list_log s class_id = s.log

  -- the object that `createToyAppStore` returns
  abbrev pub toy_app_store : AppStore W (ToyStore W)
  toy_app_store = record {
    label = "In memory";
    get_league_settings = get_league_settings;
    save_league_settings = save_league_settings;
    list_baselines = list_baselines;
    list_weekly_updates = list_weekly_updates;
    get_commitments = get_commitments;
    get_risk_settings = get_risk_settings;
    save_risk_settings = save_risk_settings;
    add_note = add_note;
    list_notes = list_notes;
  }
