-- ===== src/Api/Bootstrap.antt =====
-- `getBootstrap`, `listClasses` and `describeSource` of api.js.
use league_table.Prelude.{
  ℕ, String, Bool, false, none, some, Option, List, [], ◌∷◌, map, if◌then◌else◌, ◌===◌, or_default,
  find, first?, or_else, Dict, includes,
}
use league_table.Number.{Number}
use league_table.Model.{Class, Week, Criterion}
use league_table.Api.Types.{
  Result, ok, Account, Issue, Snapshot, DataSource, AppStore, Env, Action, pure, lift, ◌>>=◌,
}
use league_table.Api.Weeks.{latest_complete_week}
use league_table.Api.Snapshot.{default_weights_of}
use league_table.Api.Load.{load}

pub record SourceInfo : Type 0 where
  pub kind : String
  pub label : String
  pub demo : Bool
  pub store : String

pub record Bootstrap (W : Type 0) : Type 0 where
  pub klass : Option Class
  pub classes : List Class
  pub weeks : List Week
  pub criteria : List (Criterion W)
  pub weights : Dict W
  pub default_weights : Dict W
  pub type_weights : Dict W
  pub rate : W
  pub cap : W
  pub tie_breakers : List String
  pub weeks_with_data : List String
  pub latest_complete_week_id : Option String
  pub accounts : List Account
  pub source : SourceInfo
  pub last_updated : ℕ
  pub issues : List Issue

-- `source.listAccounts ? await source.listAccounts() : []`
abbrev pub accounts_or_none : Option (Result (List Account)) → Result (List Account)
accounts_or_none none = ok []
accounts_or_none (some r) = r

-- `[...new Set(texts)]`
abbrev pub unique_onto : List String → List String → List String
unique_onto seen [] = []
unique_onto seen (t ∷ ts) =
    let rest = unique_onto (t ∷ seen) ts in if includes seen t then rest else t ∷ rest

module _ {W : Type 0} ⦃num : Number W⦄ where
  abbrev label_or_key : List (Criterion W) → String → String
  label_or_key [] key = key
  label_or_key (c ∷ cs) key =
      let rest = label_or_key cs key in if c.key === key then c.label else rest

  unfoldable pub bootstrap_of :
      Snapshot W → String → List Class → List Account → Option String → SourceInfo → Bootstrap W
  unfolding default_weights_of
  bootstrap_of snap class_id classes accounts latest info =
      let defaults = default_weights_of snap.criteria in
      record {
        klass = or_else (find (λ c. c.id === class_id) classes) (first? classes);
        classes = classes;
        weeks = snap.weeks;
        criteria = snap.criteria;
        weights = or_default snap.settings.weights defaults;
        default_weights = defaults;
        type_weights = snap.settings.type_weights;
        rate = snap.settings.rate;
        cap = snap.settings.cap;
        tie_breakers = map (label_or_key snap.criteria) snap.settings.tie_breakers;
        weeks_with_data = unique_onto [] (map (λ e. e.week_id) snap.entries);
        latest_complete_week_id = latest;
        accounts = accounts;
        source = info;
        last_updated = snap.at;
        issues = snap.issues;
      }

  module _ {S : Type 0} (source : DataSource W) (store : AppStore W S) where
    unfoldable pub describe_source : SourceInfo
    describe_source = record {
      kind = source.kind;
      label = source.label;
      demo = source.kind === "toy";
      store = store.label;
    }

    unfoldable pub list_classes : String → Action W S (List Class)
    list_classes instructor_id = lift (source.list_classes instructor_id)

    unfoldable pub get_bootstrap : Env → String → Action W S (Bootstrap W)
    unfolding load bootstrap_of latest_complete_week describe_source
    get_bootstrap env class_id = do
      snap ← load source store env class_id false
      classes ← lift (source.list_classes "i1")
      accounts ← lift (accounts_or_none source.list_accounts)
      latest ← lift (latest_complete_week snap)
      pure (bootstrap_of snap class_id classes accounts latest describe_source)
