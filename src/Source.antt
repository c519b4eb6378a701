-- ===== src/Source.antt =====
-- `createToySource` of frontend/services/mockSource.js: the seeded data source, as an implementation
-- of the interface that api.js receives.
pub mod Random
pub mod Fixtures
pub mod Entries
pub mod Enrolled
pub mod Twins
pub mod Checked
use league_table.Prelude.{
  String, Bool, true, ◌&&◌, or_default, includes, Option, none, some, List, [], map, filter, find,
  ◌===◌, Dict, lookup,
}
use league_table.Number.{Number}
use league_table.Model.{Class, Student, Criterion, Week, Entry}
use league_table.Api.Types.{ok, EntryQuery, DataSource}
use league_table.Source.Fixtures.{
  ToyCriterion, classes, criteria_of, build_weeks, build_students, accounts,
}
use league_table.Source.Entries.{build_entries}

-- `byClass[classId]`, where the class is one of the two
abbrev pub held : {A : Type 0} → String → List A → List A
held class_id items = elim (find (λ c. c.id === class_id) classes) [ none ↦ [] | some c ↦ items ]

-- an absent list of values lets everything through
abbrev pub is_wanted : Option (List String) → String → Bool
is_wanted none value = true
is_wanted (some values) value = includes values value

module _ {W : Type 0} ⦃num : Number W⦄ where
  -- the filter of `getEntries`
  abbrev pub is_asked : EntryQuery → Entry W → Bool
  is_asked query e =
      is_wanted query.week_ids e.week_id && is_wanted query.criterion_keys e.criterion_key

  unfoldable pub toy_entries : EntryQuery → List (Entry W)
  unfolding build_students build_weeks build_entries
  toy_entries query =
      let class_id = or_default query.class_id "c1" in
      filter (is_asked query)
        (held class_id (build_entries class_id (build_students class_id) build_weeks))

  abbrev pub listed_criterion : ToyCriterion W → Criterion W
  listed_criterion c = record { key = c.key; label = c.label; default_weight = c.default_weight }

  unfoldable pub toy_source : DataSource W
  unfolding build_students build_weeks toy_entries
  toy_source = record {
    kind = "toy";
    label = "Demo data";
    list_accounts = some (ok accounts);
    list_classes = λ instructor_id. ok (filter (λ c. c.instructor_id === instructor_id) classes);
    list_students = λ class_id. ok (held class_id (build_students class_id));
    list_criteria = λ class_id. ok (map listed_criterion (criteria_of class_id));
    list_weeks = λ term_id. ok build_weeks;
    get_entries = λ query. ok (toy_entries query);
  }
