-- ===== src/Api/Digest.antt =====
-- The digest of api.js: `digestGroup` and `getDigest`. The time stamp `computedAt` is left out.
pub mod Rows
pub mod Listed
pub mod Flagged
use Prim.Native.Nat.{max}
use league_table.Prelude.{
  ℕ, zero, suc, ◌+◌, ◌-◌, String, Bool, true, false, not, Option, none, some, List, [], ◌∷◌, map,
  if◌then◌else◌, ltb, ◌==◌, ◌===◌, or_default, find, filter, length, Dict, lookup, insert,
  from_entries, sort,
}
use league_table.Number.{Number, zero_number}
use league_table.Model.{Class, Student, Note}
use league_table.Risk.Types.{Level, Thresholds, ThresholdPatch, Signal}
use league_table.Risk.Evaluate.{Change, Evaluation, Metrics, evaluate_signals, diff_state}
use league_table.Api.Types.{
  Result, ok, api_error, Caller, RiskSettings, Snapshot, DataSource, AppStore, Env, Action, pure,
  throw, throw_if, lift, ◌>>=◌, ◌>>◌,
}
use league_table.Api.Weeks.{evaluation_week, joined_or_first}
use league_table.Api.Snapshot.{risk_weekly, hours_at_week}
use league_table.Api.Load.{load}
use league_table.Api.Evaluate.{
  RiskRow, ClassRisk, instructor_or_default, as_patch, evaluate_student_at, risk_settings_of,
  notes_of, week_or_latest, evaluate_class,
}
use league_table.Api.Table.{is_other_student}

pub record DigestRow : Type 0 where
  pub student_id : String
  pub display_name : String
  pub level : Level
  pub status : Change
  pub prior_level : Option Level
  pub signals : List String
  pub notes : ℕ

pub record DigestGroup : Type 0 where
  pub class_id : String
  pub class_name : String
  pub week : ℕ
  pub compared_with : Option ℕ
  pub rows : List DigestRow

-- `LEVEL_ORDER.indexOf(level)`
abbrev pub level_index : Level → ℕ
level_index Level.not_flagged = 0
level_index Level.watch = 1
level_index Level.at_risk = 2
level_index Level.high_risk = 3

abbrev pub is_quiet : Change → Bool
is_quiet Change.quiet = true
is_quiet Change.new = false
is_quiet Change.still = false
is_quiet Change.cleared = false

-- `noteCount.set(id, (noteCount.get(id) || 0) + 1)`
abbrev pub count_notes : Dict ℕ → List Note → Dict ℕ
count_notes counts [] = counts
count_notes counts (n ∷ ns) =
    count_notes (insert n.student_id (or_default (lookup n.student_id counts) 0 + 1) counts) ns

module _ {W : Type 0} where
  abbrev pub level_of : Option (Evaluation W) → Option Level
  level_of none = none
  level_of (some e) = some e.level

  -- `new Map(rows.map((r) => [r.student_id, r]))`
  abbrev pub by_student : List (RiskRow W) → Dict (Evaluation W)
  by_student rows = from_entries (map (λ r. (r.student_id, r.evaluation)) rows)

module _ {W : Type 0} ⦃num : Number W⦄ where
  open num use {lt}

  unfoldable pub digest_row : Dict (Evaluation W) → Dict ℕ → RiskRow W → DigestRow
  unfolding diff_state
  digest_row prior counts r =
      let before = lookup r.student_id prior in
      record {
        student_id = r.student_id;
        display_name = r.display_name;
        level = r.evaluation.level;
        status = diff_state before r.evaluation;
        prior_level = level_of before;
        signals = map (λ s. s.label) (filter (λ s. s.on) r.evaluation.signals);
        notes = or_default (lookup r.student_id counts) 0;
      }

  -- the comparator of the digest puts `a` after `b`
  abbrev pub less_urgent : (String → String → W) → DigestRow → DigestRow → Bool
  less_urgent locale_compare a b =
      if level_index b.level == level_index a.level
      then lt zero_number (locale_compare a.display_name b.display_name)
      else ltb (level_index a.level) (level_index b.level)

  unfoldable pub digest_rows :
      (String → String → W) → List (RiskRow W) → List (RiskRow W) → List Note → List DigestRow
  unfolding digest_row
  digest_rows locale_compare prior current notes = sort (less_urgent locale_compare) (
      filter (λ r. not (is_quiet r.status))
        (map (digest_row (by_student prior) (count_notes [] notes)) current))

  module _ {S : Type 0} (source : DataSource W) (store : AppStore W S) where
    -- the prior week's evaluation, from week 2 on
    unfoldable pub evaluate_prior : Env → String → ℕ → Action W S (List (RiskRow W) × Option ℕ)
    unfolding evaluate_class
    evaluate_prior env class_id week =
        if ltb 1 week
        then (do
          prior ← evaluate_class source store env class_id (some (week - 1))
          pure (prior.rows, some prior.week))
        else pure ([], none)

    unfoldable pub digest_group :
        (String → String → W) → Env → Class → Option ℕ → String → Action W S DigestGroup
    unfolding evaluate_class evaluate_prior digest_rows
    digest_group locale_compare env klass week instructor_id = do
      current ← evaluate_class source store env klass.id week
      prior ← evaluate_prior env klass.id current.week
      notes ← notes_of source store klass.id none instructor_id
      pure (record {
        class_id = klass.id;
        class_name = klass.name;
        week = current.week;
        compared_with = prior.1;
        rows = digest_rows locale_compare prior.0 current.rows notes;
      })

    abbrev digest_groups :
        (String → String → W) → Env → Option ℕ → String → List Class → Action W S (List DigestGroup)
    digest_groups locale_compare env week instructor_id [] = pure []
    digest_groups locale_compare env week instructor_id (k ∷ ks) = do
      group ← digest_group locale_compare env k week instructor_id
      groups ← digest_groups locale_compare env week instructor_id ks
      pure (group ∷ groups)

    unfoldable pub get_digest :
        (String → String → W) → Env → Option ℕ → Caller → Action W S (List DigestGroup)
    unfolding digest_group
    get_digest locale_compare env week caller = do
      let instructor_id = instructor_or_default caller.instructor_id
      classes ← lift (source.list_classes instructor_id)
      digest_groups locale_compare env week instructor_id classes
