-- ===== src/Api/Load.antt =====
-- `load`, `maybeFail` and `dataCheck` of api.js: the snapshot cache of each class.
pub mod Outcome
use Prim.Native.String.{◌++◌}
use league_table.Prelude.{
  ℕ, ◌+◌, String, Bool, true, false, not, ◌&&◌, Option, none, some, List, if◌then◌else◌, ltb, any,
  map, present, lookup, insert, ◌===◌,
}
use league_table.Number.{Number, is_number}
use league_table.Model.{Student, Entry}
use league_table.Api.Types.{
  Error, api_error, Result, ok, err, Issue, Snapshot, EntryQuery, DataSource, AppStore, ApiState,
  Env, Action, then_read,
}

-- `CACHE_TTL_MS`
abbrev pub cache_ttl : ℕ
cache_ttl = 60000

abbrev pub is_student : List Student → String → Bool
is_student students id = any (λ s. s.id === id) students

-- `{ classId }`
abbrev pub class_query : String → EntryQuery
class_query class_id = record { class_id = some class_id; week_ids = none; criterion_keys = none }

module _ {W : Type 0} ⦃num : Number W⦄ where
  open num use {lt, show}

  abbrev pub issue : String → Entry W → String → Issue
  issue level e message = record { level = level; where_found = e.id; message = message }

  -- the two later tests of `dataCheck`, on an entry's numbers
  abbrev pub number_issue : Entry W → Option W → Option W → Option Issue
  number_issue e none possible = some (issue "error" e ("Non-numeric score for " ++ e.student_id))
  number_issue e (some earned) none =
      if is_number earned
      then none
      else some (issue "error" e ("Non-numeric score for " ++ e.student_id))
  number_issue e (some earned) (some possible) =
      if not (is_number earned)
      then some (issue "error" e ("Non-numeric score for " ++ e.student_id))
      else if lt possible earned
      then some (
          issue "warning" e (
            ((((e.student_id ++ ": ") ++ show earned) ++ " earned of ") ++ show possible)
            ++ " possible"))
      else none

  abbrev pub entry_issue : List Student → Entry W → Option Issue
  entry_issue students e =
      if not (is_student students e.student_id)
      then some (issue "error" e (("Unknown student ID \"" ++ e.student_id) ++ "\""))
      else number_issue e e.earned e.possible

  unfoldable pub data_check : List Student → List (Entry W) → List Issue
  data_check students entries = present (map (entry_issue students) entries)

  module _ {S : Type 0} (source : DataSource W) (store : AppStore W S) where
    -- the random failure of `failRate`
    abbrev drawn_error : Env → Option Error
    drawn_error env =
        if env.drawn_failure then some (api_error "The data source did not respond." 503) else none

    -- `forcedError`, where an empty message is no error, then the random failure
    abbrev pub fail_first : Env → Option String → Option Error
    fail_first env none = drawn_error env
    fail_first env (some message) =
        if message === "" then drawn_error env else some (api_error message 503)

    -- the reads of `load`, checked
    unfoldable pub read_all : Env → S → String → Result (Snapshot W)
    unfolding data_check
    read_all env state class_id = then_read (source.list_students class_id) λ students.
        then_read (source.list_criteria class_id) λ criteria.
          then_read (source.list_weeks "t1") λ weeks.
            then_read (source.get_entries (class_query class_id)) λ entries.
              then_read (store.list_baselines state class_id) λ baselines.
                then_read (store.list_weekly_updates state class_id) λ weekly_updates.
                  then_read (store.get_league_settings state class_id) λ settings. ok (record {
                    at = env.read_at;
                    stale = false;
                    class_id = class_id;
                    students = students;
                    criteria = criteria;
                    weeks = weeks;
                    entries = entries;
                    baselines = baselines;
                    weekly_updates = weekly_updates;
                    settings = settings;
                    issues = data_check students entries;
                  })

    abbrev pub attempt : Env → ApiState W S → String → Option Error → Result (Snapshot W)
    attempt env s class_id (some e) = err e
    attempt env s class_id none = read_all env s.store class_id

    abbrev pub put_cache : String → Snapshot W → ApiState W S → ApiState W S
    put_cache class_id snap s = record s { caches = insert class_id snap s.caches }

    -- the `catch` of `load`: the last good snapshot, marked stale, or the error
    abbrev pub fall_back :
        String → Option (Snapshot W) → Error → ApiState W S → Result (Snapshot W) × ApiState W S
    fall_back class_id none e s = (err e, s)
    fall_back class_id (some cached) e s =
        let stale_snap : Snapshot W = record cached { stale = true } in
        (ok stale_snap, put_cache class_id stale_snap s)

    abbrev pub is_fresh : Env → Option (Snapshot W) → Bool
    is_fresh env none = false
    is_fresh env (some cached) = ltb env.called_at (cached.at + cache_ttl)

    abbrev pub settle :
        String
        → Option (Snapshot W)
        → Result (Snapshot W)
        → ApiState W S
        → Result (Snapshot W) × ApiState W S
    settle class_id cached (ok snap) s = (ok snap, put_cache class_id snap s)
    settle class_id cached (err e) s = fall_back class_id cached e s

    abbrev pub cached_or :
        Option (Snapshot W)
        → Result (Snapshot W) × ApiState W S
        → ApiState W S
        → Result (Snapshot W) × ApiState W S
    cached_or none loaded s = loaded
    cached_or (some cached) loaded s = (ok cached, s)

    unfoldable pub load : Env → String → Bool → Action W S (Snapshot W)
    unfolding read_all
    load env class_id force s =
        let cached = lookup class_id s.caches in
        let loaded =
          settle class_id cached (attempt env s class_id (fail_first env s.forced_error)) s in
        if not force && is_fresh env cached then cached_or cached loaded s else loaded
