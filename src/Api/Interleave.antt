-- ===== src/Api/Interleave.antt =====
-- The asynchronous calls of api.js that are in flight together. `load` suspends once, between its
-- reads and its write of the cache, and `saveSettings` once, between the store and the cache; so a
-- call is a task with what it still holds, and a run is any order of the tasks' steps.
pub mod Sound
pub mod Apart
pub mod Coherent
pub mod Race
pub mod Serial
pub mod Finish
use league_table.Prelude.{ℕ, ◌+◌, ◌≤◌, String, ◌≡◌, Bool, Option, List, ◌∷◌, lookup, Take}
use league_table.Number.{Number}
use league_table.Model.{Settings}
use league_table.Api.Types.{
  Error, Result, ok, err, Snapshot, RiskPatch, SettingsPatch, NoteDraft, DataSource, AppStore,
  ApiState, Env,
}
use league_table.Api.Load.{fail_first, attempt, settle}
use league_table.Api.Load.Outcome.{MustRead}
use league_table.Api.Writes.{refresh_cooldown, update_cached}

-- A call in flight: a load before its reads or with their result, each with the snapshot that it
-- found cached, or a save whose answer the cache has not yet.
pub data Task (W : Type 0) : Type 0 where
  loading : String → Option (Snapshot W) → Option Error → Task W
  loaded : String → Option (Snapshot W) → Result (Snapshot W) → Task W
  saving : String → Settings W → Task W

pub record World (W S : Type 0) : Type 0 where
  pub api : ApiState W S
  pub tasks : List (Task W)

module _ {W S : Type 0} where
  abbrev pub with_store : S → World W S → World W S
  with_store state w = record w { api = record w.api { store = state } }

  -- `saveSettings` once the store has answered
  abbrev pub start_saving : String → Settings W → S → World W S → World W S
  start_saving class_id saved state w = record {
    api = record w.api { store = state };
    tasks = saving class_id saved ∷ w.tasks;
  }

  -- the rest of `saveSettings`, which looks at the cache only now
  abbrev pub finish_saving : String → Settings W → List (Task W) → World W S → World W S
  finish_saving class_id saved rest w = record {
    api = record w.api {
      caches = update_cached class_id saved (lookup class_id w.api.caches) w.api.caches;
    };
    tasks = rest;
  }

module _ {W : Type 0} ⦃num : Number W⦄ {S : Type 0} (source : DataSource W)
    (store : AppStore W S) where
  -- `load` up to its reads
  abbrev pub start_loading : Env → String → World W S → World W S
  start_loading env class_id w = record w {
    tasks =
        loading class_id (lookup class_id w.api.caches)
          (fail_first source store env w.api.forced_error)
        ∷ w.tasks;
  }

  -- the reads of `load`, which take what the store holds now
  abbrev pub do_reads :
      Env → String → Option (Snapshot W) → Option Error → List (Task W) → World W S → World W S
  do_reads env class_id cached failure rest w = record w {
    tasks = loaded class_id cached (attempt source store env w.api class_id failure) ∷ rest;
  }

  -- the rest of `load`, with the snapshot that it found cached when it started
  abbrev pub finish_loading :
      String → Option (Snapshot W) → Result (Snapshot W) → List (Task W) → World W S → World W S
  finish_loading class_id cached answer rest w = record {
    api = (settle source store class_id cached answer w.api).1;
    tasks = rest;
  }

  -- One step of a task in flight.
  pub data Advance (w : World W S) : World W S → Type 0 where
    read :
        (env : Env) (class_id : String) (cached : Option (Snapshot W)) (failure : Option Error)
        (rest : List (Task W))
        → Take (loading class_id cached failure) w.tasks rest
        → Advance w (do_reads env class_id cached failure rest w)
    finish_load :
        (class_id : String) (cached : Option (Snapshot W)) (answer : Result (Snapshot W))
        (rest : List (Task W))
        → Take (loaded class_id cached answer) w.tasks rest
        → Advance w (finish_loading class_id cached answer rest w)
    finish_save :
        (class_id : String) (saved : Settings W) (rest : List (Task W))
        → Take (saving class_id saved) w.tasks rest
        → Advance w (finish_saving class_id saved rest w)

  -- What moves the service: a task in flight, or a call that starts. A `load` that the cache
  -- answers changes nothing and is no step. `refresh` stamps its time before the `load` it forces.
  pub data Step (w : World W S) : World W S → Type 0 where
    advance : {u : World W S} → Advance w u → Step w u
    begin_load :
        (env : Env) (class_id : String) (force : Bool)
        → MustRead source store env class_id force w.api
        → Step w (start_loading env class_id w)
    begin_save :
        (class_id : String) (patch : SettingsPatch W) (saved : Settings W)
        → (store.save_league_settings w.api.store class_id patch).0 ≡ ok saved
        → Step w (
            start_saving class_id saved (store.save_league_settings w.api.store class_id patch).1 w)
    fail_save :
        (class_id : String) (patch : SettingsPatch W) (e : Error)
        → (store.save_league_settings w.api.store class_id patch).0 ≡ err e
        → Step w (with_store (store.save_league_settings w.api.store class_id patch).1 w)
    save_risk :
        (class_id : String) (patch : RiskPatch W)
        → Step w (with_store (store.save_risk_settings w.api.store class_id patch).1 w)
    write_note :
        (draft : NoteDraft) (now_text : String)
        → Step w (with_store (store.add_note w.api.store draft now_text).1 w)
    stamp_refresh :
        (now : ℕ)
        → w.api.last_refresh_at + refresh_cooldown ≤ now
        → Step w (record w { api = record w.api { last_refresh_at = now } })
    set_error :
        (message : Option String)
        → Step w (record w { api = record w.api { forced_error = message } })
