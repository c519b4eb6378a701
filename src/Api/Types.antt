-- ===== src/Api/Types.antt =====
-- What api.js is built from: errors, callers, snapshots, the interfaces of the data source and the
-- app store that `createApi` receives, and its own state. An asynchronous call of a source or store
-- is an operation that may fail; the delays of `latency` change no value and are left out.
use league_table.Prelude.{ℕ, String, Bool, Option, List, Dict}
use league_table.Model.{
  Class, Student, Criterion, Week, Entry, Baseline, WeeklyUpdate, Settings, Note,
}
use league_table.Risk.Types.{Thresholds, ThresholdPatch}

-- An `ApiError` has a message and a status. Other exceptions are those of a source or store, and a
-- read of a property of `undefined`.
pub data Error : Type 0 where
  api_error : String → ℕ → Error
  other_error : String → Error
  type_error : Error

pub data Result (A : Type 0) : Type 0 where
  ok : A → Result A
  err : Error → Result A

pub record Caller : Type 0 where
  pub role : String
  pub student_id : Option String
  pub class_id : Option String
  pub instructor_id : Option String

pub record Issue : Type 0 where
  pub level : String
  pub where_found : String
  pub message : String

-- One read of a class. `at` and the other times are in milliseconds.
pub record Snapshot (W : Type 0) : Type 0 where
  pub at : ℕ
  pub stale : Bool
  pub class_id : String
  pub students : List Student
  pub criteria : List (Criterion W)
  pub weeks : List Week
  pub entries : List (Entry W)
  pub baselines : List (Baseline W)
  pub weekly_updates : List (WeeklyUpdate W)
  pub settings : Settings W
  pub issues : List Issue

pub record RiskSettings (W : Type 0) : Type 0 where
  pub thresholds : Thresholds W
  pub active : Dict Bool

pub record RiskPatch (W : Type 0) : Type 0 where
  pub thresholds : Option (ThresholdPatch W)
  pub active : Option (Dict Bool)

pub record SettingsPatch (W : Type 0) : Type 0 where
  pub type_weights : Option (Dict W)
  pub rate : Option W
  pub cap : Option W
  pub tie_breakers : Option (List String)
  pub weights : Option (Dict W)

-- A demo account of a source; the external id is left out.
pub record Account : Type 0 where
  pub id : String
  pub role : String
  pub student_id : Option String
  pub class_ids : List String

-- What `getEntries` is asked for; absent filters let everything through.
pub record EntryQuery : Type 0 where
  pub class_id : Option String
  pub week_ids : Option (List String)
  pub criterion_keys : Option (List String)

-- A data source, read only. A source may have no `listAccounts`.
pub record DataSource (W : Type 0) : Type 0 where
  pub kind : String
  pub label : String
  pub list_classes : String → Result (List Class)
  pub list_students : String → Result (List Student)
  pub list_criteria : String → Result (List (Criterion W))
  pub list_weeks : String → Result (List Week)
  pub get_entries : EntryQuery → Result (List (Entry W))
  pub list_accounts : Option (Result (List Account))

-- What `store.addNote` is given.
pub record NoteDraft : Type 0 where
  pub class_id : String
  pub student_id : String
  pub instructor_id : String
  pub body : String

-- A student's own hours.
pub record Commitments (W : Type 0) : Type 0 where
  pub baseline : Option (Baseline W)
  pub weekly_updates : List (WeeklyUpdate W)

-- An app store with state `S`. A note's student is absent where all of a class are asked for.
pub record AppStore (W S : Type 0) : Type 0 where
  pub label : String
  pub get_league_settings : S → String → Result (Settings W)
  pub save_league_settings : S → String → SettingsPatch W → Result (Settings W) × S
  pub list_baselines : S → String → Result (List (Baseline W))
  pub list_weekly_updates : S → String → Result (List (WeeklyUpdate W))
  pub get_commitments : S → String → String → Result (Commitments W)
  pub get_risk_settings : S → String → Result (RiskSettings W)
  pub save_risk_settings : S → String → RiskPatch W → Result (RiskSettings W) × S
  -- the text is the time of the call, as `toISOString` prints it
  pub add_note : S → NoteDraft → String → Result Note × S
  pub list_notes : S → String → Option String → String → Result (List Note)

-- The variables that `createApi` closes over, with the store's own state.
pub record ApiState (W S : Type 0) : Type 0 where
  pub caches : Dict (Snapshot W)
  pub last_refresh_at : ℕ
  pub forced_error : Option String
  pub store : S

-- What a call takes from outside: the clock when it starts and when its reads are done, and whether
-- the random draw of `failRate` makes it fail.
pub record Env : Type 0 where
  pub called_at : ℕ
  pub read_at : ℕ
  pub drawn_failure : Bool

-- A call of the service: an action on its state that may throw. What was written stays written.
abbrev pub Action : Type 0 → Type 0 → Type 0 → Type 0
Action W S A = ApiState W S → Result A × ApiState W S

module _ {W S : Type 0} where
  abbrev pub pure : {A : Type 0} → A → Action W S A
  pure a s = (ok a, s)

  abbrev pub throw : {A : Type 0} → Error → Action W S A
  throw e s = (err e, s)

  abbrev pub lift : {A : Type 0} → Result A → Action W S A
  lift r s = (r, s)

  infixl 5 ◌>>=◌ ◌>>◌
  abbrev pub ◌>>=◌ : {A B : Type 0} → Action W S A → (A → Action W S B) → Action W S B
  ◌>>=◌ m f s = let (r, s') = m s in elim r [ ok a ↦ f a s' | err e ↦ (err e, s') ]

  abbrev pub ◌>>◌ : {A B : Type 0} → Action W S A → Action W S B → Action W S B
  m >> k = m >>= λ _. k

  abbrev pub throw_if : Bool → Error → Action W S (Unit {0})
  throw_if Bool.true e s = (err e, s)
  throw_if Bool.false e s = (ok tt, s)

-- One read after another, the first failure thrown.
abbrev pub then_read : {A B : Type 0} → Result A → (A → Result B) → Result B
then_read (ok a) f = f a
then_read (err e) f = err e
