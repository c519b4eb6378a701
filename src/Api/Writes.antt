-- ===== src/Api/Writes.antt =====
-- The writes of api.js (`addNote`, `saveRiskSettings`, `saveSettings`) with the cache controls
-- `refresh` and `getStatus`, `getRiskSettings`, and the hooks `__forceError` and `__clearError`.
pub mod Saved
pub mod Cooldown
use Prim.Native.Char.{Char, code}
use Prim.Native.String.{String, ◌++◌}
use league_table.Prelude.{
  ℕ, ◌+◌, ◌-◌, ◌/◌, Bool, true, false, not, ◌&&◌, ◌||◌, Option, none, some, List, [], if◌then◌else◌,
  ltb, leb, ◌==◌, ◌===◌, Dict, lookup, insert, count_text,
}
use league_table.Number.{Number}
use league_table.Model.{Settings, Note}
use league_table.Scoring.Weights.{normalise_weights}
use league_table.Api.Types.{
  Result, ok, err, api_error, Caller, Issue, RiskSettings, RiskPatch, SettingsPatch, Snapshot,
  NoteDraft, DataSource, AppStore, ApiState, Env, Action, pure, throw_if, ◌>>=◌, ◌>>◌,
}
use league_table.Api.Load.{load}
use league_table.Api.Evaluate.{instructor_or_default}

-- the white space of `trim`
abbrev pub is_space : ℕ → Bool
is_space c =
    (leb 9 c && leb c 13)
    || c == 32
    || c == 160
    || c == 0x1680
    || (leb 0x2000 c && leb c 0x200a)
    || c == 0x2028
    || c == 0x2029
    || c == 0x202f
    || c == 0x205f
    || c == 0x3000
    || c == 0xfeff

abbrev pub trim_start : String → String
trim_start String.[] = ""
trim_start (String.◌∷◌ c s) =
    let rest = trim_start s in if is_space (code c) then rest else String.◌∷◌ c s

abbrev pub keep_unless_blank : Char → String → String
keep_unless_blank c String.[] = if is_space (code c) then "" else String.◌∷◌ c String.[]
keep_unless_blank c (String.◌∷◌ d s) = String.◌∷◌ c (String.◌∷◌ d s)

abbrev pub trim_end : String → String
trim_end String.[] = ""
trim_end (String.◌∷◌ c s) = keep_unless_blank c (trim_end s)

-- `text.trim()`
unfoldable pub trim : String → String
trim s = trim_end (trim_start s)

-- `body && body.trim()`, with the empty text for what is absent
abbrev pub trimmed : Option String → String
trimmed none = ""
trimmed (some body) = trim body

-- `REFRESH_COOLDOWN_MS`
abbrev pub refresh_cooldown : ℕ
refresh_cooldown = 10000

-- `Math.ceil((REFRESH_COOLDOWN_MS - since) / 1000)`, within the cooldown
abbrev pub seconds_left : ℕ → ℕ → ℕ
seconds_left now last = (refresh_cooldown + last - now + 999) / 1000

pub record Refreshed : Type 0 where
  pub last_updated : ℕ
  pub issues : List Issue
  pub stale : Bool

pub record Status : Type 0 where
  pub last_updated : Option ℕ
  pub stale : Bool
  pub issues : List Issue

module _ {W : Type 0} where
  abbrev status_of : Option (Snapshot W) → Status
  status_of none = record { last_updated = none; stale = false; issues = [] }
  status_of (some c) = record { last_updated = some c.at; stale = c.stale; issues = c.issues }

  unfoldable pub get_status : {S : Type 0} → ApiState W S → String → Status
  get_status s class_id = status_of (lookup class_id s.caches)

  unfoldable pub force_error : {S : Type 0} → String → ApiState W S → ApiState W S
  force_error message s = record s { forced_error = some message }

  unfoldable pub clear_error : {S : Type 0} → ApiState W S → ApiState W S
  clear_error s = record s { forced_error = none }

  -- the cached snapshot, if there is one, takes the saved settings
  abbrev pub update_cached :
      String → Settings W → Option (Snapshot W) → Dict (Snapshot W) → Dict (Snapshot W)
  update_cached class_id saved none caches = caches
  update_cached class_id saved (some cached) caches =
      insert class_id (record cached { settings = saved }) caches

  abbrev pub normalise_patch : Option (Dict W) → (Dict W → Dict W) → Option (Dict W)
  normalise_patch none f = none
  normalise_patch (some weights) f = some (f weights)

module _ {W : Type 0} ⦃num : Number W⦄ {S : Type 0} (source : DataSource W)
    (store : AppStore W S) where
  abbrev pub store_note : NoteDraft → String → Action W S Note
  store_note draft now_text s =
      let (r, state) = store.add_note s.store draft now_text in (r, record s { store = state })

  unfoldable pub add_note : String → String → Option String → Caller → String → Action W S Note
  unfolding trim
  add_note class_id student_id body caller now_text = do
    throw_if (not (caller.role === "instructor"))
        (api_error "Only an instructor can log outreach." 403)
    throw_if (trimmed body === "") (api_error "A note needs some text." 400)
    store_note
        (record {
          class_id = class_id;
          student_id = student_id;
          instructor_id = instructor_or_default caller.instructor_id;
          body = trimmed body;
        })
        now_text

  unfoldable pub get_risk_settings : String → Action W S (RiskSettings W)
  get_risk_settings class_id s = (store.get_risk_settings s.store class_id, s)

  unfoldable pub save_risk_settings : String → RiskPatch W → Action W S (RiskSettings W)
  save_risk_settings class_id patch s =
      let (r, state) = store.save_risk_settings s.store class_id patch in
      (r, record s { store = state })

  abbrev pub settle_settings :
      String → Result (Settings W) → ApiState W S → Result (Settings W) × ApiState W S
  settle_settings class_id (err e) s = (err e, s)
  settle_settings class_id (ok saved) s = (
    ok saved,
    record s { caches = update_cached class_id saved (lookup class_id s.caches) s.caches },
  )

  unfoldable pub save_settings : String → SettingsPatch W → Action W S (Settings W)
  unfolding normalise_weights
  save_settings class_id patch s =
      let next : SettingsPatch W = record patch {
        weights = normalise_patch patch.weights normalise_weights;
      } in
      let (r, state) = store.save_league_settings s.store class_id next in
      settle_settings class_id r (record s { store = state })

  abbrev stamp_refresh : ℕ → Action W S (Unit {0})
  stamp_refresh now s = (ok tt, record s { last_refresh_at = now })

  unfoldable pub refresh : Env → String → Action W S Refreshed
  unfolding load
  refresh env class_id s =
      if ltb env.called_at (s.last_refresh_at + refresh_cooldown)
      then (
        err (
            api_error
              (("Please wait " ++ count_text (seconds_left env.called_at s.last_refresh_at))
                ++ "s before refreshing again.")
              429),
        s,
      )
      else (do
        stamp_refresh env.called_at
        snap ← load source store env class_id true
        pure (record { last_updated = snap.at; issues = snap.issues; stale = snap.stale }))
          s
