-- ===== src/Api/Writes/Saved.antt =====
-- What `saveSettings` of api.js leaves in the store and in the cache.
use league_table.Prelude.{
  String, ◌≡◌, ◌≢◌, refl, ap, ◌∙◌, Option, none, some, inl, inr, Option-cases, Dict, lookup,
}
use mathlib.Core.Option
use league_table.Number.{Number}
use league_table.Model.{Settings}
use league_table.Scoring.Weights.{normalise_weights}
use league_table.Api.Types.{Result, ok, SettingsPatch, Snapshot, DataSource, AppStore, ApiState}
use league_table.Api.Actions.{Result-cases, ok-injective, lookup-insert_self, lookup-insert_ne}
use league_table.Api.Contract.{KeepsSettings}
use league_table.Api.Writes.{normalise_patch, update_cached, settle_settings, save_settings}

module _ {W : Type 0} where
  abbrev pub with_settings : Settings W → Snapshot W → Snapshot W
  with_settings saved cached = record cached { settings = saved }

  pub update_cached_self :
      (class_id : String) (saved : Settings W) (caches : Dict (Snapshot W))
      → lookup class_id (update_cached class_id saved (lookup class_id caches) caches)
        ≡ Option.map (with_settings saved) (lookup class_id caches)
  update_cached_self class_id saved caches = elim (Option-cases (lookup class_id caches)) [
    | inl e ↦ rw (e, e) refl
    | inr (c, e) ↦ rw e (lookup-insert_self class_id _ caches)
  ]

  pub update_cached_other :
      (class_id other : String) (saved : Settings W) (cached : Option (Snapshot W))
      (caches : Dict (Snapshot W))
      → other ≢ class_id
      → lookup other (update_cached class_id saved cached caches) ≡ lookup other caches
  update_cached_other class_id other saved none caches h = refl
  update_cached_other class_id other saved (some c) caches h =
      lookup-insert_ne class_id other _ caches h

module _ {W : Type 0} ⦃num : Number W⦄ {S : Type 0} (source : DataSource W) (store : AppStore W S)
    (keeps : KeepsSettings store) (class_id : String) (patch : SettingsPatch W)
    (s : ApiState W S) where
  open keeps use {league_read_back, league_others}

  abbrev sent : SettingsPatch W
  unfolding normalise_weights
  sent = record patch { weights = normalise_patch patch.weights normalise_weights }

  abbrev answer : Result (Settings W) × S
  answer = store.save_league_settings s.store class_id sent

  save_settings_lem :
      save_settings source store class_id patch s
      ≡ settle_settings source store class_id answer.0 (record s { store = answer.1 })
  unfolding save_settings sent
  save_settings_lem = refl

  -- Over a store whose settings read back, a `saveSettings` that succeeds leaves the store and the
  -- cached snapshot with the settings that it returned, changes no other field of that snapshot,
  -- and leaves the settings and the snapshot of every other class.
  pub save_settings-coherent :
      (saved : Settings W) (other : String)
      → (save_settings source store class_id patch s).0 ≡ ok saved
      → other ≢ class_id
      → let after = (save_settings source store class_id patch s).1 in
        (store.get_league_settings after.store class_id ≡ ok saved)
        × (lookup class_id after.caches
            ≡ Option.map (with_settings saved) (lookup class_id s.caches))
        × (store.get_league_settings after.store other ≡ store.get_league_settings s.store other)
        × (lookup other after.caches ≡ lookup other s.caches)
  save_settings-coherent saved other = rw save_settings_lem (elim (Result-cases answer.0) [
    | inl (a, e) ↦ rw e (λ h ne. (
      league_read_back s.store class_id sent (e ∙ h),
      update_cached_self class_id a s.caches
          ∙ ap (λ x. Option.map (with_settings x) (lookup class_id s.caches)) (ok-injective h),
      league_others s.store class_id other sent ne,
      update_cached_other class_id other a (lookup class_id s.caches) s.caches ne,
    ))
    | inr (x, e) ↦ rw e (λ h ne. cc)
  ])
