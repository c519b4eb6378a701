-- ===== src/Api/Interleave/Race.antt =====
-- A save of api.js's settings during a load of the same class.
use league_table.Prelude.{String, ◌≡◌, refl, Bool, Option, some, lookup, Reach, here, next, first}
use league_table.Number.{Number}
use league_table.Model.{Settings}
use league_table.Api.Types.{
  Error, Result, ok, SettingsPatch, Snapshot, DataSource, AppStore, ApiState, Env,
}
use league_table.Api.Actions.{lookup-insert_self}
use league_table.Api.Contract.{KeepsSettings}
use league_table.Api.Load.{fail_first, attempt}
use league_table.Api.Load.Outcome.{MustRead}
use league_table.Api.Interleave.{
  World, read, finish_load, finish_save, Step, advance, begin_load, begin_save, start_loading,
  do_reads, start_saving, finish_saving, finish_loading,
}
use league_table.Api.Interleave.Sound.{IfOk, answered, attempt-IfOk, IsReadFrom}

module _ {W : Type 0} ⦃num : Number W⦄ {S : Type 0} (source : DataSource W)
    (store : AppStore W S) where
  -- the settings in a snapshot are those that the store held when it was read
  attempt-settings :
      (env : Env) (s : ApiState W S) (c : String) {snap : Snapshot W}
      → attempt source store env s c (fail_first source store env s.forced_error) ≡ ok snap
      → store.get_league_settings s.store c ≡ ok snap.settings
  attempt-settings env s c {snap} e = read_settings (rw (← e) (attempt-IfOk source store env s c _))
    where
      read_settings :
          IfOk (IsReadFrom source store s.store c) (ok snap)
          → store.get_league_settings s.store c ≡ ok snap.settings
      read_settings (answered _ h) = h.1

  -- Over a store whose saved settings read back, where a load must read and its reads succeed, and
  -- a save of the same class succeeds: there is a run that starts the load, lets it read, does the
  -- whole save and ends the load, and it leaves the other calls in flight as they were, the store
  -- with the saved settings, and the cache with the snapshot that was read, which has the settings
  -- of before the save.
  pub save_during_load :
      KeepsSettings store
      → (w : World W S) (env : Env) (c : String) (force : Bool) (patch : SettingsPatch W)
        (snap : Snapshot W) (saved : Settings W)
      → MustRead source store env c force w.api
      → attempt source store env w.api c (fail_first source store env w.api.forced_error) ≡ ok snap
      → (store.save_league_settings w.api.store c patch).0 ≡ ok saved
      → (u : World W S) × Reach (Step source store) w u
        × (u.tasks ≡ w.tasks)
        × (lookup c u.api.caches ≡ some snap)
        × (store.get_league_settings w.api.store c ≡ ok snap.settings)
        × (store.get_league_settings u.api.store c ≡ ok saved)
  save_during_load keeps w env c force patch snap saved due r e =
      let cached : Option (Snapshot W) = lookup c w.api.caches in
      let failure : Option Error = fail_first source store env w.api.forced_error in
      let answer : Result (Snapshot W) = attempt source store env w.api c failure in
      let reading : World W S = start_loading source store env c w in
      let read_in : World W S = do_reads source store env c cached failure w.tasks reading in
      let new : S = (store.save_league_settings w.api.store c patch).1 in
      let saving_in : World W S = start_saving c saved new read_in in
      let saved_in : World W S = finish_saving c saved read_in.tasks saving_in in
      (
        finish_loading source store c cached answer w.tasks saved_in,
        next
            (next
              (next
                (next (next here (begin_load env c force due))
                  (advance (read env c cached failure w.tasks first)))
                (begin_save c patch saved e))
              (advance (finish_save c saved read_in.tasks first)))
            (advance (finish_load c cached answer w.tasks first)),
        refl,
        rw r (lookup-insert_self c snap saved_in.api.caches),
        attempt-settings env w.api c r,
        rw r (keeps.league_read_back w.api.store c patch e),
      )
