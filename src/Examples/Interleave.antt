-- ===== src/Examples/Interleave.antt =====
-- Calls of the service that are in flight together.
use league_table.Prelude.{
  ◌≡◌, refl, false, none, some, [], ◌∷◌, inr, lookup, Reach, here, next, first,
}
use league_table.Number.Fixed.{Fixed, plus, fixed_number}
use league_table.Model.{Settings}
use league_table.Api.Types.{ok, Snapshot, SettingsPatch, Result}
use league_table.Api.Load.{read_all, attempt, fail_first}
use league_table.Api.Interleave.{
  World, read, finish_load, Step, advance, begin_load, start_loading, do_reads, finish_loading,
}
use league_table.Api.Interleave.Apart.{IsApart, ApartStep, AreCoherent}
use league_table.Api.Interleave.Coherent.{Reach-Agrees}
use league_table.Api.Interleave.Race.{save_during_load}
use league_table.Store.{
  ToyStore, list_baselines, list_weekly_updates, get_league_settings, save_league_settings,
  toy_app_store,
}
use league_table.Store.ReadBack.{toy_app_store-KeepsSettings, toy_app_store-LeavesSettings}
use league_table.Store.Seed.{default_settings}
use league_table.Examples.Fixtures.{snapshot, source, fresh, env_at}

abbrev Served : Type 0
Served = World Fixed (ToyStore Fixed)

-- the service before its first call, and with a load that has started
abbrev idle : Served
idle = record { api = fresh; tasks = [] }

abbrev opening : Served
opening = start_loading source toy_app_store (env_at 5000) "c1" idle

idle-AreCoherent : AreCoherent source toy_app_store idle
idle-AreCoherent = record { cache = λ k. tt; tasks = tt }

-- a first load with its result, and a save of the settings that follows it
abbrev snap : Snapshot Fixed
snap = record snapshot {
  at = 5000;
  issues =
      record { level = "error"; where_found = "e3"; message = "Non-numeric score for s02" } ∷ [];
}

first_answer :
    attempt source toy_app_store
      (env_at 5000)
      fresh
      "c1"
      (fail_first source toy_app_store (env_at 5000) none)
    ≡ ok snap
unfolding read_all list_baselines list_weekly_updates get_league_settings
first_answer = refl

abbrev patch : SettingsPatch Fixed
patch = record {
  type_weights = none;
  rate = some (plus 20);
  cap = none;
  tie_breakers = none;
  weights = none;
}

abbrev saved : Settings Fixed
saved = record default_settings { rate = plus 20 }

saved-patch : (toy_app_store.save_league_settings fresh.store "c1" patch).0 ≡ ok saved
unfolding save_league_settings get_league_settings
saved-patch = refl

-- the load ends with a rate of 0.01 in the cache, and the store has 0.02
save_during_load_example :
    (u : Served) × Reach (Step source toy_app_store) idle u
    × (u.tasks ≡ [])
    × (lookup "c1" u.api.caches ≡ some snap)
    × (toy_app_store.get_league_settings fresh.store "c1" ≡ ok default_settings)
    × (toy_app_store.get_league_settings u.api.store "c1" ≡ ok saved)
save_during_load_example =
    save_during_load source toy_app_store toy_app_store-KeepsSettings idle (env_at 5000) "c1" false
      patch snap saved (inr refl) first_answer saved-patch

-- the load runs to its end with nothing else in flight
abbrev answer : Result (Snapshot Fixed)
answer =
    attempt source toy_app_store (env_at 5000) fresh "c1"
      (fail_first source toy_app_store (env_at 5000) none)

abbrev read_in : Served
read_in = do_reads source toy_app_store (env_at 5000) "c1" none none [] opening

abbrev opened : Served
opened = finish_loading source toy_app_store "c1" none answer [] read_in

to_opened : Reach (ApartStep source toy_app_store) idle opened
unfolding IsApart
to_opened =
    next
      (next (next here (begin_load (env_at 5000) "c1" false (inr refl), refl))
        (advance (read (env_at 5000) "c1" none none [] first), tt))
      (advance (finish_load "c1" none answer [] first), tt)

opened-cached : lookup "c1" opened.api.caches ≡ some snap
opened-cached = rw first_answer refl

Reach-Agrees_example : toy_app_store.get_league_settings opened.api.store "c1" ≡ ok default_settings
Reach-Agrees_example =
    Reach-Agrees source toy_app_store toy_app_store-KeepsSettings toy_app_store-LeavesSettings idle
      opened "c1" snap idle-AreCoherent to_opened refl opened-cached
