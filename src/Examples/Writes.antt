-- ===== src/Examples/Writes.antt =====
-- Writes through the service onto the in-memory store.
use league_table.Prelude.{
  String, ◌≡◌, ◌≢◌, refl, true, false, Option, none, some, [], ◌∷◌, arith, eq_iff, lookup,
}
use mathlib.Core.Option
use league_table.Number.Fixed.{Fixed, plus, fixed_number}
use league_table.Model.{Settings}
use league_table.Api.Types.{ok, SettingsPatch}
use league_table.Api.Contract.{KeepsSettings}
use league_table.Api.Writes.{save_settings, refresh}
use league_table.Api.Writes.Saved.{with_settings, save_settings-coherent}
use league_table.Api.Writes.Cooldown.{refusal, refresh_twice}
use league_table.Store.{get_league_settings, save_league_settings, toy_app_store}
use league_table.Store.ReadBack.{toy_app_store-KeepsSettings}
use league_table.Store.Seed.{default_settings}
use league_table.Examples.Fixtures.{n, source, down, cached, env_at}

refresh_twice_example :
    let after = (refresh down toy_app_store (env_at 50000) "c1" cached).1 in
    refresh down toy_app_store (env_at 51000) "c2" after ≡ (refusal 51000 50000, after)
refresh_twice_example =
    refresh_twice down toy_app_store (env_at 50000) (env_at 51000) "c1" "c2" cached (omega arith)
      (omega arith)

toy_app_store-KeepsSettings_example : KeepsSettings (toy_app_store {W = Fixed})
toy_app_store-KeepsSettings_example = toy_app_store-KeepsSettings {W = Fixed}

abbrev patch : SettingsPatch Fixed
patch = record {
  type_weights = none;
  rate = some (plus 20);
  cap = none;
  tie_breakers = none;
  weights = some (("attendance", n 1) ∷ ("homework", n 3) ∷ []);
}

-- the weights are saved as shares of 100
abbrev saved : Settings Fixed
saved = record default_settings {
  rate = plus 20;
  weights = some (("attendance", n 25) ∷ ("homework", n 75) ∷ []);
}

other_class : ◌≢◌ {A = String} "c2" "c1"
other_class e = let same : false ≡ true = (eq_iff "c2" "c1").1 e in cc

saved-patch : (save_settings source toy_app_store "c1" patch cached).0 ≡ ok saved
unfolding save_settings save_league_settings
saved-patch = refl

save_settings-coherent_example :
    let after = (save_settings source toy_app_store "c1" patch cached).1 in
    (get_league_settings after.store "c1" ≡ ok saved)
    × (lookup "c1" after.caches ≡ Option.map (with_settings saved) (lookup "c1" cached.caches))
    × (get_league_settings after.store "c2" ≡ get_league_settings cached.store "c2")
    × (lookup "c2" after.caches ≡ lookup "c2" cached.caches)
save_settings-coherent_example =
    save_settings-coherent source toy_app_store toy_app_store-KeepsSettings "c1" patch cached saved
      "c2" saved-patch other_class

abbrev body : Option String
body = some "  Emailed today. "
