-- ===== src/Api/Contract.antt =====
-- What api.js relies on in the app store that it receives: settings that are saved are those read
-- afterwards, and a save of one class leaves the others.
use league_table.Prelude.{String, ◌≡◌, ◌≢◌}
use league_table.Model.{Settings}
use league_table.Api.Types.{
  Error, ok, err, RiskSettings, RiskPatch, SettingsPatch, NoteDraft, AppStore,
}

-- A store whose settings read back.
pub record KeepsSettings {W S : Type 0} (store : AppStore W S) : Type 0 where
  pub league_read_back :
      (s : S) (class_id : String) (patch : SettingsPatch W) {saved : Settings W}
      → (store.save_league_settings s class_id patch).0 ≡ ok saved
      → store.get_league_settings (store.save_league_settings s class_id patch).1 class_id
        ≡ ok saved
  pub league_others :
      (s : S) (class_id other : String) (patch : SettingsPatch W)
      → other ≢ class_id
      → store.get_league_settings (store.save_league_settings s class_id patch).1 other
        ≡ store.get_league_settings s other
  pub risk_read_back :
      (s : S) (class_id : String) (patch : RiskPatch W) {saved : RiskSettings W}
      → (store.save_risk_settings s class_id patch).0 ≡ ok saved
      → store.get_risk_settings (store.save_risk_settings s class_id patch).1 class_id ≡ ok saved
  pub risk_others :
      (s : S) (class_id other : String) (patch : RiskPatch W)
      → other ≢ class_id
      → store.get_risk_settings (store.save_risk_settings s class_id patch).1 other
        ≡ store.get_risk_settings s other

-- A store whose other writes, and whose failed saves, leave the settings of a league.
pub record LeavesSettings {W S : Type 0} (store : AppStore W S) : Type 0 where
  pub after_failure :
      (s : S) (class_id : String) (patch : SettingsPatch W) {e : Error}
      → (store.save_league_settings s class_id patch).0 ≡ err e
      → store.get_league_settings (store.save_league_settings s class_id patch).1 class_id
        ≡ store.get_league_settings s class_id
  pub after_risk :
      (s : S) (class_id other : String) (patch : RiskPatch W)
      → store.get_league_settings (store.save_risk_settings s class_id patch).1 other
        ≡ store.get_league_settings s other
  pub after_note :
      (s : S) (draft : NoteDraft) (now_text other : String)
      → store.get_league_settings (store.add_note s draft now_text).1 other
        ≡ store.get_league_settings s other
