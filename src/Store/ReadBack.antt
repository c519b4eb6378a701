-- ===== src/Store/ReadBack.antt =====
-- The settings of the app store of mockSource.js read back: it meets the contract of api.js.
use league_table.Prelude.{
  String, ◌≡◌, ◌≢◌, refl, ap, sym, ◌∙◌, Option, none, some, inl, inr, Option-cases, Dict, lookup,
}
use league_table.Model.{Settings}
use league_table.Risk.Types.{merge_thresholds}
use league_table.Api.Types.{Error, ok, err, type_error, RiskSettings, RiskPatch, SettingsPatch}
use league_table.Api.Actions.{lookup-insert_self, lookup-insert_ne}
use league_table.Api.Contract.{KeepsSettings, LeavesSettings}
use league_table.Store.{
  ToyStore, or_throw, with_weights, merge_settings, put_weights, put_settings, get_league_settings,
  save_league_settings, save_risk, merge_risk, get_risk_settings, save_risk_settings, add_note,
  toy_app_store,
}

module _ {W : Type 0} where
  lookup-put_weights :
      (class_id other : String) (weights : Option (Dict W)) (all : Dict (Dict W))
      → other ≢ class_id
      → lookup other (put_weights class_id weights all) ≡ lookup other all
  lookup-put_weights class_id other none all h = refl
  lookup-put_weights class_id other (some w) all h = lookup-insert_ne class_id other w all h

  lookup-put_settings :
      (class_id other : String) (patch : SettingsPatch W) (old : Option (Settings W))
      (all : Dict (Settings W))
      → other ≢ class_id
      → lookup other (put_settings class_id patch old all) ≡ lookup other all
  lookup-put_settings class_id other patch none all h = refl
  lookup-put_settings class_id other patch (some t) all h = lookup-insert_ne class_id other _ all h

  league_others :
      (s : ToyStore W) (class_id other : String) (patch : SettingsPatch W)
      → other ≢ class_id
      → get_league_settings (save_league_settings s class_id patch).1 other
        ≡ get_league_settings s other
  unfolding get_league_settings save_league_settings
  league_others s class_id other patch h =
      rw
        (
          lookup-put_weights class_id other patch.weights s.weights h,
          lookup-put_settings class_id other patch (lookup class_id s.settings) s.settings h,
        )
        refl

  save_risk-read_back :
      (s : ToyStore W) (class_id : String) (patch : RiskPatch W) (old : Option (RiskSettings W))
      {saved : RiskSettings W}
      → (save_risk s class_id patch old).0 ≡ ok saved
      → or_throw (lookup class_id (save_risk s class_id patch old).1.risk_settings) ≡ ok saved
  unfolding merge_thresholds
  save_risk-read_back s class_id patch none e = cc
  save_risk-read_back s class_id patch (some settings) e =
      rw (lookup-insert_self class_id (merge_risk settings patch) s.risk_settings) e

  save_risk-others :
      (s : ToyStore W) (class_id other : String) (patch : RiskPatch W)
      (old : Option (RiskSettings W))
      → other ≢ class_id
      → lookup other (save_risk s class_id patch old).1.risk_settings ≡ lookup other s.risk_settings
  unfolding merge_thresholds
  save_risk-others s class_id other patch none h = refl
  save_risk-others s class_id other patch (some settings) h =
      lookup-insert_ne class_id other (merge_risk settings patch) s.risk_settings h

  -- The in-memory store meets the contract: after a save of the league or risk settings of a class
  -- they read as the save returned them, and those of other classes as before.
  pub toy_app_store-KeepsSettings : KeepsSettings (toy_app_store {W = W})
  unfolding get_league_settings save_league_settings get_risk_settings save_risk_settings
  toy_app_store-KeepsSettings = record {
    league_read_back = λ s class_id patch e. e;
    league_others = league_others;
    risk_read_back = λ s class_id patch e.
        save_risk-read_back s class_id patch (lookup class_id s.risk_settings) e;
    risk_others = λ s class_id other patch h.
        ap or_throw (save_risk-others s class_id other patch (lookup class_id s.risk_settings) h);
  }

  with_weights-err :
      (settings : Option (Settings W)) (weights : Option (Dict W)) {e : Error}
      → with_weights settings weights ≡ err e
      → (settings ≡ none) × (e ≡ type_error)
  with_weights-err none weights h = (refl, cc)
  with_weights-err (some settings) weights h = cc

  failed-leaves :
      (s : ToyStore W) (class_id : String) (patch : SettingsPatch W) {e : Error}
      → (save_league_settings s class_id patch).0 ≡ err e
      → get_league_settings (save_league_settings s class_id patch).1 class_id
        ≡ get_league_settings s class_id
  unfolding get_league_settings save_league_settings
  failed-leaves s class_id patch h = elim (Option-cases (lookup class_id s.settings)) [
    | inl f ↦
        h
        ∙ ap err (with_weights-err _ _ h).1
        ∙ sym (ap (λ o. with_weights o (lookup class_id s.weights)) f)
    | inr (settings, f) ↦
        let stored = ap (λ o. lookup class_id (put_settings class_id patch o s.settings)) f in
        let found = lookup-insert_self class_id (merge_settings settings patch) s.settings in
        let gone = (with_weights-err _ _ h).0 in cc
  ]

  risk-leaves :
      (s : ToyStore W) (class_id other : String) (patch : RiskPatch W)
      → get_league_settings (save_risk_settings s class_id patch).1 other
        ≡ get_league_settings s other
  unfolding get_league_settings save_risk_settings merge_thresholds
  risk-leaves s class_id other patch = elim (Option-cases (lookup class_id s.risk_settings)) [
    | inl f ↦ rw f refl
    | inr (settings, f) ↦ rw f refl
  ]

  -- A failed save of the in-memory store, a save of risk settings and a note leave the settings of
  -- every league.
  pub toy_app_store-LeavesSettings : LeavesSettings (toy_app_store {W = W})
  unfolding get_league_settings add_note
  toy_app_store-LeavesSettings = record {
    after_failure = failed-leaves;
    after_risk = risk-leaves;
    after_note = λ s draft now_text other. refl;
  }
