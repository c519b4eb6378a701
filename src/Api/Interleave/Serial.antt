-- ===== src/Api/Interleave/Serial.antt =====
-- The functions for `load` and `saveSettings` of api.js as runs of their steps.
use league_table.Prelude.{Reach}
use league_table.Number.{Number}
use league_table.Api.Types.{DataSource, AppStore, ApiState}
use league_table.Api.Interleave.{World, Step}

module _ {W : Type 0} ⦃num : Number W⦄ {S : Type 0} (source : DataSource W)
    (store : AppStore W S) where
  -- a run to these variables, with the tasks of before
  abbrev pub Reaches : World W S → ApiState W S → Type 0
  Reaches w api = Reach (Step source store) w (record w { api = api })
