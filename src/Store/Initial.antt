-- ===== src/Store/Initial.antt =====
-- The state with which `createToyAppStore` starts.
use league_table.Prelude.{String, [], ◌∷◌, ◌++◌}
use league_table.Number.{Number}
use league_table.Store.{LogEntry, ToyStore}
use league_table.Store.Seed.{
  default_settings, seed_baselines, seed_updates, seed_risk_settings, seed_notes,
}

abbrev log_entry : String → String → String → String → String → String → LogEntry
log_entry id actor_id action student_id week_id at = record {
  id = id;
  actor_id = actor_id;
  action = action;
  student_id = student_id;
  week_id = week_id;
  at = at;
}

-- the two classes of `CLASSES`, seeded
unfoldable pub create_toy_app_store : {W : Type 0} ⦃num : Number W⦄ → ToyStore W
unfolding seed_baselines seed_updates seed_notes
create_toy_app_store = record {
  settings = ("c1", default_settings) ∷ ("c2", default_settings) ∷ [];
  weights = [];
  commitments =
      ("c1", record { baselines = seed_baselines "c1"; weekly_updates = seed_updates "c1" })
      ∷ ("c2", record { baselines = seed_baselines "c2"; weekly_updates = seed_updates "c2" })
      ∷ [];
  risk_settings = ("c1", seed_risk_settings) ∷ ("c2", seed_risk_settings) ∷ [];
  notes = seed_notes "c1" ++ seed_notes "c2";
  log =
      log_entry "l1" "i1" "baseline.approve" "s01" "w1" "2025-08-26T17:40:00Z"
      ∷ log_entry "l2" "s06" "weekly.set" "s06" "w10" "2025-10-27T21:00:00Z"
      ∷ log_entry "l3" "i1" "weekly.reverse" "s07" "w9" "2025-10-21T08:30:00Z"
      ∷ [];
}
