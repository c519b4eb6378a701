-- ===== src/Examples/Standing.antt =====
-- The risk signals of a student's weeks.
use league_table.Prelude.{ℕ, ◌≡◌, refl, true, false, Bool, Option, none, some, List, [], ◌∷◌}
use league_table.Number.Fixed.{Fixed, fixed_number}
use league_table.Risk.Types.{SignalKey, default_active, WeekData}
use league_table.Risk.Measure.{missing_run}
use league_table.Risk.Measure.Runs.{longest_gap, missing_run_longest}
use league_table.Risk.Evaluate.{evaluate_signals}
use league_table.Examples.Fixtures.{n, no_patch}

abbrev week : ℕ → Option Fixed → Bool → WeekData Fixed
week number raw has = record {
  week_number = number;
  raw = raw;
  has_entries = has;
  by_key = ("attendance", record { earned = n 3; possible = n 10 }) ∷ [];
}

-- three falls over five weeks, with a gap of one week
abbrev weekly : List (WeekData Fixed)
weekly =
    week 1 (some (n 80)) true
    ∷ week 2 (some (n 70)) true
    ∷ week 3 none false
    ∷ week 4 (some (n 55)) true
    ∷ week 5 (some (n 50)) true
    ∷ []

-- a falling trend, 30 % of attendance and 25 hours
signals_on :
    (evaluate_signals weekly (n 25) no_patch default_active).signals_on
    ≡ SignalKey.downward_trend ∷ SignalKey.missed_engagement ∷ SignalKey.heavy_commitments ∷ []
unfolding evaluate_signals
signals_on = refl

missing_run_longest_example : missing_run weekly ≡ longest_gap weekly
missing_run_longest_example = missing_run_longest weekly
