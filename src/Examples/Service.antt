-- ===== src/Examples/Service.antt =====
-- Reads of the service: the cache, the ranked table, the windows and the digest.
use mathlib.Core.List.{Perm}
use league_table.Prelude.{
  ℕ, ◌+◌, String, ◌≡◌, ◌≢◌, refl, true, false, some, List, [], ◌∷◌, eq_iff, All,
}
use league_table.Number.Fixed.{Fixed, fixed_number}
use league_table.Risk.Types.{default_active}
use league_table.Risk.Evaluate.{evaluate_signals}
use league_table.Api.Types.{ok, Snapshot}
use league_table.Api.Load.{load}
use league_table.Api.Load.Outcome.{Outcome, load-Outcome}
use league_table.Api.Table.{Ranking, ranking_of, get_ranking}
use league_table.Api.Table.Privacy.{KeepsPrivate, get_ranking-KeepsPrivate}
use league_table.Api.Table.Ranks.{higher, HasScores, get_ranking-competition}
use league_table.Number.Fixed.Ordered.{Fixed-IsOrdered}
use league_table.Api.Evaluate.{RiskRow}
use league_table.Api.Digest.{digest_rows}
use league_table.Api.Digest.Rows.{WorstFirst, worth_showing, digest_rows-WorstFirst}
use league_table.Store.{list_baselines, list_weekly_updates, get_league_settings, toy_app_store}
use league_table.Examples.Fixtures.{
  n, no_patch, source, down, snapshot, fresh, cached, env_at, request, by_length,
}

-- a first read, and one that fails with nothing cached
abbrev read_at : ℕ → Snapshot Fixed
read_at t = record snapshot {
  at = t;
  issues =
      record { level = "error"; where_found = "e3"; message = "Non-numeric score for s02" } ∷ [];
}

first_read : (load source toy_app_store (env_at 5000) "c1" false fresh).0 ≡ ok (read_at 5000)
unfolding load list_baselines list_weekly_updates get_league_settings
first_read = refl

other_class : ◌≢◌ {A = String} "c2" "c1"
other_class e = let same : false ≡ true = (eq_iff "c2" "c1").1 e in cc

load-Outcome_example :
    Outcome down toy_app_store
      (env_at 200000)
      "c1"
      false
      cached
      (load down toy_app_store (env_at 200000) "c1" false cached)
load-Outcome_example = load-Outcome down toy_app_store (env_at 200000) "c1" false cached

abbrev pub ada_table : Ranking Fixed
unfolding ranking_of
ada_table = ranking_of by_length snapshot request

pub table_read :
    (get_ranking by_length source toy_app_store (env_at 120000) request cached).0 ≡ ok ada_table
unfolding get_ranking load ada_table
table_read = refl

get_ranking-KeepsPrivate_example : All (KeepsPrivate (some "s01")) ada_table.rows
get_ranking-KeepsPrivate_example =
    get_ranking-KeepsPrivate by_length source toy_app_store (env_at 120000) request cached ada_table
      refl table_read

ada_table-HasScores : HasScores ada_table.rows
unfolding ada_table
ada_table-HasScores = (refl, (refl, tt))

get_ranking-competition_example :
    All (λ r. r.public.rank ≡ 1 + higher r ada_table.rows) ada_table.rows
get_ranking-competition_example =
    get_ranking-competition Fixed-IsOrdered by_length source toy_app_store (env_at 120000) request
      cached ada_table table_read ada_table-HasScores

-- two evaluations of a class, the second with 25 weekly hours for everybody
abbrev rows : List (RiskRow Fixed)
unfolding evaluate_signals
rows =
    record {
      student_id = "s01";
      display_name = "Ada Lane";
      evaluation = evaluate_signals [] (n 25) no_patch default_active;
    }
    ∷ record {
      student_id = "s02";
      display_name = "Ben Okoro";
      evaluation = evaluate_signals [] (n 5) no_patch default_active;
    }
    ∷ []

digest_rows-WorstFirst_example :
    let shown = digest_rows by_length [] rows [] in
    Perm shown (worth_showing by_length [] rows []) × WorstFirst shown
digest_rows-WorstFirst_example = digest_rows-WorstFirst by_length [] rows []
