-- ===== src/Examples/Breakdown.antt =====
-- A student's breakdown beside the row of the table.
use mathlib.Core.List.{Memᴰ}
use league_table.Prelude.{◌≡◌, refl, arith}
use league_table.Number.Fixed.{Fixed, fixed_number}
use league_table.Api.Types.{ok}
use league_table.Api.Load.{load}
use league_table.Api.Table.{ScopedRow}
use league_table.Api.Snapshot.{resolved_weights}
use league_table.Api.Explain.{Explanation, explanation_of, get_explanation}
use league_table.Api.Explain.Agrees.{SaysSame, get_explanation-SaysSame}
use league_table.Store.{toy_app_store}
use league_table.Examples.Fixtures.{source, snapshot, cached, env_at, request, by_length}
use league_table.Examples.Service.{ada_table, table_read}

abbrev explained :
    (e : Explanation Fixed) × ((get_explanation source toy_app_store by_length
        (env_at 110000)
        request
        "s01"
        cached).0
      ≡ ok e)
unfolding get_explanation load explanation_of resolved_weights
explained = (_, refl)

get_explanation-SaysSame_example :
    (row : ScopedRow Fixed) × Memᴰ row ada_table.rows × SaysSame "s01" explained.0 row
get_explanation-SaysSame_example =
    get_explanation-SaysSame by_length source toy_app_store (env_at 110000) (env_at 120000) request
      "s01" cached snapshot explained.0 ada_table refl (omega arith) (omega arith) explained.1
      table_read
