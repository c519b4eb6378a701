-- ===== src/Examples/Table.antt =====
-- The table of a page that presents.
use league_table.Prelude.{ℕ, String, ◌≡◌, refl, true, false, none, some, List, [], ◌∷◌, map, pos}
use league_table.Number.Fixed.{Fixed, print_fixed}
use league_table.Api.Table.{PublicRow, PrivateRow, ScopedRow}
use league_table.Screen.Types.{Screen, new_screen}
use league_table.Screen.Table.{build_visible_rows, build_podium}
use league_table.Screen.Table.Presented.{presenting-same}
use league_table.Examples.Fixtures.{n}

abbrev on_stage : Screen String
on_stage = record new_screen { present = true; raw_on = true }

abbrev digits : Fixed → ℕ → String
digits x d = print_fixed x

abbrev public : String → ℕ → PublicRow Fixed
public name rank = record {
  student_id = name;
  display_name = name;
  score = some (n 80);
  rank = rank;
  tied = false;
  rank_delta = some (pos 1);
  gap_to_next = none;
  gap_to_below = some (n 2);
  missing = [];
  is_self = false;
}

abbrev own : PrivateRow Fixed
own = record {
  raw = some (n 70);
  factor = some (n 1);
  weighted_hours = some (n 12);
  capped = false;
  hours_source = "weekly";
}

-- what an instructor reads, and the same without the private fields
abbrev full : List (ScopedRow Fixed)
full =
    record { public = public "Ada" 1; private = some own }
    ∷ record { public = public "Ben" 2; private = some own }
    ∷ []

abbrev stripped : List (ScopedRow Fixed)
stripped =
    record { public = public "Ada" 1; private = none }
    ∷ record { public = public "Ben" 2; private = none }
    ∷ []

second_place_first : map (λ p. p.name) (build_podium digits full) ≡ "Ben" ∷ "Ada" ∷ []
unfolding build_podium
second_place_first = refl

presenting-same_example :
    (build_visible_rows digits on_stage 10 full ≡ build_visible_rows digits on_stage 10 stripped)
    × (build_podium digits full ≡ build_podium digits stripped)
presenting-same_example =
    presenting-same digits on_stage 10 full stripped refl (refl, refl, (refl, refl, tt))
