-- ===== src/Examples/Toy.antt =====
-- The seeded data source.
use league_table.Prelude.{◌≡◌, refl, false, true, none, some, [], ◌∷◌}
use league_table.Number.Fixed.{fixed_number}
use league_table.Api.Types.{EntryQuery}
use league_table.Source.Random.{scramble, next_state}
use league_table.Source.{is_asked}
use league_table.Examples.Fixtures.{entry}

-- the first number that the generator gives from this seed
first_draw : scramble (next_state 1) ≡ 2693262067
unfolding scramble next_state
first_draw = refl

abbrev second_week : EntryQuery
second_week = record { class_id = some "c1"; week_ids = some ("w2" ∷ []); criterion_keys = none }

asked_week : is_asked second_week (entry "e1" "s01" "homework" "w2" (some 4)) ≡ true
asked_week = refl

other_week : is_asked second_week (entry "e2" "s01" "homework" "w3" (some 4)) ≡ false
other_week = refl
