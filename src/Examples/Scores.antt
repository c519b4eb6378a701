-- ===== src/Examples/Scores.antt =====
-- Raw scores of the class.
use league_table.Prelude.{◌≡◌, refl, some, [], ◌∷◌, Dict}
use league_table.Number.Fixed.{Fixed, fixed_number}
use league_table.Scoring.Raw.{aggregate, score_student}
use league_table.Examples.Fixtures.{n, criteria, entries}

abbrev weights : Dict Fixed
weights = ("attendance", n 40) ∷ ("homework", n 60) ∷ ("exam", n 0) ∷ []

-- (9 + 10 + 6) of 30 for attendance, 20 of 30 for homework, none for the exam, which weighs nothing
class_score : (score_student entries criteria weights).score ≡ some (Fixed.plus 73332)
unfolding score_student aggregate
class_score = refl
