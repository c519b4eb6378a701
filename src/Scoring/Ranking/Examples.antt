-- ===== src/Scoring/Ranking/Examples.antt =====
-- Ranking on small tables of fixed-point numbers, ordered by name lengths where all else ties.
use Prim.Native.String.{count}
use mathlib.Core.List.{Perm, Memᴰ}
use mathlib.Core.List.Perm
use league_table.Prelude.{
  ℕ, ◌+◌, ◌≤◌, String, ◌≡◌, ◌↔◌, refl, get_elem?, Bool, true, false, Option, none, some, List, [],
  ◌∷◌, map, ltb, All, length, arith,
}
use league_table.Prelude as Prelude
use league_table.Number.Fixed.{Fixed, plus, fixed_number}
use league_table.Number.Fixed.Ordered.{Fixed-IsOrdered}
use league_table.Model.{Row, Ranked}
use league_table.Scoring.Ranking.{rounded_or, key_row, rank_rows}
use league_table.Scoring.Ranking.Fair.{rank_rows_fair}
use mathlib.Core.Quot.{Quot}
use league_table.Scoring.Ranking.Unordered.{placed, rank_rows-placed}
use league_table.Scoring.Ranking.RawOrder.{IsOrderedByRaw, rank_rows-IsOrderedByRaw}
use league_table.Scoring.Ranking.Order.{HasNumbers, Descends}
use league_table.Scoring.Ranking.Ties.{rank_rows_tied}
use league_table.Scoring.Ranking.Rearranged.{rank_rows-rearranges}

abbrev row_of : String → Option Fixed → Option Fixed → Row Fixed
row_of name score raw = record {
  student_id = name;
  display_name = name;
  full_name = name;
  score = score;
  raw = raw;
  factor = none;
  weighted_hours = none;
  capped = false;
  hours_source = "none";
  weeks = [];
  parts = [];
  missing_keys = [];
  normalised_by_key = [];
}

abbrev by_length : String → String → Fixed
by_length a b = fixed_number.sub (plus (count a)) (plus (count b))

-- 91.24 and 91.16 are both 91.2 when rounded.
abbrev table : List (Row Fixed)
table =
    row_of "Dara" (some (plus 70000)) (some (plus 70000))
    ∷ row_of "Ben" (some (plus 91240)) (some (plus 88000))
    ∷ row_of "Cleo" none none
    ∷ row_of "Amara" (some (plus 91160)) (some (plus 91160))
    ∷ []

abbrev ranks : List (Ranked Fixed) → List (String × ℕ × Bool)
ranks = map λ r. (r.display_name, r.rank, r.tied)

rank_table :
    ranks (rank_rows by_length table [])
    ≡ ("Amara", 1, true) ∷ ("Ben", 1, true) ∷ ("Dara", 3, false) ∷ ("Cleo", 4, false) ∷ []
unfolding rank_rows
rank_table = refl

table-HasNumbers : HasNumbers table
table-HasNumbers = (refl, (refl, (refl, (refl, tt))))

rank_rows_tied_example :
    All
      (λ r.
        r.tied
        ≡ ltb 1 (Prelude.count (λ x. fixed_number.eq r.score_rounded (rounded_or x.score)) table))
      (rank_rows by_length table [])
rank_rows_tied_example = rank_rows_tied Fixed-IsOrdered by_length table [] table-HasNumbers

rank_rows-rearranges_example :
    let out = map (λ r. r.keyed) (rank_rows by_length table []) in
    Perm (map (λ k. k.row) out) table × Descends out
rank_rows-rearranges_example =
    rank_rows-rearranges Fixed-IsOrdered by_length table [] table-HasNumbers

rank_rows-IsOrderedByRaw_example :
    IsOrderedByRaw (map (λ r. r.keyed) (rank_rows by_length table []))
rank_rows-IsOrderedByRaw_example =
    rank_rows-IsOrderedByRaw Fixed-IsOrdered by_length table []
      ((refl, refl), ((refl, refl), ((refl, refl), ((refl, refl), tt))))

abbrev others : List (Row Fixed)
others =
    row_of "Ben" (some (plus 91240)) (some (plus 88000))
    ∷ row_of "Cleo" none none
    ∷ row_of "Amara" (some (plus 91160)) (some (plus 91160))
    ∷ []

-- Dara's row in the table, and after a better week
abbrev dara : Row Fixed
dara = row_of "Dara" (some (plus 70000)) (some (plus 70000))

abbrev better : Row Fixed
better = row_of "Dara" (some (plus 91210)) (some (plus 90000))

-- the table with the better row, in another order
abbrev improved : List (Row Fixed)
improved =
    row_of "Ben" (some (plus 91240)) (some (plus 88000))
    ∷ better
    ∷ row_of "Cleo" none none
    ∷ row_of "Amara" (some (plus 91160)) (some (plus 91160))
    ∷ []

abbrev third : Ranked Fixed
third = record { keyed = key_row dara; rank = 3; tied = false }

abbrev first : Ranked Fixed
first = record { keyed = key_row better; rank = 1; tied = true }

third-Memᴰ : Memᴰ third (rank_rows by_length table [])
unfolding rank_rows
third-Memᴰ = Memᴰ.tail (Memᴰ.tail (Memᴰ.head refl))

first-Memᴰ : Memᴰ first (rank_rows by_length improved ("attendance" ∷ []))
unfolding rank_rows
first-Memᴰ = Memᴰ.tail (Memᴰ.head refl)

rank_rows_fair_example : first.rank ≤ third.rank
rank_rows_fair_example =
    rank_rows_fair Fixed-IsOrdered by_length by_length [] ("attendance" ∷ []) table improved others
      Perm.rfl (Perm.swap better _ _) table-HasNumbers (refl, (refl, (refl, (refl, tt)))) refl third
      first third-Memᴰ first-Memᴰ refl refl

rank_rows-placed_example :
    Quot.mk (map (λ r. (r.row, r.rank)) (rank_rows by_length table ("attendance" ∷ [])))
    ≡ placed (Quot.mk table)
rank_rows-placed_example =
    rank_rows-placed Fixed-IsOrdered by_length table ("attendance" ∷ []) table-HasNumbers
