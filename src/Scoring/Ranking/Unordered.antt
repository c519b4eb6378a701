-- ===== src/Scoring/Ranking/Unordered.antt =====
-- `rankRows` of scoring.js as a function of a class, in which students have no order.
use mathlib.Core.List.{Perm}
use mathlib.Core.List.Perm
use mathlib.Core.Quot
use mathlib.Core.Quot.{Quot, Quot-set}
use league_table.Prelude.{
  ℕ, ◌+◌, String, ◌≡◌, refl, ap, ◌∙◌, List, [], ◌∷◌, map, All, count, count-perm,
}
use league_table.Number.{Number}
use league_table.Number.Laws.{IsOrdered}
use league_table.Model.{Row, Ranked}
use league_table.Scoring.Ranking.{rounded_or, rank_rows}
use league_table.Scoring.Ranking.Order.{HasNumbers}
use league_table.Scoring.Ranking.Places.{rank_rows-competition}
use league_table.Scoring.Ranking.Rearranged.{rank_rows-perm}
use league_table.Scoring.Ranking.Fair.{IsKeyed, rank_rows-IsKeyed}

-- Lists that differ in their order only are one bag.
abbrev pub Bag : Type 0 → Type 0
Bag A = Quot (λ (xs ys : List A). Perm xs ys)

module _ {W : Type 0} ⦃num : Number W⦄ where
  open num use {lt}

  -- the place of a score in competition ranking
  abbrev pub place_in : W → List (Row W) → ℕ
  place_in s rows = 1 + count (λ x. lt s (rounded_or x.score)) rows

  abbrev pub with_place : List (Row W) → Row W → Row W × ℕ
  with_place rows r = (r, place_in (rounded_or r.score) rows)

  pub with_place-same :
      (xs ys rs : List (Row W)) → Perm xs ys → map (with_place xs) rs ≡ map (with_place ys) rs
  with_place-same xs ys [] p = refl
  with_place-same xs ys (r ∷ rs) p =
      rw
        (
          count-perm (λ x. lt (rounded_or r.score) (rounded_or x.score)) p,
          with_place-same xs ys rs p,
        )
        refl

  -- The specification: in a bag of rows each row has a place, one more than the number of rows whose
  -- rounded score is higher.
  abbrev pub placed : Bag (Row W) → Bag (Row W × ℕ)
  placed =
      Quot.lift Quot-set (λ rows. Quot.mk (map (with_place rows) rows))
        (λ xs ys p.
          ap Quot.mk (with_place-same xs ys xs p) ∙ Quot.sound (Perm.map (with_place ys) p))

  ranks-with_place :
      (rows : List (Row W)) (out : List (Ranked W))
      → All (λ r. r.rank ≡ place_in r.score_rounded rows) out
      → All (λ r. IsKeyed r.keyed) out
      → map (λ r. (r.row, r.rank)) out
        ≡ map (with_place rows) (map (λ k. k.row) (map (λ r. r.keyed) out))
  ranks-with_place rows [] h k = refl
  ranks-with_place rows (r ∷ out) (p, h) (e, k) = rw (p, e, ranks-with_place rows out h k) refl

  -- The table forgets the order in which the rows came, the locale and the tie-breakers: as a bag of
  -- rows and ranks, what `rankRows` returns is the specification's bag of the rows that it is given,
  -- if no score is NaN.
  pub rank_rows-placed :
      (laws : IsOrdered W) (locale_compare : String → String → W) (rows : List (Row W))
      (tie_breakers : List String)
      → HasNumbers rows
      → Quot.mk (map (λ r. (r.row, r.rank)) (rank_rows locale_compare rows tie_breakers))
        ≡ placed (Quot.mk rows)
  rank_rows-placed laws locale_compare rows tie_breakers h =
      ap Quot.mk (
        ranks-with_place rows _ (rank_rows-competition laws locale_compare rows tie_breakers h)
          (rank_rows-IsKeyed locale_compare rows tie_breakers))
      ∙ Quot.sound (Perm.map (with_place rows) (rank_rows-perm locale_compare rows tie_breakers))
