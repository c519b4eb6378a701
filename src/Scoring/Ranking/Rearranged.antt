-- ===== src/Scoring/Ranking/Rearranged.antt =====
-- `rankRows` loses no row, adds none, and leaves them from the highest score to the lowest.
use mathlib.Core.List.{Perm}
use mathlib.Core.List.Perm
use league_table.Prelude.{
  ℕ, suc, String, ◌≡◌, refl, ap, ◌∙◌, Option, none, List, [], ◌∷◌, map, sort-perm,
}
use league_table.Number.{Number}
use league_table.Number.Laws.{IsOrdered}
use league_table.Model.{Row, Keyed, Ranked}
use league_table.Scoring.Ranking.{
  key_row, goes_after, sort_rows, assign_ranks, mark_tied, rank_rows,
}
use league_table.Scoring.Ranking.Order.{HasNumbers, Descends, sort_rows-Descends}

module _ {W : Type 0} ⦃num : Number W⦄ where
  assign_ranks-keyed :
      (i : ℕ) (last : Option W) (rank : ℕ) (rs : List (Keyed W))
      → map (λ r. r.keyed) (assign_ranks i last rank rs) ≡ rs
  unfolding assign_ranks
  assign_ranks-keyed i last rank [] = refl
  assign_ranks-keyed i last rank (r ∷ rs) = ap (◌∷◌ r) (assign_ranks-keyed (suc i) _ _ rs)

  mark_tied-keyed :
      (rs : List (Ranked W)) → map (λ r. r.keyed) (mark_tied rs) ≡ map (λ r. r.keyed) rs
  unfolding mark_tied
  mark_tied-keyed [] = refl
  mark_tied-keyed (r ∷ []) = refl
  mark_tied-keyed (r ∷ next ∷ rs) = ap (◌∷◌ r.keyed) (mark_tied-keyed (next ∷ rs))

  pub rank_rows-keyed :
      (locale_compare : String → String → W) (rows : List (Row W)) (tie_breakers : List String)
      → map (λ r. r.keyed) (rank_rows locale_compare rows tie_breakers)
        ≡ sort_rows locale_compare tie_breakers rows
  unfolding rank_rows
  rank_rows-keyed locale_compare rows tie_breakers =
      mark_tied-keyed _ ∙ assign_ranks-keyed 0 none 0 (sort_rows locale_compare tie_breakers rows)

  map-row-key_row : (rows : List (Row W)) → map (λ k. k.row) (map key_row rows) ≡ rows
  map-row-key_row [] = refl
  map-row-key_row (r ∷ rs) = ap (◌∷◌ r) (map-row-key_row rs)

  -- The rows of `rankRows` are the input rows in another order.
  pub rank_rows-perm :
      (locale_compare : String → String → W) (rows : List (Row W)) (tie_breakers : List String)
      → Perm
          (map (λ k. k.row) (map (λ r. r.keyed) (rank_rows locale_compare rows tie_breakers)))
          rows
  unfolding sort_rows
  rank_rows-perm locale_compare rows tie_breakers =
      rw (rank_rows-keyed locale_compare rows tie_breakers) (
        rw (map-row-key_row rows) at (
          Perm.map (λ k. k.row)
            (sort-perm (goes_after locale_compare tie_breakers) (map key_row rows))))

  -- The rows of `rankRows` are the input rows in another order, and if no score is NaN, no later
  -- row has a higher rounded score than an earlier one.
  pub rank_rows-rearranges :
      (laws : IsOrdered W) (locale_compare : String → String → W) (rows : List (Row W))
      (tie_breakers : List String)
      → HasNumbers rows
      → let out = map (λ r. r.keyed) (rank_rows locale_compare rows tie_breakers) in
        Perm (map (λ k. k.row) out) rows × Descends out
  rank_rows-rearranges laws locale_compare rows tie_breakers h = (
    rank_rows-perm locale_compare rows tie_breakers,
    rw (rank_rows-keyed locale_compare rows tie_breakers)
        (sort_rows-Descends laws locale_compare tie_breakers rows h),
  )
