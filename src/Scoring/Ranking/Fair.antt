-- ===== src/Scoring/Ranking/Fair.antt =====
-- Who is ranked above whom in `rankRows` of scoring.js, whatever order the rows arrive in.
use mathlib.Core.List.{Perm, Memᴰ}
use league_table.Prelude.{
  ℕ, suc, ◌≤◌, ◌+◌, String, ◌≡◌, ◌∙◌, refl, ap, true, List, [], ◌∷◌, map, arith, All, All-sort,
  All-of_map, count, count-perm, All-Memᴰ,
}
use league_table.Number.{Number, le}
use league_table.Number.Order.{lt_of_le_lt, not_lt_of_le, IsKnown-of_le}
use league_table.Number.Laws.{IsOrdered}
use league_table.Model.{Row, Keyed, Ranked}
use league_table.Scoring.Ranking.{
  key_row, goes_after, sort_rows, rounded_or, assign_ranks, rank_rows,
}
use league_table.Scoring.Ranking.Order.{HasNumbers}
use league_table.Scoring.Ranking.Places.{rank_rows-competition, All-mark_tied}

module _ {W : Type 0} ⦃num : Number W⦄ where
  open num use {lt, eq}

  abbrev pub IsKeyed : Keyed W → Type 0
  IsKeyed k = k.score_rounded ≡ rounded_or k.row.score

  key_rows-IsKeyed : (rows : List (Row W)) → All IsKeyed (map key_row rows)
  key_rows-IsKeyed rows = All-of_map key_row IsKeyed rows (every rows)
    where
      every : (rows : List (Row W)) → All (λ r. IsKeyed (key_row r)) rows
      every [] = tt
      every (r ∷ rows) = (refl, every rows)

  assign_ranks-IsKeyed :
      (i : ℕ) (last : _) (rank : ℕ) (rs : List (Keyed W))
      → All IsKeyed rs
      → All (λ r. IsKeyed r.keyed) (assign_ranks i last rank rs)
  unfolding assign_ranks
  assign_ranks-IsKeyed i last rank [] h = tt
  assign_ranks-IsKeyed i last rank (r ∷ rs) (p, h) = (p, assign_ranks-IsKeyed (suc i) _ _ rs h)

  -- the rounded score that a row is ranked by is that of the row itself
  pub rank_rows-IsKeyed :
      (locale_compare : String → String → W) (rows : List (Row W)) (tie_breakers : List String)
      → All (λ r. IsKeyed r.keyed) (rank_rows locale_compare rows tie_breakers)
  unfolding rank_rows sort_rows
  rank_rows-IsKeyed locale_compare rows tie_breakers =
      All-mark_tied (λ k _. IsKeyed k) _
        (assign_ranks-IsKeyed _ _ _ _
          (All-sort (goes_after locale_compare tie_breakers) IsKeyed _ (key_rows-IsKeyed rows)))

  module _ (laws : IsOrdered W) where
    -- competition ranking, by the score of the row itself, among the rows in any order
    rank_in :
        (locale_compare : String → String → W) (tie_breakers : List String)
        (rows others : List (Row W)) {r : Row W}
        → Perm rows (r ∷ others)
        → HasNumbers rows
        → (x : Ranked W) → Memᴰ x (rank_rows locale_compare rows tie_breakers)
        → x.row ≡ r
        → x.rank ≡ 1 + count (λ z. lt (rounded_or r.score) (rounded_or z.score)) (r ∷ others)
    rank_in locale_compare tie_breakers rows others {r} p h x m e =
        let placed =
          All-Memᴰ _ _ (rank_rows-competition laws locale_compare rows tie_breakers h) m in
        let keyed : x.score_rounded ≡ rounded_or x.row.score =
          All-Memᴰ _ _ (rank_rows-IsKeyed locale_compare rows tie_breakers) m in
        let same : x.score_rounded ≡ rounded_or r.score =
          keyed ∙ ap (λ (r : Row W). rounded_or r.score) e in
        rw same at placed ∙ ap (◌+◌ 1) (count-perm _ p)

    -- above a higher score there are no more rows
    count-above_mono :
        (s t : W) (rows : List (Row W))
        → le s t ≡ true
        → count (λ x. lt t (rounded_or x.score)) rows ≤ count (λ x. lt s (rounded_or x.score)) rows
    count-above_mono s t [] h = omega arith
    count-above_mono s t (x ∷ rows) h =
        ground (arith, count-above_mono s t rows h, lt_of_le_lt laws s t (rounded_or x.score) h)

    -- A student is not ranked lower for a higher score. In two tables, in any orders, languages and
    -- with any tie-breakers, that have the same rows but for one, whose rounded score is at least as
    -- high in the second, that row has a rank there that is no larger, if no score is NaN.
    pub rank_rows_fair :
        (compare compare' : String → String → W) (tie_breakers tie_breakers' : List String)
        (rows rows' others : List (Row W)) {before after : Row W}
        → Perm rows (before ∷ others)
        → Perm rows' (after ∷ others)
        → HasNumbers rows
        → HasNumbers rows'
        → le (rounded_or before.score) (rounded_or after.score) ≡ true
        → (x y : Ranked W) → Memᴰ x (rank_rows compare rows tie_breakers)
        → Memᴰ y (rank_rows compare' rows' tie_breakers')
        → x.row ≡ before
        → y.row ≡ after
        → y.rank ≤ x.rank
    rank_rows_fair compare compare' tie_breakers tie_breakers' rows rows' others {before} {after} p
          p' h h' up x y m m' e e' =
        let high = rank_in compare tie_breakers rows others p h x m e in
        let low = rank_in compare' tie_breakers' rows' others p' h' y m' e' in
        let itself =
          not_lt_of_le laws (rounded_or after.score) (rounded_or after.score)
            (ground (arith, IsKnown-of_le laws _ (rounded_or after.score) up)) in
        ground (
          arith,
          itself,
          high,
          low,
          count-above_mono (rounded_or before.score) (rounded_or after.score) others up,
        )
