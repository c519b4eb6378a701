-- ===== src/Scoring/Ranking/RawOrder.antt =====
-- The second key of `rankRows`: among rows of the same score, the raw score.
use league_table.Prelude.{
  String, ◌≡◌, Bool, true, false, ◌&&◌, ◌||◌, List, [], ◌∷◌, map, inl, inr, arith, Bool-cases, All,
  All-map, All-sort, All-of_map, sort, sort_insert,
}
use league_table.Number.{Number, le}
use league_table.Number.Order.{IsKnown, le_trans, le_of_not_lt}
use league_table.Number.Laws.{IsOrdered}
use league_table.Model.{Row, Keyed}
use league_table.Scoring.Ranking.{
  key_row, compare_rows, goes_after, sort_rows, rounded_or, rank_rows,
}
use league_table.Scoring.Ranking.Rearranged.{rank_rows-keyed}

module _ {W : Type 0} ⦃num : Number W⦄ where
  open num use {sub, lt, eq}

  -- `b` has a lower score than `a`, or the same and no higher raw score, all as rounded.
  abbrev pub may_follow : Keyed W → Keyed W → Bool
  may_follow a b =
      lt b.score_rounded a.score_rounded
      || (eq b.score_rounded a.score_rounded && le b.raw_rounded a.raw_rounded)

  -- Every row may follow those before it.
  abbrev pub IsOrderedByRaw : List (Keyed W) → Type 0
  IsOrderedByRaw [] = Unit
  IsOrderedByRaw (r ∷ rs) = All (λ s. may_follow r s ≡ true) rs × IsOrderedByRaw rs

  -- No score and no raw score is NaN.
  abbrev pub HasBothNumbers : List (Row W) → Type 0
  HasBothNumbers = All (λ r. IsKnown (rounded_or r.score) × IsKnown (rounded_or r.raw))

  abbrev AreKnown : Keyed W → Type 0
  AreKnown k = IsKnown k.score_rounded × IsKnown k.raw_rounded

  module _ (laws : IsOrdered W) where
    open laws use {lt_trans, lt-eq_left, lt-eq_right, eq_trans, eq_symm, sub_pos}

    may_follow_trans :
        (a b c : Keyed W) → may_follow a b ≡ true → may_follow b c ≡ true → may_follow a c ≡ true
    may_follow_trans a b c h k = ground (
      arith,
      lt_trans c.score_rounded b.score_rounded a.score_rounded,
      lt-eq_left c.score_rounded b.score_rounded a.score_rounded,
      lt-eq_right b.score_rounded a.score_rounded c.score_rounded,
      eq_trans c.score_rounded b.score_rounded a.score_rounded,
      le_trans laws c.raw_rounded b.raw_rounded a.raw_rounded,
    )

    module _ (locale_compare : String → String → W) (tie_breakers : List String) where
      after : Keyed W → Keyed W → Bool
      after = goes_after locale_compare tie_breakers

      after→follows : (a b : Keyed W) → after a b ≡ true → may_follow b a ≡ true
      unfolding after compare_rows
      after→follows a b h = ground (
        arith,
        sub_pos a.score_rounded b.score_rounded,
        sub_pos a.raw_rounded b.raw_rounded,
        eq_symm b.score_rounded a.score_rounded,
        eq_symm b.raw_rounded a.raw_rounded,
      )

      not_after→follows :
          (a b : Keyed W) → AreKnown a → AreKnown b → after a b ≡ false → may_follow a b ≡ true
      unfolding after compare_rows
      not_after→follows a b (ha, ha') (hb, hb') h = ground (
        arith,
        sub_pos a.score_rounded b.score_rounded,
        sub_pos a.raw_rounded b.raw_rounded,
        le_of_not_lt laws a.score_rounded b.score_rounded ha hb,
        le_of_not_lt laws a.raw_rounded b.raw_rounded ha' hb',
      )

      sort_insert-follows :
          (s x : Keyed W) (xs : List (Keyed W))
          → may_follow s x ≡ true
          → All (λ y. may_follow s y ≡ true) xs
          → All (λ y. may_follow s y ≡ true) (sort_insert after x xs)
      sort_insert-follows s x [] h k = (h, tt)
      sort_insert-follows s x (y ∷ ys) h (k, ks) = elim (Bool-cases (after x y)) [
        | inl e ↦ rw e (k, sort_insert-follows s x ys h ks)
        | inr e ↦ rw e (h, (k, ks))
      ]

      sort_insert-ordered :
          (x : Keyed W) (xs : List (Keyed W))
          → AreKnown x
          → All AreKnown xs
          → IsOrderedByRaw xs
          → IsOrderedByRaw (sort_insert after x xs)
      sort_insert-ordered x [] hx hs d = (tt, tt)
      sort_insert-ordered x (y ∷ ys) hx (hy, hs) (below, d) = elim (Bool-cases (after x y)) [
        | inl e ↦ rw e (
          sort_insert-follows y x ys (after→follows x y e) below,
          sort_insert-ordered x ys hx hs d,
        )
        | inr e ↦
            let first = not_after→follows x y hx hy e in
            rw e ((first, All-map _ _ (λ z h. may_follow_trans x y z first h) ys below), (below, d))
      ]

      sort-ordered : (xs : List (Keyed W)) → All AreKnown xs → IsOrderedByRaw (sort after xs)
      sort-ordered [] h = tt
      sort-ordered (x ∷ xs) (p, h) =
          sort_insert-ordered x (sort after xs) p (All-sort after AreKnown xs h) (sort-ordered xs h)

      sort_rows-ordered :
          (rows : List (Row W))
          → HasBothNumbers rows
          → IsOrderedByRaw (sort_rows locale_compare tie_breakers rows)
      unfolding sort_rows after
      sort_rows-ordered rows h = sort-ordered _ (All-of_map key_row AreKnown rows h)

  -- If no score and no raw score is NaN, each row that `rankRows` returns is followed only by rows of a
  -- lower rounded score, or of the same one and a rounded raw score that is not higher.
  pub rank_rows-IsOrderedByRaw :
      (laws : IsOrdered W) (locale_compare : String → String → W) (rows : List (Row W))
      (tie_breakers : List String)
      → HasBothNumbers rows
      → IsOrderedByRaw (map (λ r. r.keyed) (rank_rows locale_compare rows tie_breakers))
  rank_rows-IsOrderedByRaw laws locale_compare rows tie_breakers h =
      rw (rank_rows-keyed locale_compare rows tie_breakers)
        (sort_rows-ordered laws locale_compare tie_breakers rows h)
