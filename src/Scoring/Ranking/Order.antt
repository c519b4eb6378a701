-- ===== src/Scoring/Ranking/Order.antt =====
-- The order in which `rankRows` leaves the rows. Scores are compared as the code rounds them.
use league_table.Prelude.{
  String, ◌≡◌, Bool, true, false, List, [], ◌∷◌, inl, inr, arith, Bool-cases, All, All-map,
  All-sort, All-of_map, sort, sort_insert,
}
use league_table.Number.{Number, le}
use league_table.Number.Order.{IsKnown, le_trans, le_of_not_lt}
use league_table.Number.Laws.{IsOrdered}
use league_table.Model.{Row, Keyed}
use league_table.Scoring.Ranking.{key_row, compare_rows, goes_after, sort_rows, rounded_or}

module _ {W : Type 0} ⦃num : Number W⦄ where
  open num use {sub, lt, eq}

  -- Every score is a number, so none is NaN.
  abbrev pub HasNumbers : List (Row W) → Type 0
  HasNumbers = All (λ r. IsKnown (rounded_or r.score))

  -- No later score is above an earlier one.
  abbrev pub Descends : List (Keyed W) → Type 0
  Descends [] = Unit
  Descends (r ∷ rs) = All (λ s. le s.score_rounded r.score_rounded ≡ true) rs × Descends rs

  module _ (laws : IsOrdered W) where
    open laws use {eq_symm, sub_pos}

    module _ (locale_compare : String → String → W) (tie_breakers : List String) where
      after : Keyed W → Keyed W → Bool
      after = goes_after locale_compare tie_breakers

      after→le : (a b : Keyed W) → after a b ≡ true → le a.score_rounded b.score_rounded ≡ true
      unfolding after compare_rows
      after→le a b h =
          ground (
            arith,
            sub_pos a.score_rounded b.score_rounded,
            eq_symm b.score_rounded a.score_rounded,
          )

      not_after→le :
          (a b : Keyed W)
          → IsKnown a.score_rounded
          → IsKnown b.score_rounded
          → after a b ≡ false
          → le b.score_rounded a.score_rounded ≡ true
      unfolding after compare_rows
      not_after→le a b ha hb h = ground (
        arith,
        sub_pos a.score_rounded b.score_rounded,
        le_of_not_lt laws a.score_rounded b.score_rounded ha hb,
      )

      abbrev IsBelow : W → Keyed W → Type 0
      IsBelow s r = le r.score_rounded s ≡ true

      abbrev IsScored : Keyed W → Type 0
      IsScored r = IsKnown r.score_rounded

      sort_insert-IsBelow :
          (s : W) (x : Keyed W) (xs : List (Keyed W))
          → IsBelow s x
          → All (IsBelow s) xs
          → All (IsBelow s) (sort_insert after x xs)
      sort_insert-IsBelow s x [] h k = (h, tt)
      sort_insert-IsBelow s x (y ∷ ys) h (k, ks) = elim (Bool-cases (after x y)) [
        | inl e ↦ rw e (k, sort_insert-IsBelow s x ys h ks)
        | inr e ↦ rw e (h, (k, ks))
      ]

      sort_insert-Descends :
          (x : Keyed W) (xs : List (Keyed W))
          → IsScored x
          → All IsScored xs
          → Descends xs
          → Descends (sort_insert after x xs)
      sort_insert-Descends x [] hx hs d = (tt, tt)
      sort_insert-Descends x (y ∷ ys) hx (hy, hs) (below, d) = elim (Bool-cases (after x y)) [
        | inl e ↦ rw e (
          sort_insert-IsBelow y.score_rounded x ys (after→le x y e) below,
          sort_insert-Descends x ys hx hs d,
        )
        | inr e ↦
            let first = not_after→le x y hx hy e in
            rw e ((first, All-map _ _ (λ z h. le_trans laws _ _ _ h first) ys below), (below, d))
      ]

      sort-Descends : (xs : List (Keyed W)) → All IsScored xs → Descends (sort after xs)
      sort-Descends [] h = tt
      sort-Descends (x ∷ xs) (p, h) =
          sort_insert-Descends x (sort after xs) p (All-sort after IsScored xs h)
            (sort-Descends xs h)

      pub sort_rows-HasNumbers :
          (rows : List (Row W))
          → HasNumbers rows
          → All (λ r. IsKnown r.score_rounded) (sort_rows locale_compare tie_breakers rows)
      unfolding sort_rows
      sort_rows-HasNumbers rows h = All-sort _ IsScored _ (All-of_map key_row IsScored rows h)

      pub sort_rows-Descends :
          (rows : List (Row W))
          → HasNumbers rows
          → Descends (sort_rows locale_compare tie_breakers rows)
      unfolding sort_rows after
      sort_rows-Descends rows h = sort-Descends _ (All-of_map key_row IsScored rows h)
