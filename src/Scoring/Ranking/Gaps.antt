-- ===== src/Scoring/Ranking/Gaps.antt =====
-- When a row of a ranked table has a gap to a rank above.
use league_table.Prelude.{
  ℕ, suc, zero, ◌+◌, ◌≤◌, String, ◌≡◌, ◌≢◌, ◌↔◌, refl, ap, ◌∙◌, sym, Bool, true, false, Option,
  none, some, List, [], ◌∷◌, ◌++◌, reverse, arith, inl, inr, Bool-cases, ltb, if◌then◌else◌, All,
  All-append, All-map, find, take, get_elem?,
}
use mathlib.Core.Path.{subst}
use mathlib.Core.Option.{some-injective}
use mathlib.Core.List.{reverse-cons}
use league_table.Number.{Number}
use league_table.Model.{Row, Keyed, Ranked}
use league_table.Scoring.Ranking.{
  assign_ranks, mark_tied, sort_rows, rank_rows, next_above, gap_to, gap_to_next, same_as_last,
}
use league_table.Scoring.Ranking.Places.{All-mark_tied}

module _ {A : Type 0} (p : A → Bool) where
  find-append_last : (xs : List A) (y : A) → p y ≡ true → find p (xs ++ (y ∷ [])) ≢ none
  find-append_last [] y h e = ground arith
  find-append_last (x ∷ xs) y h e = ground (arith, find-append_last xs y h)

  find-none : (xs : List A) → All (λ x. p x ≡ false) xs → find p xs ≡ none
  find-none [] h = refl
  find-none (x ∷ xs) (hx, h) = rw hx (find-none xs h)

  All-reverse : (P : A → Type 0) (xs : List A) → All P xs → All P (reverse xs)
  All-reverse P [] h = tt
  All-reverse P (x ∷ xs) (hx, h) =
      rw (reverse-cons x xs) (All-append P (reverse xs) (x ∷ []) (All-reverse P xs h) (hx, tt))

  All-take : (P : A → Type 0) (n : ℕ) (xs : List A) → All P xs → All P (take n xs)
  All-take P zero xs h = tt
  All-take P (suc n) [] h = tt
  All-take P (suc n) (x ∷ xs) (hx, h) = (hx, All-take P n xs h)

All-get_elem? :
    {A : Type 0} (P : A → Type 0) (xs : List A) (i : ℕ) {x : A}
    → All P xs
    → get_elem? xs i ≡ some x
    → P x
All-get_elem? P [] i h = λ e. cc
All-get_elem? P (y ∷ ys) zero (hy, h) = λ e. subst P (some-injective _ _ e) hy
All-get_elem? P (y ∷ ys) (suc i) (hy, h) = All-get_elem? P ys i h

module _ {W : Type 0} ⦃num : Number W⦄ where
  -- Ranks start at 1.
  abbrev FromOne : List (Ranked W) → Type 0
  FromOne [] = Unit
  FromOne (r ∷ rs) = r.rank ≡ 1

  assign_ranks-positive :
      (i : ℕ) (last : Option W) (rank : ℕ) (rows : List (Keyed W))
      → 1 ≤ rank
      → All (λ r. 1 ≤ r.rank) (assign_ranks i last rank rows)
  unfolding assign_ranks
  assign_ranks-positive i last rank [] h = tt
  assign_ranks-positive i last rank (r ∷ rs) h =
      let next = if same_as_last last r.score_rounded then rank else i + 1 in
      let ok : 1 ≤ next = ground arith in (ok, assign_ranks-positive (suc i) _ next rs ok)

  pass-positive : (rows : List (Keyed W)) → All (λ r. 1 ≤ r.rank) (assign_ranks 0 none 0 rows)
  unfolding assign_ranks
  pass-positive [] = tt
  pass-positive (r ∷ rs) =
      (omega arith, assign_ranks-positive 1 (some r.score_rounded) (0 + 1) rs (omega arith))

  pass-FromOne : (rows : List (Keyed W)) → FromOne (assign_ranks 0 none 0 rows)
  unfolding assign_ranks
  pass-FromOne [] = tt
  pass-FromOne (r ∷ rs) = omega arith

  rank_rows-positive :
      (locale_compare : String → String → W) (rows : List (Row W)) (tie_breakers : List String)
      → All (λ r. 1 ≤ r.rank) (rank_rows locale_compare rows tie_breakers)
  unfolding rank_rows sort_rows
  rank_rows-positive locale_compare rows tie_breakers =
      All-mark_tied (λ k n. 1 ≤ n) _ (pass-positive (sort_rows locale_compare tie_breakers rows))

  mark_tied-FromOne : (rs : List (Ranked W)) → FromOne rs → FromOne (mark_tied rs)
  unfolding mark_tied
  mark_tied-FromOne [] h = tt
  mark_tied-FromOne (r ∷ []) h = h
  mark_tied-FromOne (r ∷ s ∷ rs) h = h

  rank_rows-FromOne :
      (locale_compare : String → String → W) (rows : List (Row W)) (tie_breakers : List String)
      → FromOne (rank_rows locale_compare rows tie_breakers)
  unfolding rank_rows sort_rows
  rank_rows-FromOne locale_compare rows tie_breakers =
      mark_tied-FromOne _ (pass-FromOne (sort_rows locale_compare tie_breakers rows))

  gap_to-none : (r : Ranked W) (o : Option (Ranked W)) → (gap_to r o ≡ none) ↔ (o ≡ none)
  gap_to-none r none = (λ e. refl, λ e. refl)
  gap_to-none r (some x) = (λ e. cc, λ e. cc)

  -- the row that the loop of `gapToNext` finds
  nobody_above :
      (rows : List (Ranked W)) (i : ℕ) (r : Ranked W)
      → FromOne rows
      → 1 ≤ r.rank
      → get_elem? rows i ≡ some r
      → next_above rows i r ≡ none
      → r.rank ≡ 1
  nobody_above [] i r f p e n = cc
  nobody_above (x ∷ xs) zero r f p e n =
      subst (λ (y : Ranked W). y.rank ≡ 1) (some-injective _ _ e) f
  nobody_above (x ∷ xs) (suc i) r f p e n = elim (Bool-cases (ltb x.rank r.rank)) [
    | inl less ↦
        let found =
          find-append_last (λ above. ltb above.rank r.rank) (reverse (take i xs)) x less in
        elim (found
          (ap (find (λ above. ltb above.rank r.rank)) (sym (reverse-cons x (take i xs))) ∙ n)) [ ]
    | inr least ↦ ground arith
  ]

  top-nobody_above :
      (rows : List (Ranked W)) (i : ℕ) (r : Ranked W)
      → All (λ x. 1 ≤ x.rank) rows
      → r.rank ≡ 1
      → next_above rows i r ≡ none
  top-nobody_above rows i r h top =
      let p = λ (above : Ranked W). ltb above.rank r.rank in
      find-none p (reverse (take i rows)) (
        All-reverse p _ (take i rows)
          (All-take p _ i rows (All-map _ (λ x. p x ≡ false) (λ x k. ground arith) rows h)))

  gap-none :
      (rows : List (Ranked W)) (i : ℕ) (r : Ranked W)
      → FromOne rows
      → All (λ x. 1 ≤ x.rank) rows
      → get_elem? rows i ≡ some r
      → (gap_to_next rows i ≡ none) ↔ (r.rank ≡ 1)
  unfolding gap_to_next
  gap-none rows i r f h e =
      let positive = All-get_elem? (λ x. 1 ≤ x.rank) rows i h e in
      let (down, up) = gap_to-none r (next_above rows i r) in
      rw (e, gap_to_next)
        (
          λ g. nobody_above rows i r f positive e (down g),
          λ top. up (top-nobody_above rows i r h top),
        )

  -- In the table that `rankRows` returns, exactly the rows of rank 1 have no gap to a rank above.
  pub gap_to_next-none_iff :
      (locale_compare : String → String → W) (rows : List (Row W)) (tie_breakers : List String)
      (i : ℕ) (r : Ranked W)
      → get_elem? (rank_rows locale_compare rows tie_breakers) i ≡ some r
      → (gap_to_next (rank_rows locale_compare rows tie_breakers) i ≡ none) ↔ (r.rank ≡ 1)
  gap_to_next-none_iff locale_compare rows tie_breakers i r =
      gap-none _ i r (rank_rows-FromOne locale_compare rows tie_breakers)
        (rank_rows-positive locale_compare rows tie_breakers)
