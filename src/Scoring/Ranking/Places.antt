-- ===== src/Scoring/Ranking/Places.antt =====
-- The ranks that `rankRows` gives, against competition ranking (1, 1, 3).
use league_table.Prelude.{
  ℕ, ◌+◌, String, ◌≡◌, ◌∙◌, true, none, some, List, [], ◌∷◌, map, inl, inr, arith, Bool-cases, All,
  All-map, count, count-sort, count-map, length,
}
use league_table.Number.{Number, le}
use league_table.Number.Order.{IsKnown, le_trans, not_lt_of_le, lt_of_lt_le}
use league_table.Number.Laws.{IsOrdered}
use league_table.Model.{Row, Keyed, Ranked}
use league_table.Scoring.Ranking.{
  key_row, sort_rows, rounded_or, assign_ranks, mark_tied, rank_rows,
}
use league_table.Scoring.Ranking.Order.{
  HasNumbers, Descends, sort_rows-Descends, sort_rows-HasNumbers,
}

module _ {W : Type 0} ⦃num : Number W⦄ where
  open num use {lt, eq}

  -- How many rows have a higher score than `s`.
  abbrev pub above : W → List (Keyed W) → ℕ
  above s = count (λ r. lt s r.score_rounded)

  -- The second pass changes neither a row nor its rank.
  pub All-mark_tied {κ} :
      (P : Keyed W → ℕ → Type κ) (rs : List (Ranked W))
      → All (λ r. P r.keyed r.rank) rs
      → All (λ r. P r.keyed r.rank) (mark_tied rs)
  unfolding mark_tied
  All-mark_tied P [] h = tt
  All-mark_tied P (r ∷ []) h = h
  All-mark_tied P (r ∷ next ∷ rs) (p, h) = (p, All-mark_tied P (next ∷ rs) h)

  module _ (laws : IsOrdered W) where
    open laws use {eq_symm, lt-eq_left}

    -- below everything that is scored `s` or more
    above-All :
        (s t : W) (rs : List (Keyed W))
        → lt s t ≡ true
        → All (λ r. le t r.score_rounded ≡ true) rs
        → above s rs ≡ length rs
    above-All s t [] h k = omega arith
    above-All s t (r ∷ rs) h (k, ks) =
        rw (lt_of_lt_le laws s t r.score_rounded h k) (omega (arith, above-All s t rs h ks))

    above_none :
        (s : W) (rs : List (Keyed W)) → All (λ r. le r.score_rounded s ≡ true) rs → above s rs ≡ 0
    above_none s [] h = omega arith
    above_none s (r ∷ rs) (h, hs) =
        rw (not_lt_of_le laws r.score_rounded s h) (omega (arith, above_none s rs hs))

    above_congr : (s t : W) (rs : List (Keyed W)) → eq s t ≡ true → above s rs ≡ above t rs
    above_congr s t [] h = omega arith
    above_congr s t (r ∷ rs) h =
        rw (lt-eq_left s t r.score_rounded h) (omega (arith, above_congr s t rs h))

    -- a count over the row in turn, from the rows behind it to the rows ahead
    moved :
        (P : List (Keyed W)) (r : Keyed W) (rs : List (Keyed W)) (out : List (Ranked W))
        → All (λ x. x.rank ≡ 1 + (above x.score_rounded (r ∷ P) + above x.score_rounded rs)) out
        → All (λ x. x.rank ≡ 1 + (above x.score_rounded P + above x.score_rounded (r ∷ rs))) out
    moved P r rs = All-map _ _ (λ x e. omega (arith, e))

    -- `P` is what the pass has seen, `last` its lowest score.
    assign_ranks_lem :
        (P : List (Keyed W)) (last : W) (rank : ℕ) (S : List (Keyed W))
        → All (λ r. le last r.score_rounded ≡ true) P
        → rank ≡ 1 + above last P
        → All (λ r. le r.score_rounded last ≡ true) S
        → All (λ r. IsKnown r.score_rounded) S
        → Descends S
        → All
            (λ r. r.rank ≡ 1 + (above r.score_rounded P + above r.score_rounded S))
            (assign_ranks (length P) (some last) rank S)
    unfolding assign_ranks
    assign_ranks_lem P last rank [] hP hr hS hn d = tt
    assign_ranks_lem P last rank (r ∷ rs) hP hr (h, hS) (n, hn) (below, d) =
        let itself : le r.score_rounded r.score_rounded ≡ true = ground arith in
        let none_under = above_none r.score_rounded (r ∷ rs) (itself, below) in
        let counted = moved P r rs in
        elim (Bool-cases (eq r.score_rounded last)) [
          | inl e ↦ rw e (
            omega (arith, none_under, above_congr r.score_rounded last P e),
            counted _ (
                assign_ranks_lem (r ∷ P) last rank rs
                  (ground (arith, eq_symm r.score_rounded last), hP)
                  (rw (not_lt_of_le laws r.score_rounded last h) (omega arith)) hS hn d),
          )
          | inr e ↦
              let less : lt r.score_rounded last ≡ true = ground arith in
              let whole_prefix = above-All r.score_rounded last P less hP in
              rw e (
                omega (arith, none_under, whole_prefix),
                counted _ (
                    assign_ranks_lem (r ∷ P) r.score_rounded (length P + 1) rs
                      (itself, All-map _ _ (λ x k. le_trans laws _ _ _ h k) P hP)
                      (rw (not_lt_of_le laws r.score_rounded r.score_rounded itself)
                        (omega (arith, whole_prefix)))
                      below hn d),
              )
        ]

    above-sort_rows :
        (locale_compare : String → String → W) (rows : List (Row W)) (tie_breakers : List String)
        (s : W)
        → above s (sort_rows locale_compare tie_breakers rows)
          ≡ count (λ x. lt s (rounded_or x.score)) rows
    unfolding sort_rows
    above-sort_rows locale_compare rows tie_breakers s =
        count-sort _ _ (map key_row rows) ∙ count-map key_row _ rows

    ranks-IsCompetition :
        (S : List (Keyed W))
        → All (λ r. IsKnown r.score_rounded) S
        → Descends S
        → All (λ r. r.rank ≡ 1 + above r.score_rounded S) (mark_tied (assign_ranks 0 none 0 S))
    unfolding assign_ranks
    ranks-IsCompetition [] hn d = All-mark_tied _ _ tt
    ranks-IsCompetition (r ∷ rs) (n, hn) (below, d) =
        let itself : le r.score_rounded r.score_rounded ≡ true = ground arith in
        let first = above_none r.score_rounded (r ∷ rs) (itself, below) in
        let rest =
          assign_ranks_lem (r ∷ []) r.score_rounded 1 rs (itself, tt)
            (rw (not_lt_of_le laws r.score_rounded r.score_rounded itself) (omega arith)) below hn
            d in
        All-mark_tied _ _
          (omega (arith, first), All-map _ _ (λ x e. omega (arith, e)) _ (moved [] r rs _ rest))

    -- Competition ranking (1, 1, 3), in any locale and with any tie-breakers. If no score is NaN,
    -- the rank of each row that `rankRows` returns is one more than the number of input rows whose
    -- rounded score is higher.
    pub rank_rows-competition :
        (locale_compare : String → String → W) (rows : List (Row W)) (tie_breakers : List String)
        → HasNumbers rows
        → All
            (λ r. r.rank ≡ 1 + count (λ x. lt r.score_rounded (rounded_or x.score)) rows)
            (rank_rows locale_compare rows tie_breakers)
    unfolding rank_rows
    rank_rows-competition locale_compare rows tie_breakers h =
        let sorted = sort_rows locale_compare tie_breakers rows in
        All-map _ _
          (λ x e.
            omega (arith, e, above-sort_rows locale_compare rows tie_breakers x.score_rounded))
          _
          (ranks-IsCompetition sorted (sort_rows-HasNumbers laws locale_compare tie_breakers rows h)
            (sort_rows-Descends laws locale_compare tie_breakers rows h))
