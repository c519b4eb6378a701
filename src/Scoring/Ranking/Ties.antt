-- ===== src/Scoring/Ranking/Ties.antt =====
-- Which rows `rankRows` marks as tied.
use league_table.Prelude.{
  ℕ, ◌+◌, ◌≤◌, String, ◌≡◌, ◌∙◌, ap, sym, refl, suc, Bool, true, false, none, some, List, [], ◌∷◌,
  map, inl, inr, arith, Bool-cases, All, All-map, count, count-sort, count-map, length,
  if◌then◌else◌, ◌==◌, ltb,
}
use league_table.Number.{Number, le}
use league_table.Number.Order.{IsKnown, le_trans, lt_of_lt_le, lt_of_le_lt, ne_of_lt}
use league_table.Number.Laws.{IsOrdered}
use league_table.Model.{Row, Keyed, Ranked}
use league_table.Scoring.Ranking.{
  key_row, sort_rows, rounded_or, assign_ranks, mark_tied, rank_rows,
}
use league_table.Scoring.Ranking.Order.{
  HasNumbers, Descends, sort_rows-Descends, sort_rows-HasNumbers,
}

module _ {W : Type 0} ⦃num : Number W⦄ where
  open num use {lt, eq}

  -- How many rows have the score `s`.
  abbrev pub level : W → List (Keyed W) → ℕ
  level s = count (λ r. eq s r.score_rounded)

  module _ (laws : IsOrdered W) where
    open laws use {lt-ne, eq_symm, eq_trans}

    eq_iff_left : (s t u : W) → eq s t ≡ true → eq s u ≡ eq t u
    eq_iff_left s t u h = ground (arith, eq_trans t s u (eq_symm s t h), eq_trans s t u h)

    level_congr : (s t : W) (rs : List (Keyed W)) → eq s t ≡ true → level s rs ≡ level t rs
    level_congr s t [] h = omega arith
    level_congr s t (r ∷ rs) h =
        rw (eq_iff_left s t r.score_rounded h) (omega (arith, level_congr s t rs h))

    -- all of `rs` is above `s`
    level_under :
        (s t : W) (rs : List (Keyed W))
        → lt s t ≡ true
        → All (λ r. le t r.score_rounded ≡ true) rs
        → level s rs ≡ 0
    level_under s t [] h k = omega arith
    level_under s t (r ∷ rs) h (k, ks) =
        rw (lt-ne s r.score_rounded (lt_of_lt_le laws s t r.score_rounded h k))
          (omega (arith, level_under s t rs h ks))

    -- all of `rs` is below `s`
    level_over :
        (s t : W) (rs : List (Keyed W))
        → lt t s ≡ true
        → All (λ r. le r.score_rounded t ≡ true) rs
        → level s rs ≡ 0
    level_over s t [] h k = omega arith
    level_over s t (r ∷ rs) h (k, ks) =
        rw (ne_of_lt laws s r.score_rounded (lt_of_le_lt laws r.score_rounded t s k h))
          (omega (arith, level_over s t rs h ks))

    -- `P` is what the first pass has seen, `last` its lowest score.
    abbrev IsMarked : List (Keyed W) → List (Keyed W) → List (Ranked W) → Type 0
    IsMarked P S = All (λ r. r.tied ≡ ltb 1 (level r.score_rounded P + level r.score_rounded S))

    moved :
        (P : List (Keyed W)) (r : Keyed W) (rs : List (Keyed W)) (out : List (Ranked W))
        → IsMarked (r ∷ P) rs out
        → IsMarked P (r ∷ rs) out
    moved P r rs = All-map _ _ (λ x e. e ∙ ap (ltb 1) (omega arith))

    -- the head's mark, after its own round of the first pass
    same-level :
        (P : List (Keyed W)) (last : W) (r : Keyed W)
        → All (λ p. le last p.score_rounded ≡ true) P
        → 1 ≤ level last P
        → le r.score_rounded last ≡ true
        → eq r.score_rounded last ≡ ltb 0 (level r.score_rounded P)
    same-level P last r hP hl h = elim (Bool-cases (eq r.score_rounded last)) [
      | inl e ↦ rw e (ground (arith, level_congr r.score_rounded last P e))
      | inr e ↦
          let less : lt r.score_rounded last ≡ true = ground arith in
          rw e (ground (arith, level_under r.score_rounded last P less hP))
    ]

    -- the head's mark after the second pass, where a row follows: `last` and `rank` are those that
    -- the first pass goes on with
    head_mark :
        (P : List (Keyed W)) (last : W) (rank : ℕ) (same : Bool) (r n : Keyed W)
        (ns : List (Keyed W))
        → eq r.score_rounded last ≡ true
        → rank ≤ length P + 1
        → same ≡ ltb 0 (level r.score_rounded P)
        → le n.score_rounded r.score_rounded ≡ true
        → All (λ s. le s.score_rounded n.score_rounded ≡ true) ns
        → (if (if eq n.score_rounded last then rank else suc (length P) + 1) == rank
            then true
            else same)
          ≡ ltb 1 (level r.score_rounded P + level r.score_rounded (r ∷ n ∷ ns))
    head_mark P last rank same r n ns e hr hs hn below =
        let itself = eq_trans _ _ _ e (eq_symm _ _ e) in
        elim (Bool-cases (eq n.score_rounded last)) [
          | inl q ↦
              let next = eq_trans _ _ _ e (eq_symm _ _ q) in rw (q, itself, next) (ground arith)
          | inr q ↦
              let apart : lt n.score_rounded r.score_rounded ≡ true =
                ground (arith, eq_trans n.score_rounded r.score_rounded last) in
              rw (q, itself, ne_of_lt laws r.score_rounded n.score_rounded apart)
                (ground (arith, level_over r.score_rounded n.score_rounded ns apart below))
        ]

    -- the first pass over `r ∷ rs`, by the outcome of its test at `r`
    abbrev after_test : List (Keyed W) → W → ℕ → Keyed W → List (Keyed W) → Bool → List (Ranked W)
    after_test P last rank r rs same =
        let next = if same then rank else length P + 1 in
        record { keyed = r; rank = next; tied = same }
        ∷ assign_ranks (suc (length P)) (if same then some last else some r.score_rounded) next rs

    after_test-IsMarked :
        (P : List (Keyed W)) (last : W) (rank : ℕ) (r s : Keyed W) (ss : List (Keyed W))
        (same : Bool)
        → eq r.score_rounded last ≡ same
        → eq r.score_rounded last ≡ ltb 0 (level r.score_rounded P)
        → rank ≤ length P
        → IsKnown r.score_rounded
        → le s.score_rounded r.score_rounded ≡ true
        → All (λ t. le t.score_rounded s.score_rounded ≡ true) ss
        → (same ≡ true
            → IsMarked
                (r ∷ P)
                (s ∷ ss)
                (mark_tied (assign_ranks (suc (length P)) (some last) rank (s ∷ ss))))
        → (same ≡ false
            → IsMarked (r ∷ P) (s ∷ ss) (
                mark_tied
                  (assign_ranks (suc (length P)) (some r.score_rounded) (length P + 1) (s ∷ ss))))
        → IsMarked P (r ∷ s ∷ ss) (mark_tied (after_test P last rank r (s ∷ ss) same))
    unfolding assign_ranks mark_tied
    after_test-IsMarked P last rank r s ss true e marked hr k le_s below old new = (
      head_mark P last rank true r s ss e (omega arith) (sym e ∙ marked) le_s below,
      moved P r (s ∷ ss) _ (old refl),
    )
    after_test-IsMarked P last rank r s ss false e marked hr k le_s below old new = (
      head_mark P r.score_rounded (length P + 1) false r s ss k (omega arith) (sym e ∙ marked) le_s
          below,
      moved P r (s ∷ ss) _ (new refl),
    )

    marks_lem :
        (P : List (Keyed W)) (last : W) (rank : ℕ) (S : List (Keyed W))
        → All (λ p. le last p.score_rounded ≡ true) P
        → 1 ≤ level last P
        → rank ≤ length P
        → All (λ r. le r.score_rounded last ≡ true) S
        → All (λ r. IsKnown r.score_rounded) S
        → Descends S
        → IsMarked P S (mark_tied (assign_ranks (length P) (some last) rank S))
    unfolding assign_ranks mark_tied
    marks_lem P last rank [] hP hl hr hS hn d = tt
    marks_lem P last rank (r ∷ []) hP hl hr (h, hS) (n, hn) d =
        (same-level P last r hP hl h ∙ rw n (ground arith), tt)
    marks_lem P last rank (r ∷ s ∷ ss) hP hl hr (h, hS) (k, ks) ((le_s, below), (below_s, d)) =
        after_test-IsMarked P last rank r s ss (eq r.score_rounded last) refl
          (same-level P last r hP hl h) hr k le_s below_s
          (λ e.
            marks_lem (r ∷ P) last rank (s ∷ ss) (ground (arith, eq_symm r.score_rounded last), hP)
              (ground arith) (omega arith) hS ks (below_s, d))
          λ e.
            marks_lem (r ∷ P) r.score_rounded (length P + 1) (s ∷ ss)
              (ground arith, All-map _ _ (λ x q. le_trans laws _ _ _ h q) P hP) (rw k (omega arith))
              (omega arith) (le_s, below) ks (below_s, d)

    marks-IsMarked :
        (S : List (Keyed W))
        → All (λ r. IsKnown r.score_rounded) S
        → Descends S
        → IsMarked [] S (mark_tied (assign_ranks 0 none 0 S))
    unfolding assign_ranks mark_tied
    marks-IsMarked [] hn d = tt
    marks-IsMarked (r ∷ []) (n, _) d = (rw n, tt)
    marks-IsMarked (r ∷ s ∷ ss) (n, hn) ((le_s, below), d) =
        let itself : le r.score_rounded r.score_rounded ≡ true = ground arith in
        (
          head_mark [] r.score_rounded 1 false r s ss n (omega arith) refl le_s d.0,
          moved [] r (s ∷ ss) _ (
              marks_lem (r ∷ []) r.score_rounded 1 (s ∷ ss) (itself, tt) (rw n (omega arith))
                (omega arith) (le_s, below) hn d),
        )

    level-sort_rows :
        (locale_compare : String → String → W) (rows : List (Row W)) (tie_breakers : List String)
        (s : W)
        → level s (sort_rows locale_compare tie_breakers rows)
          ≡ count (λ x. eq s (rounded_or x.score)) rows
    unfolding sort_rows
    level-sort_rows locale_compare rows tie_breakers s =
        count-sort _ _ (map key_row rows) ∙ count-map key_row _ rows

    -- If no score is NaN, `rankRows` marks a row as tied exactly when at least two input rows, itself
    -- among them, have its rounded score; raw scores and tie-breakers never part such rows.
    pub rank_rows_tied :
        (locale_compare : String → String → W) (rows : List (Row W)) (tie_breakers : List String)
        → HasNumbers rows
        → All
            (λ r. r.tied ≡ ltb 1 (count (λ x. eq r.score_rounded (rounded_or x.score)) rows))
            (rank_rows locale_compare rows tie_breakers)
    unfolding rank_rows
    rank_rows_tied locale_compare rows tie_breakers h =
        let sorted = sort_rows locale_compare tie_breakers rows in
        All-map _ _
          (λ x e.
            e
            ∙ ap (ltb 1)
                (omega (arith, level-sort_rows locale_compare rows tie_breakers x.score_rounded)))
          _
          (marks-IsMarked sorted (sort_rows-HasNumbers laws locale_compare tie_breakers rows h)
            (sort_rows-Descends laws locale_compare tie_breakers rows h))
