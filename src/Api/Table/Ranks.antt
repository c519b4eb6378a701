-- ===== src/Api/Table/Ranks.antt =====
-- The ranks of the table that `getRanking` of api.js answers with, by the scores of that table.
use mathlib.Core.Path.{subst}
use mathlib.Core.Logic.{∥∥₁_elim}
use mathlib.Core.HLevel.{Unit-prop, ×_prop}
use mathlib.Core.Bool.{Bool-set}
use mathlib.Core.List.{Perm, Permᴰ}
use league_table.Prelude.{
  ℕ, suc, ◌+◌, String, ◌≡◌, refl, ap, sym, ◌∙◌, List, [], ◌∷◌, map, arith, All, All-map, count,
  count-perm, Dict, filter, includes,
}
use league_table.Number.{Number}
use league_table.Number.Order.{IsKnown}
use league_table.Number.Laws.{IsOrdered}
use league_table.Model.{Row, Ranked}
use league_table.Scoring.Ranking.{rounded_or, rank_rows}
use league_table.Scoring.Ranking.Places.{rank_rows-competition}
use league_table.Scoring.Ranking.Rearranged.{rank_rows-perm}
use league_table.Scoring.Ranking.Fair.{rank_rows-IsKeyed}
use league_table.Api.Types.{ok, Caller, Snapshot, DataSource, AppStore, ApiState, Env}
use league_table.Api.Snapshot.{View, rows_of, build_rows}
use league_table.Api.Weeks.{window_weeks}
use league_table.Api.Table.{
  ScopedRow, scope_row, scope_rows, view_of, previous_ranks, Request, Ranking, ranking_of,
  get_ranking,
}
use league_table.Api.Table.Privacy.{get_ranking-ok}

All-both :
    {A : Type 0} (P Q : A → Type 0) (xs : List A) → All P xs → All Q xs → All (λ x. P x × Q x) xs
All-both P Q [] h k = tt
All-both P Q (x ∷ xs) (p, h) (q, k) = ((p, q), All-both P Q xs h k)

module _ {A : Type 0} (P : A → Type 0) where
  All-Permᴰ : {xs ys : List A} → Permᴰ xs ys → All P xs → All P ys
  All-Permᴰ Permᴰ.nil h = tt
  All-Permᴰ (Permᴰ.cons e d) (p, h) = (subst P e p, All-Permᴰ d h)
  All-Permᴰ (Permᴰ.swap e e') (p, (q, h)) = (subst P e' q, (subst P e p, h))
  All-Permᴰ (Permᴰ.trans d d') h = All-Permᴰ d' (All-Permᴰ d h)

  All-prop : ((x : A) → IsProp (P x)) → (xs : List A) → IsProp (All P xs)
  All-prop prop [] = Unit-prop
  All-prop prop (x ∷ xs) = ×_prop (prop x) (All-prop prop xs)

  All-perm : ((x : A) → IsProp (P x)) → {xs ys : List A} → Perm xs ys → All P xs → All P ys
  All-perm prop {ys = ys} p h = ∥∥₁_elim p (All-prop prop ys) (λ d. All-Permᴰ d h)

module _ {W : Type 0} ⦃num : Number W⦄ where
  open num use {lt}

  -- how many rows of the table have a higher rounded score
  abbrev pub higher : ScopedRow W → List (ScopedRow W) → ℕ
  higher r = count (λ x. lt (rounded_or r.public.score) (rounded_or x.public.score))

  -- no score is NaN
  abbrev pub HasScores : List (ScopedRow W) → Type 0
  HasScores = All (λ r. IsKnown (rounded_or r.public.score))

  count-scope_rows :
      (s : W) (all : List (Ranked W)) (previous : Dict ℕ) (caller : Caller) (i : ℕ)
      (rows : List (Ranked W))
      → count (λ x. lt s (rounded_or x.public.score)) (scope_rows all previous caller i rows)
        ≡ count (λ x. lt s (rounded_or x.row.score)) rows
  unfolding scope_rows scope_row
  count-scope_rows s all previous caller i [] = refl
  count-scope_rows s all previous caller i (r ∷ rows) =
      omega (arith, count-scope_rows s all previous caller (suc i) rows)

  IsKnown-rows :
      (all : List (Ranked W)) (previous : Dict ℕ) (caller : Caller) (i : ℕ) (rows : List (Ranked W))
      → HasScores (scope_rows all previous caller i rows)
      → All (λ r. IsKnown (rounded_or r.score)) (map (λ k. k.row) (map (λ r. r.keyed) rows))
  unfolding scope_rows scope_row
  IsKnown-rows all previous caller i [] h = tt
  IsKnown-rows all previous caller i (r ∷ rows) (p, h) =
      (p, IsKnown-rows all previous caller (suc i) rows h)

  ranked_rows :
      (higher_than : W → ℕ) (all : List (Ranked W)) (previous : Dict ℕ) (caller : Caller) (i : ℕ)
      (rows : List (Ranked W))
      → All (λ r. r.rank ≡ 1 + higher_than (rounded_or r.row.score)) rows
      → All
          (λ r. r.public.rank ≡ 1 + higher_than (rounded_or r.public.score))
          (scope_rows all previous caller i rows)
  unfolding scope_rows scope_row
  ranked_rows higher_than all previous caller i [] h = tt
  ranked_rows higher_than all previous caller i (r ∷ rows) (p, h) =
      (p, ranked_rows higher_than all previous caller (suc i) rows h)

  count-rows :
      (s : W) (out : List (Ranked W))
      → count (λ x. lt s (rounded_or x.score)) (map (λ k. k.row) (map (λ r. r.keyed) out))
        ≡ count (λ x. lt s (rounded_or x.row.score)) out
  count-rows s [] = refl
  count-rows s (r ∷ out) = omega (arith, count-rows s out)

  scope_rows-own :
      (out : List (Ranked W)) (previous : Dict ℕ) (caller : Caller)
      → All
          (λ r. r.rank ≡ 1 + count (λ x. lt (rounded_or r.row.score) (rounded_or x.row.score)) out)
          out
      → let rows = scope_rows out previous caller 0 out in
        All (λ r. r.public.rank ≡ 1 + higher r rows) rows
  scope_rows-own out previous caller own =
      let higher_than : W → ℕ = λ s. count (λ x. lt s (rounded_or x.row.score)) out in
      let rows = scope_rows out previous caller 0 out in
      All-map (λ r. r.public.rank ≡ 1 + higher_than (rounded_or r.public.score))
        (λ r. r.public.rank ≡ 1 + higher r rows)
        (λ r e.
          e
          ∙ ap (◌+◌ 1)
              (sym (count-scope_rows (rounded_or r.public.score) out previous caller 0 out)))
        rows (ranked_rows higher_than out previous caller 0 out own)

  module _ (laws : IsOrdered W) where
    -- the ranks of `rankRows`, counted in what it returns
    rank_rows-own :
        (locale_compare : String → String → W) (rows : List (Row W)) (tie_breakers : List String)
        → let out = rank_rows locale_compare rows tie_breakers in
          All (λ r. IsKnown (rounded_or r.score)) (map (λ k. k.row) (map (λ r. r.keyed) out))
          → All
              (λ r.
                r.rank ≡ 1 + count (λ x. lt (rounded_or r.row.score) (rounded_or x.row.score)) out)
              out
    rank_rows-own locale_compare rows tie_breakers h =
        let out = rank_rows locale_compare rows tie_breakers in
        let known =
          All-perm (λ r. IsKnown (rounded_or r.score)) (λ r. Bool-set _ _)
            (rank_rows-perm locale_compare rows tie_breakers) h in
        let counted : (s : W)
            → count (λ x. lt s (rounded_or x.score)) rows
              ≡ count (λ x. lt s (rounded_or x.row.score)) out =
          λ s.
            sym (
              count-perm (λ x. lt s (rounded_or x.score))
                (rank_rows-perm locale_compare rows tie_breakers))
            ∙ count-rows s out in
        All-map _ _
          (λ r (e, k).
            e
            ∙ ap (λ s. 1 + count (λ x. lt s (rounded_or x.score)) rows) k
            ∙ ap (◌+◌ 1) (counted (rounded_or r.row.score)))
          out
          (All-both _ _ out (rank_rows-competition laws locale_compare rows tie_breakers known)
            (rank_rows-IsKeyed locale_compare rows tie_breakers))

    build_rows-own :
        (locale_compare : String → String → W) (snap : Snapshot W) (week_id : String)
        (view : View W)
        → let out = build_rows locale_compare snap week_id view in
          All (λ r. IsKnown (rounded_or r.score)) (map (λ k. k.row) (map (λ r. r.keyed) out))
          → All
              (λ r.
                r.rank ≡ 1 + count (λ x. lt (rounded_or r.row.score) (rounded_or x.row.score)) out)
              out
    unfolding build_rows
    build_rows-own locale_compare snap week_id view =
        let criteria = filter (λ c. includes view.criteria_keys c.key) snap.criteria in
        let weeks = window_weeks snap.weeks week_id view.window_mode view.rolling_n in
        rank_rows-own locale_compare (rows_of snap weeks criteria view snap.students)
          snap.settings.tie_breakers

    ranking_of-competition :
        (locale_compare : String → String → W) (snap : Snapshot W) (request : Request W)
        → let rows = (ranking_of locale_compare snap request).rows in
          HasScores rows → All (λ r. r.public.rank ≡ 1 + higher r rows) rows
    unfolding ranking_of
    ranking_of-competition locale_compare snap request h =
        let view = view_of snap request in
        let out = build_rows locale_compare snap request.week_id view in
        let previous = previous_ranks locale_compare snap request.week_id view in
        scope_rows-own out previous request.caller (
          build_rows-own locale_compare snap request.week_id view
            (IsKnown-rows out previous request.caller 0 out h))

    -- The ranks of a table, whoever asks for it and for whatever window, criteria and weights: if no
    -- score in it is NaN, each row has a rank one more than the number of rows of the same table
    -- whose rounded score is higher.
    pub get_ranking-competition :
        {S : Type 0} (locale_compare : String → String → W) (source : DataSource W)
        (store : AppStore W S) (env : Env) (request : Request W) (s : ApiState W S)
        (table : Ranking W)
        → (get_ranking locale_compare source store env request s).0 ≡ ok table
        → HasScores table.rows
        → All (λ r. r.public.rank ≡ 1 + higher r table.rows) table.rows
    get_ranking-competition locale_compare source store env request s table e =
        let (snap, _, same) = get_ranking-ok locale_compare source store env request s table e in
        subst
          (λ (t : Ranking W).
            HasScores t.rows → All (λ r. r.public.rank ≡ 1 + higher r t.rows) t.rows)
          same (ranking_of-competition locale_compare snap request)
