-- ===== src/Api/Explain/Agrees.antt =====
-- `getExplanation` beside `getRanking` in api.js: two views of one ranked table.
use mathlib.Core.Path.{subst}
use mathlib.Core.List.{Memᴰ}
use mathlib.Core.Option.{some-injective}
use league_table.Prelude.{
  ℕ, zero, suc, ◌+◌, ◌<◌, String, ◌≡◌, refl, ap, ◌∙◌, sym, Bool, true, false, Option, none, some,
  List, [], ◌∷◌, ◌||◌, inl, inr, arith, eq_iff, ◌===◌, Bool-cases, find_index, find_index_from,
  get_elem?, last?, Dict, lookup, IfSome, if◌then◌else◌,
}
use league_table.Number.{Number}
use league_table.Model.{Ranked, WeekRow}
use league_table.Api.Types.{
  ok, Snapshot, DataSource, AppStore, ApiState, Env, throw_if, pure, lift, ◌>>=◌, ◌>>◌,
}
use league_table.Api.Actions.{ok-injective, >>=-ok, throw_if-ok}
use league_table.Api.Load.{cache_ttl, load}
use league_table.Api.Load.Outcome.{load_fresh-same}
use league_table.Api.Table.Privacy.{not_yours}
use league_table.Api.Table.{
  is_text, is_other_class, is_other_student, private_of, ScopedRow, PrivateRow, decorate, scope_row,
  scope_rows, Request, Ranking, ranking_of, get_ranking,
}
use league_table.Api.Explain.{
  Explanation, explanation_at, explain_row, explain_at, explanation_of, get_explanation,
}

-- where `findIndex` finds
find_index-found :
    {A : Type 0} (p : A → Bool) (xs : List A) (from : ℕ) {i : ℕ}
    → find_index_from from p xs ≡ some i
    → (k : ℕ) × (from + k ≡ i) × (x : A) × (get_elem? xs k ≡ some x) × (p x ≡ true)
find_index-found p [] from = λ h. cc
find_index-found p (x ∷ xs) from = elim (Bool-cases (p x)) [
  | inl t ↦ rw t (λ h. let e = some-injective _ _ h in (0, omega arith, x, refl, t))
  | inr f ↦ rw f (λ h.
      let (k, e, y, at, t) = find_index-found p xs (suc from) h in (suc k, omega arith, y, at, t))
]

module _ {W : Type 0} where
  abbrev pub SamePrivate : Explanation W → PrivateRow W → Type 0
  SamePrivate e own =
      (own.raw ≡ e.raw)
      × (own.factor ≡ e.factor)
      × (own.weighted_hours ≡ e.weighted_hours)
      × (own.capped ≡ e.capped)

  -- The explanation and the row of the table say the same of a student.
  pub record SaysSame (student_id : String) (e : Explanation W) (row : ScopedRow W) : Type 0 where
    pub own_row : row.public.student_id ≡ student_id
    pub name : row.public.display_name ≡ e.display_name
    pub rank : row.public.rank ≡ e.rank
    pub tied : row.public.tied ≡ e.tied
    pub score : row.public.score ≡ e.score
    pub to_next : row.public.gap_to_next ≡ e.gap_to_next
    pub to_below : row.public.gap_to_below ≡ e.gap_to_below
    pub private_same : IfSome (SamePrivate e) row.private

module _ {W : Type 0} ⦃num : Number W⦄ where
  scope_rows-get_elem? :
      (all : List (Ranked W)) (previous : Dict ℕ) (caller : _) (rows : List (Ranked W)) (i k j : ℕ)
      {r : Ranked W}
      → i + k ≡ j
      → get_elem? rows k ≡ some r
      → Memᴰ
          (scope_row (decorate all previous caller j r) caller)
          (scope_rows all previous caller i rows)
  unfolding scope_rows
  scope_rows-get_elem? all previous caller [] i k j e h = cc
  scope_rows-get_elem? all previous caller (x ∷ rows) i zero j {r = r} e h =
      let same : i ≡ j = omega arith in
      let found : x ≡ r = some-injective _ _ h in
      Memᴰ.head (
        sym (
          ap (λ y. scope_row (decorate all previous caller i y) caller) found
          ∙ ap (λ n. scope_row (decorate all previous caller n r) caller) same))
  scope_rows-get_elem? all previous caller (x ∷ rows) i (suc k) j e h =
      Memᴰ.tail (scope_rows-get_elem? all previous caller rows (suc i) k j (omega arith) h)

  private-same :
      (seen : Bool) (own : PrivateRow W) (e : Explanation W)
      → SamePrivate e own
      → IfSome (SamePrivate e) (if seen then some own else none)
  private-same true own e h = h
  private-same false own e h = tt

  explain_row-SaysSame :
      (snap : Snapshot W) (rows : List (Ranked W)) (previous : Dict ℕ) (request : Request W)
      (student_id : String) (i : ℕ) (row : Ranked W) (focus : Option (WeekRow W))
      {e : Explanation W}
      → row.student_id ≡ student_id
      → explain_row snap rows i row focus ≡ ok e
      → SaysSame student_id e
          (scope_row (decorate rows previous request.caller i row) request.caller)
  unfolding scope_row
  explain_row-SaysSame snap rows previous request student_id i row none own h = cc
  explain_row-SaysSame snap rows previous request student_id i row (some focus) own h =
      subst
        (λ e.
          SaysSame student_id e
            (scope_row (decorate rows previous request.caller i row) request.caller))
        (ok-injective h)
        (record {
          own_row = own;
          name = refl;
          rank = refl;
          tied = refl;
          score = refl;
          to_next = refl;
          to_below = refl;
          private_same =
              private-same
                (request.caller.role === "instructor"
                  || is_text request.caller.student_id row.student_id)
                (private_of (decorate rows previous request.caller i row))
                (explanation_at snap rows i row focus) (refl, refl, refl, refl);
        })

  -- the row at a place of the ranked rows, explained
  explain_found-SaysSame :
      (snap : Snapshot W) (rows : List (Ranked W)) (previous : Dict ℕ) (request : Request W)
      (student_id : String) (place : Option ℕ) {e : Explanation W}
      → find_index (λ r. r.student_id === student_id) rows ≡ place
      → explain_at snap rows place ≡ ok e
      → (row : ScopedRow W) × Memᴰ row (scope_rows rows previous request.caller 0 rows)
        × SaysSame student_id e row
  explain_found-SaysSame snap rows previous request student_id none f = λ h. cc
  explain_found-SaysSame snap rows previous request student_id (some i) f =
      let (k, e, row, at, own) = find_index-found (λ r. r.student_id === student_id) rows 0 f in
      let here : get_elem? rows i ≡ some row = ap (get_elem? rows) (omega arith) ∙ at in
      rw (here, explain_at)
        (λ h. (
          _,
          scope_rows-get_elem? rows previous request.caller rows 0 k i e at,
          explain_row-SaysSame snap rows previous request student_id i row (last? row.weeks)
              ((eq_iff row.student_id student_id).0 own) h,
        ))

  explanation_of-SaysSame :
      (locale_compare : String → String → W) (snap : Snapshot W) (request : Request W)
      (student_id : String) {e : Explanation W}
      → explanation_of locale_compare snap request student_id ≡ ok e
      → (row : ScopedRow W) × Memᴰ row (ranking_of locale_compare snap request).rows
        × SaysSame student_id e row
  unfolding explanation_of ranking_of
  explanation_of-SaysSame locale_compare snap request student_id h =
      explain_found-SaysSame snap _ _ request student_id _ refl h

  module _ {S : Type 0} (locale_compare : String → String → W) (source : DataSource W)
      (store : AppStore W S) where
    -- Two views of one table: asked with the same request while the class is cached for less than a
    -- minute, whatever explanation `getExplanation` gives of a student, the table that `getRanking`
    -- gives has a row of that student, with the same name, rank, tie, score and gaps, and the same raw
    -- score, factor and hours where the row carries them.
    pub get_explanation-SaysSame :
        (env later : Env) (request : Request W) (student_id : String) (s : ApiState W S)
        (snap : Snapshot W) (e : Explanation W) (table : Ranking W)
        → lookup request.class_id s.caches ≡ some snap
        → env.called_at < snap.at + cache_ttl
        → later.called_at < snap.at + cache_ttl
        → (get_explanation source store locale_compare env request student_id s).0 ≡ ok e
        → (get_ranking locale_compare source store later request s).0 ≡ ok table
        → (row : ScopedRow W) × Memᴰ row table.rows × SaysSame student_id e row
    unfolding get_explanation get_ranking
    get_explanation-SaysSame env later request student_id s snap e table c young young' he ht =
        let read = load source store env request.class_id false in
        let read' = load source store later request.class_id false in
        let (_, asked) =
          throw_if-ok (is_other_student request.caller student_id) _
            (read >>= λ snap. lift (explanation_of locale_compare snap request student_id)) s he in
        let (snap1, found1, explained) =
          >>=-ok read (λ snap. lift (explanation_of locale_compare snap request student_id)) s
            asked in
        let (snap2, found2, listed) =
          >>=-ok read'
            (λ snap.
              throw_if (is_other_class request.caller request.class_id)
                (not_yours locale_compare source store)
              >> pure (ranking_of locale_compare snap request))
            s ht in
        let (_, same) =
          throw_if-ok (is_other_class request.caller request.class_id)
            (not_yours locale_compare source store) (pure (ranking_of locale_compare snap2 request))
            _ listed in
        let first : snap1 ≡ snap = sym (
          load_fresh-same source store env request.class_id false s snap snap1 c refl young
            found1) in
        let second : snap2 ≡ snap = sym (
          load_fresh-same source store later request.class_id false s snap snap2 c refl young'
            found2) in
        let explained' : explanation_of locale_compare snap request student_id ≡ ok e =
          ap (λ x. explanation_of locale_compare x request student_id) (sym first) ∙ explained in
        let table' : ranking_of locale_compare snap request ≡ table =
          ap (λ x. ranking_of locale_compare x request) (sym second) ∙ ok-injective same in
        subst (λ (t : Ranking W). (row : ScopedRow W) × Memᴰ row t.rows × SaysSame student_id e row)
          table' (explanation_of-SaysSame locale_compare snap request student_id explained')
