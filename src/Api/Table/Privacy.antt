-- ===== src/Api/Table/Privacy.antt =====
-- Who receives what of a table, and who may ask for what.
use league_table.Prelude.{
  ℕ, suc, String, ◌≡◌, refl, true, false, Option, none, some, List, [], ◌∷◌, ◌⊎◌, inl, inr, arith,
  eq_iff, Bool-cases, All, Dict,
}
use league_table.Number.{Number}
use league_table.Model.{Ranked}
use league_table.Api.Types.{
  Error, Action, pure, throw_if, ◌>>◌, api_error, ok, Caller, Snapshot, DataSource, AppStore,
  ApiState, Env,
}
use mathlib.Core.Path.{subst}
use league_table.Api.Actions.{>>=-ok, throw_if-ok, ok-injective}
use league_table.Api.Load.{load}
use league_table.Api.Table.{
  is_text, is_other_class, ScopedRow, Decorated, decorate, scope_row, scope_rows, Request, Ranking,
  ranking_of, get_ranking,
}

-- The caller is a student, and the instructor's role is another text.
abbrev pub IsStudent : Caller → Type 0
IsStudent caller = caller.role ≡ "student"

is_text→eq : (t : Option String) (s : String) → is_text t s ≡ true → t ≡ some s
is_text→eq none s h = cc
is_text→eq (some t) s h = ground (arith, eq_iff t s)

-- Only the student's own row carries private fields.
abbrev pub KeepsPrivate : {W : Type 0} → Option String → ScopedRow W → Type 0
KeepsPrivate own row = (row.private ≡ none) ⊎ (own ≡ some row.public.student_id)

module _ {W : Type 0} ⦃num : Number W⦄ where
  scope_row-KeepsPrivate :
      (row : Decorated W) (caller : Caller)
      → IsStudent caller
      → KeepsPrivate caller.student_id (scope_row row caller)
  unfolding scope_row
  scope_row-KeepsPrivate row caller h =
      elim (Bool-cases (is_text caller.student_id row.student_id)) [
        | inl e ↦ inr (is_text→eq caller.student_id row.student_id e)
        | inr e ↦ inl (rw (h, e) refl)
      ]

  scope_rows-KeepsPrivate :
      (all : List (Ranked W)) (previous : Dict ℕ) (caller : Caller) (i : ℕ) (rows : List (Ranked W))
      → IsStudent caller
      → All (KeepsPrivate caller.student_id) (scope_rows all previous caller i rows)
  unfolding scope_rows
  scope_rows-KeepsPrivate all previous caller i [] h = tt
  scope_rows-KeepsPrivate all previous caller i (r ∷ rs) h = (
    scope_row-KeepsPrivate (decorate all previous caller i r) caller h,
    scope_rows-KeepsPrivate all previous caller (suc i) rs h,
  )

  ranking_of-KeepsPrivate :
      (locale_compare : String → String → W) (snap : Snapshot W) (request : Request W)
      → IsStudent request.caller
      → All (KeepsPrivate request.caller.student_id) (ranking_of locale_compare snap request).rows
  unfolding ranking_of
  ranking_of-KeepsPrivate locale_compare snap request h =
      scope_rows-KeepsPrivate _ _ request.caller 0 _ h

  module _ {S : Type 0} (locale_compare : String → String → W) (source : DataSource W)
      (store : AppStore W S) where
    abbrev pub not_yours : Error
    not_yours = api_error "That class is not yours to read." 403

    -- what `getRanking` does with the snapshot
    abbrev answer : Request W → Snapshot W → Action W S (Ranking W)
    answer request snap =
        throw_if (is_other_class request.caller request.class_id) not_yours
        >> pure (ranking_of locale_compare snap request)

    -- The table is that of the snapshot that `load` returns.
    pub get_ranking-ok :
        (env : Env) (request : Request W) (s : ApiState W S) (table : Ranking W)
        → (get_ranking locale_compare source store env request s).0 ≡ ok table
        → (snap : Snapshot W) × ((load source store env request.class_id false s).0 ≡ ok snap)
          × (ranking_of locale_compare snap request ≡ table)
    unfolding get_ranking
    get_ranking-ok env request s table e =
        let read = load source store env request.class_id false in
        let (snap, found, rest) = >>=-ok read (answer request) s e in
        let (_, same) =
          throw_if-ok (is_other_class request.caller request.class_id) not_yours
            (pure (ranking_of locale_compare snap request)) (read s).1 rest in
        (snap, found, ok-injective same)

    -- In any table that `getRanking` gives a student, a row has raw score, factor, hours and their
    -- source only if it is that student's own.
    pub get_ranking-KeepsPrivate :
        (env : Env) (request : Request W) (s : ApiState W S) (table : Ranking W)
        → IsStudent request.caller
        → (get_ranking locale_compare source store env request s).0 ≡ ok table
        → All (KeepsPrivate request.caller.student_id) table.rows
    get_ranking-KeepsPrivate env request s table h e =
        let (snap, _, same) = get_ranking-ok env request s table e in
        subst (λ (t : Ranking W). All (KeepsPrivate request.caller.student_id) t.rows) same
          (ranking_of-KeepsPrivate locale_compare snap request h)
