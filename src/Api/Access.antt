-- ===== src/Api/Access.antt =====
-- The role checks of api.js, made before anything is read.
use league_table.Prelude.{String, ◌≡◌, ◌≢◌, refl, true, false, Option, none, some, arith, eq_iff}
use league_table.Number.{Number}
use league_table.Api.Types.{err, api_error, Caller, DataSource, AppStore, ApiState, Env}
use league_table.Api.Table.{Request, is_text, is_other_student}
use league_table.Api.Table.Privacy.{IsStudent}
use league_table.Api.Explain.{get_explanation, get_commitments}
use league_table.Api.Standing.{get_risk_record, get_my_standing}

is_text-ne : (t : Option String) (s : String) → t ≢ some s → is_text t s ≡ false
is_text-ne none s h = refl
is_text-ne (some t) s h = ground (arith, eq_iff t s)

is_other_student_lem :
    (caller : Caller) (student_id : String)
    → IsStudent caller
    → caller.student_id ≢ some student_id
    → is_other_student caller student_id ≡ true
is_other_student_lem caller student_id h ne =
    rw (h, is_text-ne caller.student_id student_id ne) refl

module _ {W : Type 0} ⦃num : Number W⦄ {S : Type 0} (source : DataSource W)
    (store : AppStore W S) where
  -- A student who asks for another student's breakdown, commitments, risk record or standing is
  -- refused with 403, and nothing is read or written.
  pub other_student_refused :
      (locale_compare : String → String → W) (env : Env) (request : Request W)
      (class_id student_id : String) (s : ApiState W S)
      → IsStudent request.caller
      → request.caller.student_id ≢ some student_id
      → let caller = request.caller in
        (get_explanation source store locale_compare env request student_id s
          ≡ (err (api_error "A student may only open their own breakdown." 403), s))
        × (get_commitments source store env class_id student_id caller s
            ≡ (err (api_error "A student may only read their own commitments." 403), s))
        × (get_risk_record source store env class_id student_id caller s
            ≡ (err (api_error "A student may only open their own standing." 403), s))
        × (get_my_standing source store env class_id student_id caller s
            ≡ (err (api_error "A student may only read their own standing." 403), s))
  unfolding get_explanation get_commitments get_risk_record get_my_standing
  other_student_refused locale_compare env request class_id student_id s h ne =
      let other = is_other_student_lem request.caller student_id h ne in
      (rw other refl, rw other refl, rw other refl, rw other refl)
