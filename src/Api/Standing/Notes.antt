-- ===== src/Api/Standing/Notes.antt =====
-- Who receives the outreach notes of a risk record.
use league_table.Prelude.{String, ◌≡◌, ◌≢◌, ap, sym, ◌∙◌, false, [], arith, ◌===◌, eq_iff}
use league_table.Number.{Number}
use league_table.Api.Types.{ok, Caller, DataSource, AppStore, ApiState, Env}
use league_table.Api.Standing.{RiskRecord, risk_record_of, get_risk_record}
use league_table.Api.Standing.Made.{get_risk_record-MadeFrom}

module _ {W : Type 0} ⦃num : Number W⦄ {S : Type 0} (source : DataSource W)
    (store : AppStore W S) where
  -- Notes never travel to a caller who is not an instructor: no risk record that one receives has any.
  pub get_risk_record-notes :
      (env : Env) (class_id student_id : String) (caller : Caller) (s : ApiState W S)
      (received : RiskRecord W)
      → caller.role ≢ "instructor"
      → (get_risk_record source store env class_id student_id caller s).0 ≡ ok received
      → received.notes ≡ []
  unfolding risk_record_of
  get_risk_record-notes env class_id student_id caller s received h e =
      let role : (caller.role === "instructor") ≡ false =
        ground (arith, eq_iff caller.role "instructor") in
      let made =
        get_risk_record-MadeFrom source store env class_id student_id caller s received e in
      sym (ap (λ (r : RiskRecord W). r.notes) made.same) ∙ made.unnoted role
