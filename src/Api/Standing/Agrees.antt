-- ===== src/Api/Standing/Agrees.antt =====
-- A student's own standing in api.js beside the risk record that an instructor reads.
use league_table.Prelude.{
  ℕ, ◌+◌, ◌<◌, String, List, ◌≡◌, refl, ap, ◌∙◌, sym, false, some, filter, find, ◌===◌, lookup,
}
use mathlib.Core.Option.{some-injective}
use league_table.Number.{Number}
use league_table.Model.{Student, Note}
use league_table.Api.Types.{
  ok, api_error, Caller, RiskSettings, Snapshot, DataSource, AppStore, ApiState, Env, pure, ◌>>=◌,
}
use league_table.Api.Actions.{ok-injective, >>=-ok, throw_if-ok}
use league_table.Api.Weeks.{evaluation_week}
use league_table.Api.Load.{cache_ttl}
use league_table.Api.Load.Outcome.{load_fresh-same, load-store}
use league_table.Api.Table.{is_other_student}
use league_table.Api.Standing.{
  RiskRecord, Standing, help_text, risk_record_of, standing_of, as_student, get_risk_record,
  get_my_standing,
}
use league_table.Api.Standing.Made.{MadeFrom, get_risk_record-MadeFrom}

module _ {W : Type 0} ⦃num : Number W⦄ where
  standing_of-notes :
      (name name' student_id : String) (snap : Snapshot W) (student : Student) (week : ℕ)
      (settings : RiskSettings W) (notes notes' : List Note)
      → standing_of (risk_record_of name student_id snap student week settings notes)
        ≡ standing_of (risk_record_of name' student_id snap student week settings notes')
  unfolding risk_record_of
  standing_of-notes name name' student_id snap student week settings notes notes' = refl

  standing_of-same :
      (name name' student_id : String) (notes notes' : List Note) {snap snap' : Snapshot W}
      {student student' : Student} {week week' : ℕ} {settings settings' : RiskSettings W}
      → snap ≡ snap'
      → student ≡ student'
      → week ≡ week'
      → settings ≡ settings'
      → standing_of (risk_record_of name student_id snap student week settings notes)
        ≡ standing_of (risk_record_of name' student_id snap' student' week' settings' notes')
  standing_of-same name name' student_id notes notes' {snap} {student = student} {week = week}
        {settings = settings} a b c d =
      let changed =
        standing_of-notes name name' student_id snap student week settings notes notes' in
      cc

module _ {W : Type 0} ⦃num : Number W⦄ {S : Type 0} (source : DataSource W)
    (store : AppStore W S) where
  -- the settings behind a record are those of the store
  settled :
      (env : Env) (class_id student_id : String) (caller : Caller) (s : ApiState W S)
      (r : RiskRecord W) (made : MadeFrom source store env class_id student_id caller s r)
      → store.get_risk_settings s.store class_id ≡ ok made.settings
  settled env class_id student_id caller s r made =
      sym (
        ap (λ u. store.get_risk_settings u class_id) (load-store source store env class_id false s))
      ∙ made.settled

  -- While a class is cached for less than a minute, whatever standing `getMyStanding` answers a
  -- student with is what any risk record of that student says, whoever reads that record: the name,
  -- the week, the level, the measurements, and of the signals those that are on; with the help text
  -- it is all of it.
  pub get_my_standing-same :
      (env later : Env) (class_id student_id : String) (caller reader : Caller) (s : ApiState W S)
      (snap : Snapshot W) (own : Standing W) (r : RiskRecord W)
      → lookup class_id s.caches ≡ some snap
      → env.called_at < snap.at + cache_ttl
      → later.called_at < snap.at + cache_ttl
      → (get_my_standing source store env class_id student_id caller s).0 ≡ ok own
      → (get_risk_record source store later class_id student_id reader s).0 ≡ ok r
      → own ≡ record {
        student_id = r.student_id;
        display_name = r.display_name;
        week = r.week;
        level = r.level;
        signals = filter (λ s. s.on) r.signals;
        metrics = r.metrics;
        help = help_text;
      }
  unfolding get_my_standing
  get_my_standing-same env later class_id student_id caller reader s snap own r c young young' e g =
      let ask =
        get_risk_record source store env class_id student_id (as_student source store student_id) in
      let (_, asked) =
        throw_if-ok (is_other_student caller student_id)
          (api_error "A student may only read their own standing." 403)
          (ask >>= λ risk. pure (standing_of risk)) s e in
      let (risk, answer, same) = >>=-ok ask (λ risk. pure (standing_of risk)) s asked in
      let mine =
        get_risk_record-MadeFrom source store env class_id student_id
          (as_student source store student_id) s risk answer in
      let theirs = get_risk_record-MadeFrom source store later class_id student_id reader s r g in
      let snaps : mine.snap ≡ theirs.snap =
        sym (
          load_fresh-same source store env class_id false s snap mine.snap c refl young mine.loaded)
        ∙ load_fresh-same source store later class_id false s snap theirs.snap c refl young'
            theirs.loaded in
      let students : mine.student ≡ theirs.student = some-injective _ _ (
        sym mine.found
        ∙ ap (λ (x : Snapshot W). find (λ t. t.id === student_id) x.students) snaps
        ∙ theirs.found) in
      let weeks : mine.week ≡ theirs.week =
        ok-injective (sym mine.evaluated ∙ ap evaluation_week snaps ∙ theirs.evaluated) in
      let settings : mine.settings ≡ theirs.settings = ok-injective (
        sym (settled env class_id student_id (as_student source store student_id) s risk mine)
        ∙ settled later class_id student_id reader s r theirs) in
      sym (ok-injective same)
      ∙ ap standing_of (sym mine.same)
      ∙ standing_of-same mine.class_name theirs.class_name student_id mine.notes theirs.notes snaps
          students weeks settings
      ∙ ap standing_of theirs.same
