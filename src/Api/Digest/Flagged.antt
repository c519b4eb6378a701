-- ===== src/Api/Digest/Flagged.antt =====
-- The digest of api.js beside the risk record: nobody who is flagged is left out.
use mathlib.Core.Path.{subst}
use mathlib.Core.List.{Memᴰ}
use league_table.Prelude.{
  ℕ, ◌+◌, ◌<◌, String, ◌≡◌, ◌≢◌, refl, ap, ◌∙◌, sym, false, Option, none, some, List, [], arith,
  eq_iff, ◌===◌, find, map, lookup, find-Memᴰ, map-Memᴰ,
}
use league_table.Number.{Number}
use league_table.Model.{Class, Student, Note}
use league_table.Risk.Types.{Level}
use league_table.Api.Types.{
  ok, Caller, RiskSettings, Snapshot, DataSource, AppStore, ApiState, Env, Action, Result, pure,
  lift, ◌>>=◌,
}
use league_table.Api.Actions.{ok-injective, >>=-ok, >>=-done}
use league_table.Api.Weeks.{evaluation_week}
use league_table.Api.Load.{cache_ttl, load}
use league_table.Api.Load.Outcome.{load_fresh, load_fresh-same, load-store}
use league_table.Api.Evaluate.{
  RiskRow, ClassRisk, evaluate_student_at, risk_settings_of, notes_of, week_or_latest,
  evaluate_class,
}
use league_table.Api.Standing.{RiskRecord, risk_record_of, get_risk_record}
use league_table.Api.Standing.Made.{get_risk_record-MadeFrom}
use league_table.Api.Digest.{
  DigestRow, DigestGroup, by_student, count_notes, digest_row, digest_rows, evaluate_prior,
  digest_group,
}
use league_table.Api.Digest.Listed.{
  row_of, level-flagged, digest_rows-Memᴰ, Repeats, digest_row-Repeats, risk_record_of-same,
}

module _ {W : Type 0} ⦃num : Number W⦄ where
  module _ {S : Type 0} (locale_compare : String → String → W) (source : DataSource W)
      (store : AppStore W S) where
    -- what `evaluateClass` answers with while the class is cached
    evaluate_class-cached :
        (env : Env) (class_id : String) (s : ApiState W S) (snap : Snapshot W)
        (current : ClassRisk W)
        → lookup class_id s.caches ≡ some snap
        → env.called_at < snap.at + cache_ttl
        → (evaluate_class source store env class_id none s).0 ≡ ok current
        → (settings : RiskSettings W) × (store.get_risk_settings s.store class_id ≡ ok settings)
          × (evaluation_week snap ≡ ok current.week)
          × (current.rows ≡ map (row_of snap current.week settings) snap.students)
    unfolding evaluate_class
    evaluate_class-cached env class_id s snap current c young e =
        let made : Snapshot W → RiskSettings W → ℕ → ClassRisk W = λ snap settings week. record {
          week = week;
          rows = map (row_of snap week settings) snap.students;
        } in
        let timed : Snapshot W → RiskSettings W → Action W S (ClassRisk W) = λ snap settings.
          lift (week_or_latest source store none snap) >>= λ week. pure (made snap settings week) in
        let rest : Snapshot W → Action W S (ClassRisk W) =
          λ snap. risk_settings_of source store class_id >>= timed snap in
        let read = load_fresh source store env class_id false s snap c refl (ground arith) in
        let done = >>=-done (load source store env class_id false) rest s s snap read in
        let (settings, g, e1) =
          >>=-ok (risk_settings_of source store class_id) (timed snap) s
            (sym (ap (λ (out : Result (ClassRisk W) × ApiState W S). out.0) done) ∙ e) in
        let (week, w, e2) =
          >>=-ok (lift (week_or_latest source store none snap))
            (λ week. pure (made snap settings week)) s e1 in
        let same : made snap settings week ≡ current = ok-injective e2 in
        (
          settings,
          g,
          w ∙ ap (λ (k : ClassRisk W). ok k.week) same,
          subst (λ (k : ClassRisk W). k.rows ≡ map (row_of snap k.week settings) snap.students) same
              refl,
        )

    flagged-Repeats :
        (class_name student_id : String) (snap : Snapshot W) (student : Student) (week : ℕ)
        (settings : RiskSettings W) (own : List Note) (prior current : List (RiskRow W))
        (notes : List Note) (r : RiskRecord W)
        → Memᴰ student snap.students
        → student.id ≡ student_id
        → current ≡ map (row_of snap week settings) snap.students
        → risk_record_of class_name student_id snap student week settings own ≡ r
        → r.level ≢ Level.not_flagged
        → (week ≡ r.week)
          × (row : DigestRow) × Memᴰ row (digest_rows locale_compare prior current notes)
          × Repeats student_id r row
    unfolding risk_record_of
    flagged-Repeats class_name student_id snap student week settings own prior current notes r m i
          rows same h =
        let level : (evaluate_student_at snap student week settings).level ≡ r.level =
          ap (λ (r : RiskRecord W). r.level) same in
        let on = level-flagged snap student week settings (λ e. h (sym level ∙ e)) in
        let row = row_of snap week settings student in
        let among : Memᴰ row current =
          subst (λ rs. Memᴰ row rs) (sym rows) (map-Memᴰ (row_of snap week settings) _ m) in
        (
          ap (λ (r : RiskRecord W). r.week) same,
          _,
          digest_rows-Memᴰ locale_compare prior current notes among on,
          subst
              (λ r. Repeats student_id r (digest_row (by_student prior) (count_notes [] notes) row))
              same
              (digest_row-Repeats class_name student_id snap student week settings own
                (by_student prior) (count_notes [] notes) i on),
        )

    abbrev digest_of : Class → ClassRisk W → List (RiskRow W) × Option ℕ → List Note → DigestGroup
    digest_of klass current prior notes = record {
      class_id = klass.id;
      class_name = klass.name;
      week = current.week;
      compared_with = prior.1;
      rows = digest_rows locale_compare prior.0 current.rows notes;
    }

    -- what a digest group is made from
    digest_group-ok :
        (env : Env) (klass : Class) (instructor_id : String) (s : ApiState W S)
        {group : DigestGroup}
        → (digest_group source store locale_compare env klass none instructor_id s).0 ≡ ok group
        → (current : ClassRisk W) × (prior : List (RiskRow W) × Option ℕ) × (notes : List Note)
          × ((evaluate_class source store env klass.id none s).0 ≡ ok current)
          × (digest_of klass current prior notes ≡ group)
    unfolding digest_group
    digest_group-ok env klass instructor_id s d =
        let evaluate = evaluate_class source store env klass.id none in
        let read_notes = notes_of source store klass.id none instructor_id in
        let noted : ClassRisk W → List (RiskRow W) × Option ℕ → Action W S DigestGroup =
          λ current prior. read_notes >>= λ notes. pure (digest_of klass current prior notes) in
        let compared : ClassRisk W → Action W S DigestGroup =
          λ current. evaluate_prior source store env klass.id current.week >>= noted current in
        let (current, now, d1) = >>=-ok evaluate compared s d in
        let (prior, before, d2) =
          >>=-ok (evaluate_prior source store env klass.id current.week) (noted current)
            (evaluate s).1 d1 in
        let (notes, listed, d3) =
          >>=-ok read_notes (λ notes. pure (digest_of klass current prior notes)) _ d2 in
        (current, prior, notes, now, ok-injective d3)

    -- The digest leaves out nobody who is flagged. While a class is cached for less than a minute,
    -- whatever risk record `getRiskRecord` gives of a student at some level above "Not flagged", the
    -- group of that class in a digest of the latest week, if the digest does not fail, is of the same
    -- week and has a row of that student, new or still flagged, with the same name and level and the
    -- labels of the signals that are on in the record.
    pub digest_group-Repeats :
        (env later : Env) (klass : Class) (student_id instructor_id : String) (caller : Caller)
        (s : ApiState W S) (snap : Snapshot W) (r : RiskRecord W) (group : DigestGroup)
        → lookup klass.id s.caches ≡ some snap
        → env.called_at < snap.at + cache_ttl
        → later.called_at < snap.at + cache_ttl
        → (get_risk_record source store env klass.id student_id caller s).0 ≡ ok r
        → r.level ≢ Level.not_flagged
        → (digest_group source store locale_compare later klass none instructor_id s).0 ≡ ok group
        → (group.week ≡ r.week) × (row : DigestRow) × Memᴰ row group.rows × Repeats student_id r row
    digest_group-Repeats env later klass student_id instructor_id caller s snap r group c young
          young' e flagged d =
        let (current, prior, notes, now, grouped) = digest_group-ok later klass instructor_id s d in
        let (settings, stored, week, rows) =
          evaluate_class-cached later klass.id s snap current c young' now in
        let made = get_risk_record-MadeFrom source store env klass.id student_id caller s r e in
        let at : snap ≡ made.snap =
          load_fresh-same source store env klass.id false s snap made.snap c refl young
            made.loaded in
        let kept =
          ap (λ u. store.get_risk_settings u klass.id)
            (load-store source store env klass.id false s) in
        let agreed : settings ≡ made.settings =
          ok-injective (sym stored ∙ sym kept ∙ made.settled) in
        let timed : current.week ≡ made.week =
          ok-injective (sym week ∙ ap evaluation_week at ∙ made.evaluated) in
        let (m, own) =
          find-Memᴰ (λ t. t.id === student_id) snap.students
            (ap (λ (x : Snapshot W). find (λ t. t.id === student_id) x.students) at ∙ made.found) in
        let same =
          risk_record_of-same made.class_name student_id made.student made.notes at timed agreed
          ∙ made.same in
        subst
          (λ (g : DigestGroup).
            (g.week ≡ r.week) × (row : DigestRow) × Memᴰ row g.rows × Repeats student_id r row)
          grouped
          (flagged-Repeats made.class_name student_id snap made.student current.week settings
            made.notes prior.0 current.rows notes r m ((eq_iff made.student.id student_id).0 own)
            rows same flagged)
