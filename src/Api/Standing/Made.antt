-- ===== src/Api/Standing/Made.antt =====
-- What a risk record of api.js is made from.
use league_table.Prelude.{
  ℕ, String, ◌≡◌, refl, arith, false, Option, none, some, List, [], ◌===◌, find,
}
use league_table.Number.{Number}
use league_table.Model.{Class, Student, Note}
use league_table.Api.Types.{
  ok, Caller, RiskSettings, Snapshot, DataSource, AppStore, ApiState, Env, Action, pure, lift,
  ◌>>=◌,
}
use league_table.Api.Actions.{ok-injective, >>=-ok, throw_if-ok}
use league_table.Api.Weeks.{evaluation_week}
use league_table.Api.Load.{load}
use league_table.Api.Table.{is_other_student}
use league_table.Api.Evaluate.{risk_settings_of}
use league_table.Api.Standing.{
  RiskRecord, risk_record_of, class_name_or_id, notes_for, or_missing, read_record, get_risk_record,
}

module _ {W : Type 0} ⦃num : Number W⦄ {S : Type 0} (source : DataSource W)
    (store : AppStore W S) where
  -- What a risk record is made from, once the student is known.
  pub record Reads (class_id student_id : String) (caller : Caller) (snap : Snapshot W)
      (student : Student) (s : ApiState W S) (r : RiskRecord W) : Type 0 where
    pub settings : RiskSettings W
    pub week : ℕ
    pub class_name : String
    pub notes : List Note
    pub settled : store.get_risk_settings s.store class_id ≡ ok settings
    pub evaluated : evaluation_week snap ≡ ok week
    pub unnoted : (caller.role === "instructor") ≡ false → notes ≡ []
    pub same : risk_record_of class_name student_id snap student week settings notes ≡ r

  -- What a risk record is made from.
  pub record MadeFrom (env : Env) (class_id student_id : String) (caller : Caller)
      (s : ApiState W S) (r : RiskRecord W) : Type 0 where
    pub snap : Snapshot W
    pub student : Student
    pub loaded : (load source store env class_id false s).0 ≡ ok snap
    pub found : find (λ t. t.id === student_id) snap.students ≡ some student
    pub reads :
        Reads class_id student_id caller snap student (load source store env class_id false s).1 r
    pub open reads use *

  notes_for-other :
      (class_id student_id : String) (caller : Caller) (s : ApiState W S) {notes : List Note}
      → (notes_for source store caller class_id student_id s).0 ≡ ok notes
      → (caller.role === "instructor") ≡ false
      → notes ≡ []
  notes_for-other class_id student_id caller s got other = ground arith

  read_record-Reads :
      (class_id student_id : String) (caller : Caller) (snap : Snapshot W) (student : Student)
      (s : ApiState W S) (r : RiskRecord W)
      → (read_record source store class_id student_id caller snap student s).0 ≡ ok r
      → Reads class_id student_id caller snap student s r
  unfolding read_record
  read_record-Reads class_id student_id caller snap student s r e =
      let name : List Class → String =
        λ classes. class_name_or_id (find (λ k. k.id === class_id) classes) class_id in
      let noted : RiskSettings W → ℕ → List Class → Action W S (RiskRecord W) =
        λ settings week classes. notes_for source store caller class_id student_id >>= λ notes.
        pure (risk_record_of (name classes) student_id snap student week settings notes) in
      let named : RiskSettings W → ℕ → Action W S (RiskRecord W) =
        λ settings week. lift (source.list_classes "i1") >>= noted settings week in
      let (settings, g, e1) =
        >>=-ok (risk_settings_of source store class_id)
          (λ settings. lift (evaluation_week snap) >>= named settings) s e in
      let (week, w, e2) = >>=-ok (lift (evaluation_week snap)) (named settings) s e1 in
      let (classes, c, e3) = >>=-ok (lift (source.list_classes "i1")) (noted settings week) s e2 in
      let (notes, got, e4) =
        >>=-ok (notes_for source store caller class_id student_id)
          (λ notes.
            pure (risk_record_of (name classes) student_id snap student week settings notes))
          s e3 in
      record {
        settings = settings;
        week = week;
        class_name = name classes;
        notes = notes;
        settled = g;
        evaluated = w;
        unnoted = notes_for-other class_id student_id caller s got;
        same = ok-injective e4;
      }

  or_missing-ok :
      (o : Option Student) (f : Student → Action W S (RiskRecord W)) (s : ApiState W S)
      {r : RiskRecord W}
      → ((or_missing source store o >>= f) s).0 ≡ ok r
      → (student : Student) × (o ≡ some student) × ((f student s).0 ≡ ok r)
  or_missing-ok none f s e = cc
  or_missing-ok (some student) f s e = (student, refl, e)

  pub get_risk_record-MadeFrom :
      (env : Env) (class_id student_id : String) (caller : Caller) (s : ApiState W S)
      (r : RiskRecord W)
      → (get_risk_record source store env class_id student_id caller s).0 ≡ ok r
      → MadeFrom env class_id student_id caller s r
  unfolding get_risk_record
  get_risk_record-MadeFrom env class_id student_id caller s r e =
      let read = load source store env class_id false in
      let rest : Snapshot W → Action W S (RiskRecord W) = λ snap.
        or_missing source store (find (λ t. t.id === student_id) snap.students)
        >>= read_record source store class_id student_id caller snap in
      let (_, asked) = throw_if-ok (is_other_student caller student_id) _ (read >>= rest) s e in
      let (snap, l, e1) = >>=-ok read rest s asked in
      let (student, found, e2) =
        or_missing-ok (find (λ t. t.id === student_id) snap.students)
          (read_record source store class_id student_id caller snap) (read s).1 e1 in
      record {
        snap = snap;
        student = student;
        loaded = l;
        found = found;
        reads = read_record-Reads class_id student_id caller snap student (read s).1 r e2;
      }
