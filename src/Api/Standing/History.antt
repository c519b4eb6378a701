-- ===== src/Api/Standing/History.antt =====
-- The weeks of a risk record of api.js, and what a change of the thresholds does to them.
use Prim.Native.Nat.{max}
use mathlib.Core.Path.{subst}
use league_table.Prelude.{
  ℕ, zero, suc, ◌+◌, ◌-◌, String, ◌≡◌, refl, ap, sym, ◌∙◌, false, some, List, [], ◌∷◌, map, arith,
  ◌===◌, find, length, length-map, filter, All, IfSome, last?,
}
use league_table.Number.{Number}
use league_table.Model.{Student, Note}
use league_table.Risk.Evaluate.{Evaluation, evaluate_signals}
use league_table.Api.Types.{
  ok, Caller, RiskSettings, RiskPatch, Snapshot, DataSource, AppStore, ApiState, Env,
}
use league_table.Api.Actions.{ok-injective}
use league_table.Api.Contract.{KeepsSettings}
use league_table.Api.Weeks.{joined_or_first}
use league_table.Api.Load.{load}
use league_table.Api.Load.Outcome.{load-store}
use league_table.Api.Evaluate.{evaluate_student_at}
use league_table.Api.Writes.{save_risk_settings}
use league_table.Api.Standing.{
  RiskRecord, HistoryLine, risk_record_of, history_of, weeks_from, weeks_between, get_risk_record,
}
use league_table.Api.Standing.Made.{get_risk_record-MadeFrom}

-- The lines are those of the weeks from `first` to `last`, one for each, in order.
abbrev pub Covers : (ℕ → HistoryLine) → ℕ → ℕ → List HistoryLine → Type 0
Covers line first last lines =
    (map (λ l. l.week_number) lines ≡ weeks_between first last)
    × All (λ l. l ≡ line l.week_number) lines

module _ (line : ℕ → HistoryLine) (numbered : (w : ℕ) → (line w).week_number ≡ w) where
  weeks-numbered : (ws : List ℕ) → map (λ l. l.week_number) (map line ws) ≡ ws
  weeks-numbered [] = refl
  weeks-numbered (w ∷ ws) = rw (numbered w, weeks-numbered ws) refl

  lines-own : (ws : List ℕ) → All (λ l. l ≡ line l.week_number) (map line ws)
  lines-own [] = tt
  lines-own (w ∷ ws) = (ap line (sym (numbered w)), lines-own ws)

  last-weeks_from :
      (first last n : ℕ)
      → n ≡ last + 1 - first
      → IfSome (λ l. l ≡ line last) (last? (map line (weeks_from first n)))
  last-weeks_from first last zero e = tt
  last-weeks_from first last (suc zero) e = ap line (omega arith)
  last-weeks_from first last (suc (suc n)) e =
      last-weeks_from (suc first) last (suc n) (omega arith)

-- The first week of a student's history.
abbrev pub first_week : Student → ℕ
first_week student = max (joined_or_first student.joined_week) 2

module _ {W : Type 0} ⦃num : Number W⦄ where
  -- the line of a week, by an evaluation of that week
  abbrev pub week_line : ℕ → Evaluation W → HistoryLine
  week_line w e = record { week_number = w; level = e.level; count = length e.signals_on }

  history_of-Covers :
      (snap : Snapshot W) (student : Student) (week : ℕ) (settings : RiskSettings W)
      → Covers
          (λ w. week_line w (evaluate_student_at snap student w settings))
          (first_week student)
          week
          (history_of snap student week settings)
  unfolding history_of
  history_of-Covers snap student week settings =
      let line : ℕ → HistoryLine = λ w. week_line w (evaluate_student_at snap student w settings) in
      let weeks = weeks_between (first_week student) week in
      (weeks-numbered line (λ w. refl) weeks, lines-own line (λ w. refl) weeks)

  signals_on-length :
      (snap : Snapshot W) (student : Student) (week : ℕ) (settings : RiskSettings W)
      → let e = evaluate_student_at snap student week settings in
        length e.signals_on ≡ length (filter (λ s. s.on) e.signals)
  unfolding evaluate_student_at evaluate_signals
  signals_on-length snap student week settings = length-map (λ s. s.key) _

  -- The last line of a record, if it has any, is the level now, with the signals that are on.
  abbrev pub EndsNow : RiskRecord W → Type 0
  EndsNow r =
      IfSome
        (λ l. l ≡ record {
          week_number = r.week;
          level = r.level;
          count = length (filter (λ s. s.on) r.signals);
        })
        (last? r.history)

  risk_record_of-EndsNow :
      (class_name student_id : String) (snap : Snapshot W) (student : Student) (week : ℕ)
      (settings : RiskSettings W) (notes : List Note)
      → EndsNow (risk_record_of class_name student_id snap student week settings notes)
  unfolding risk_record_of history_of
  risk_record_of-EndsNow class_name student_id snap student week settings notes =
      let line : ℕ → HistoryLine = λ w. week_line w (evaluate_student_at snap student w settings) in
      let now : HistoryLine = record (line week) {
        count =
            length (filter (λ s. s.on) (evaluate_student_at snap student week settings).signals);
      } in
      let same : line week ≡ now =
        ap (λ n. record (line week) { count = n }) (signals_on-length snap student week settings) in
      subst (λ x. IfSome (λ l. l ≡ x) (last? (map line (weeks_between (first_week student) week))))
        same (last-weeks_from line (λ w. refl) (first_week student) week _ refl)

  -- What the theorem says of the record.
  abbrev pub IsBy : RiskSettings W → Snapshot W → Student → RiskRecord W → Type 0
  IsBy saved snap student r =
      (r.thresholds ≡ saved.thresholds)
      × Covers (λ w. week_line w (evaluate_student_at snap student w saved)) (first_week student)
          r.week r.history
      × EndsNow r

  risk_record_of-IsBy :
      (class_name student_id : String) (snap : Snapshot W) (student : Student) (week : ℕ)
      (settings saved : RiskSettings W) (notes : List Note) (r : RiskRecord W)
      → settings ≡ saved
      → risk_record_of class_name student_id snap student week settings notes ≡ r
      → IsBy saved snap student r
  unfolding risk_record_of
  risk_record_of-IsBy class_name student_id snap student week settings saved notes r same made =
      subst (IsBy saved snap student)
        (ap (λ t. risk_record_of class_name student_id snap student week t notes) (sym same) ∙ made)
        (
          refl,
          history_of-Covers snap student week saved,
          risk_record_of-EndsNow class_name student_id snap student week saved notes,
        )

  module _ {S : Type 0} (source : DataSource W) (store : AppStore W S)
      (keeps : KeepsSettings store) where
    -- After a `saveRiskSettings` that succeeds, a risk record of that class, of whomever and asked by
    -- whomever, has the thresholds that were saved, and its history has one line for each week from
    -- the second, or the one in which the student joined, to the record's week, in order: the level
    -- and the number of signals that the data and the saved settings give in that week, also in weeks
    -- before the save. The last line, if there is any, has
    -- the record's own level and counts its signals that are on.
    pub save_risk_settings-rewrites :
        (env : Env) (class_id student_id : String) (caller : Caller) (patch : RiskPatch W)
        (s : ApiState W S) (saved : RiskSettings W) (r : RiskRecord W)
        → let (answer, after) = save_risk_settings source store class_id patch s in
          answer ≡ ok saved
          → (get_risk_record source store env class_id student_id caller after).0 ≡ ok r
          → (snap : Snapshot W) × (student : Student) × ((load source store env class_id false
                after).0
              ≡ ok snap)
            × (find (λ t. t.id === student_id) snap.students ≡ some student)
            × IsBy saved snap student r
    unfolding save_risk_settings
    save_risk_settings-rewrites env class_id student_id caller patch s saved r e g =
        let after = (save_risk_settings source store class_id patch s).1 in
        let made = get_risk_record-MadeFrom source store env class_id student_id caller after r g in
        let settled : ok made.settings ≡ ok saved =
          sym made.settled
          ∙ ap (λ u. store.get_risk_settings u class_id)
              (load-store source store env class_id false after)
          ∙ keeps.risk_read_back s.store class_id patch e in
        (
          made.snap,
          made.student,
          made.loaded,
          made.found,
          risk_record_of-IsBy made.class_name student_id made.snap made.student made.week
              made.settings saved made.notes r (ok-injective settled) made.same,
        )
