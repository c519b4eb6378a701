-- ===== src/Api/Digest/Listed.antt =====
-- The rows of a digest in api.js beside the risk record: who is listed, and with what.
use mathlib.Core.List.{Memᴰ}
use league_table.Prelude.{
  ℕ, String, ◌≡◌, ◌≢◌, refl, Bool, true, false, not, Option, List, [], ◌∷◌, ◌⊎◌, inl, inr, filter,
  map, length, lookup, Dict, filter-Memᴰ, map-Memᴰ, sort-Memᴰ,
}
use league_table.Number.{Number}
use league_table.Model.{Student, Note}
use league_table.Risk.Types.{SignalKey, Level, level_for}
use league_table.Risk.Evaluate.Levels.{evaluate_signals-level}
use league_table.Risk.Evaluate.{Evaluation, Change, diff_state, is_flagged, change_of, was_flagged}
use league_table.Api.Types.{RiskSettings, Snapshot}
use league_table.Api.Snapshot.{risk_weekly, hours_at_week}
use league_table.Api.Evaluate.{RiskRow, as_patch, evaluate_student_at}
use league_table.Api.Standing.{RiskRecord, risk_record_of}
use league_table.Api.Digest.{
  DigestRow, by_student, count_notes, is_quiet, less_urgent, digest_row, digest_rows,
}

-- a student is new to the digest, or still in it
abbrev pub IsListed : Change → Type 0
IsListed change = (change ≡ Change.new) ⊎ (change ≡ Change.still)

counts-flagged :
    (keys : List SignalKey) (level : Level)
    → level ≡ level_for (length keys)
    → level ≢ Level.not_flagged
    → is_flagged keys ≡ true
unfolding level_for
counts-flagged [] level e h = absurd (h e)
counts-flagged (k ∷ keys) level e h = refl

change_of-IsListed : (before now : Bool) → now ≡ true → IsListed (change_of before now)
change_of-IsListed true true e = inr refl
change_of-IsListed false true e = inl refl
change_of-IsListed true false e = cc
change_of-IsListed false false e = cc

listed-shown : (c : Change) → IsListed c → not (is_quiet c) ≡ true
listed-shown c (inl e) = rw e refl
listed-shown c (inr e) = rw e refl

module _ {W : Type 0} ⦃num : Number W⦄ where
  pub level-flagged :
      (snap : Snapshot W) (student : Student) (week : ℕ) (settings : RiskSettings W)
      → let e = evaluate_student_at snap student week settings in
        e.level ≢ Level.not_flagged → is_flagged e.signals_on ≡ true
  unfolding evaluate_student_at
  level-flagged snap student week settings h =
      counts-flagged _ _
        (evaluate_signals-level (risk_weekly snap student week) (hours_at_week snap student week)
          (as_patch settings.thresholds) settings.active).0
        h

  diff_state-IsListed :
      (prior : Option (Evaluation W)) (current : Evaluation W)
      → is_flagged current.signals_on ≡ true
      → IsListed (diff_state prior current)
  unfolding diff_state
  diff_state-IsListed prior current h = change_of-IsListed (was_flagged prior) _ h

  abbrev pub row_of : Snapshot W → ℕ → RiskSettings W → Student → RiskRow W
  row_of snap week settings s = record {
    student_id = s.id;
    display_name = s.display_name;
    evaluation = evaluate_student_at snap s week settings;
  }

  digest_row-IsListed :
      (prior : Dict (Evaluation W)) (counts : Dict ℕ) (row : RiskRow W)
      → is_flagged row.evaluation.signals_on ≡ true
      → IsListed (digest_row prior counts row).status
  unfolding digest_row
  digest_row-IsListed prior counts row h =
      diff_state-IsListed (lookup row.student_id prior) row.evaluation h

  -- A flagged student of the class has a row.
  pub digest_rows-Memᴰ :
      (locale_compare : String → String → W) (prior current : List (RiskRow W)) (notes : List Note)
      {row : RiskRow W}
      → Memᴰ row current
      → is_flagged row.evaluation.signals_on ≡ true
      → Memᴰ
          (digest_row (by_student prior) (count_notes [] notes) row)
          (digest_rows locale_compare prior current notes)
  unfolding digest_rows
  digest_rows-Memᴰ locale_compare prior current notes {row} m h =
      let made = digest_row (by_student prior) (count_notes [] notes) in
      sort-Memᴰ (less_urgent locale_compare) _ (
        filter-Memᴰ (λ r. not (is_quiet r.status)) _ (map-Memᴰ made current m)
          (listed-shown _ (digest_row-IsListed (by_student prior) (count_notes [] notes) row h)))

  -- The digest's row says of a student what the risk record says.
  pub record Repeats (student_id : String) (r : RiskRecord W) (row : DigestRow) : Type 0 where
    pub own_row : row.student_id ≡ student_id
    pub name : row.display_name ≡ r.display_name
    pub level : row.level ≡ r.level
    pub signals : row.signals ≡ map (λ s. s.label) (filter (λ s. s.on) r.signals)
    pub listed : IsListed row.status

  pub digest_row-Repeats :
      (class_name student_id : String) (snap : Snapshot W) (student : Student) (week : ℕ)
      (settings : RiskSettings W) (notes : List Note) (prior : Dict (Evaluation W))
      (counts : Dict ℕ)
      → student.id ≡ student_id
      → is_flagged (evaluate_student_at snap student week settings).signals_on ≡ true
      → Repeats student_id
          (risk_record_of class_name student_id snap student week settings notes)
          (digest_row prior counts (row_of snap week settings student))
  unfolding digest_row risk_record_of
  digest_row-Repeats class_name student_id snap student week settings notes prior counts own h =
      record {
        own_row = own;
        name = refl;
        level = refl;
        signals = refl;
        listed = digest_row-IsListed prior counts (row_of snap week settings student) h;
      }

  pub risk_record_of-same :
      (class_name student_id : String) (student : Student) (notes : List Note)
      {snap snap' : Snapshot W} {week week' : ℕ} {settings settings' : RiskSettings W}
      → snap ≡ snap'
      → week ≡ week'
      → settings ≡ settings'
      → risk_record_of class_name student_id snap student week settings notes
        ≡ risk_record_of class_name student_id snap' student week' settings' notes
  risk_record_of-same class_name student_id student notes a b c = cc
