-- ===== src/Source/Checked.antt =====
-- The toy source under the data check of api.js.
use mathlib.Core.List.{Memᴰ}
use league_table.Prelude.{
  String, ◌≡◌, refl, ap, ◌∙◌, sym, true, List, [], ◌∷◌, map, arith, All, present, ◌===◌, eq_iff,
}
use league_table.Number.{Number}
use league_table.Model.{Student, Week, Entry}
use league_table.Api.Load.{is_student, number_issue, entry_issue, data_check}
use league_table.Source.Entries.{build_entries}
use league_table.Source.Enrolled.{Enrolled, enrolled, build_entries-Enrolled}

is_student-Mem :
    (students : List Student) (s : Student) → Memᴰ s students → is_student students s.id ≡ true
is_student-Mem [] s m = elim m [ ]
is_student-Mem (x ∷ xs) s (Memᴰ.head e) =
    let same : (x.id === s.id) ≡ true = (eq_iff x.id s.id).1 (ap (λ (t : Student). t.id) (sym e)) in
    rw same refl
is_student-Mem (x ∷ xs) s (Memᴰ.tail m) = ground (arith, is_student-Mem xs s m)

module _ {W : Type 0} ⦃num : Number W⦄ (students : List Student) (weeks : List Week) where
  entry_issue-Enrolled :
      (e : Entry W)
      → Enrolled students weeks e
      → entry_issue students e ≡ number_issue e e.earned e.possible
  entry_issue-Enrolled e (enrolled s w hs hw own week joined earned possible) =
      let known : is_student students e.student_id ≡ true =
        ap (is_student students) own ∙ is_student-Mem students s hs in
      rw known refl

  issues-Enrolled :
      (es : List (Entry W))
      → All (λ (e : Entry W). Enrolled students weeks e) es
      → map (entry_issue students) es ≡ map (λ e. number_issue e e.earned e.possible) es
  issues-Enrolled [] h = refl
  issues-Enrolled (e ∷ es) (he, h) =
      rw (entry_issue-Enrolled e he)
        (ap (◌∷◌ (number_issue e e.earned e.possible)) (issues-Enrolled es h))

-- The data check of `load` finds no unknown student in the entries of the toy source: it reports only
-- what their numbers show.
pub data_check-build_entries :
    (W : Type 0) ⦃num : Number W⦄ (class_id : String) (students : List Student) (weeks : List Week)
    → let entries : List (Entry W) = build_entries class_id students weeks in
      data_check students entries ≡ present (map (λ e. number_issue e e.earned e.possible) entries)
unfolding data_check
data_check-build_entries W class_id students weeks =
    ap present (issues-Enrolled students weeks _ (build_entries-Enrolled W class_id students weeks))
