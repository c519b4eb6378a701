-- ===== src/Examples/Page.antt =====
-- The page: a teacher logs in, opens the digest and presents.
use league_table.Prelude.{
  All, ◌≤◌, String, ◌≡◌, ◌≢◌, eq_iff, refl, true, false, none, some, List, [], ◌∷◌, Reach, here,
  next, first,
}
use league_table.Screen.Types.{
  Boot, Identity, student, LoginClass, Request, get_bootstrap, get_digest, risk_tab, approvals_tab,
}
use league_table.Screen.Handlers.{
  pick_login_role, log_in, press_present, pick_tab, is_league, is_student,
}
use league_table.Screen.Events.{has_tab, handle, is_offered}
use league_table.Screen.Answers.{Answer, replied, answered, mounted, opened_by, landing_week}
use league_table.Screen.Steps.{Page, Step, act, answer, acted, received, opened_page}
use league_table.Screen.Proper.{filled}
use league_table.Screen.Reached.{one_view, presenting_is_discreet}
use league_table.Number.Fixed.{Fixed}
use league_table.Screen.Own.{is_about}
use league_table.Screen.Calls.{IsSignedBy, reads_of, student_reads_own}
use league_table.Examples.Client.{browser}
use league_table.Screen.Show.{load_tab}
use league_table.Screen.Late.{record_while_presenting, record_after_logout, boot_of_other_class}

abbrev options : Answer (List LoginClass)
options = replied (record { id = "c1"; students = "s01" ∷ "s02" ∷ [] } ∷ [])

abbrev boot : Boot
boot = record {
  first_week = record { id = "w1"; term_id = "t1"; week_number = 1 };
  later_weeks = record { id = "w2"; term_id = "t1"; week_number = 2 } ∷ [];
  latest_complete_week_id = some "w2";
  criteria_keys = "attendance" ∷ "homework" ∷ [];
}

-- documents are texts here
abbrev start : Page String
unfolding mounted
start = opened_page options

abbrev logged : Page String
unfolding mounted handle
logged = acted log_in start

abbrev booted : Page String
unfolding mounted handle answered
booted = received (get_bootstrap "c1") (replied boot) [] logged

abbrev on_risk : Page String
unfolding mounted handle answered
on_risk = acted (pick_tab risk_tab) booted

abbrev asked : List Request
unfolding mounted handle answered
asked = booted.in_flight

abbrev with_digest : Page String
unfolding mounted handle answered
with_digest = received (get_digest 2) (replied "digest") asked on_risk

abbrev on_stage : Page String
unfolding mounted handle answered
on_stage = acted press_present with_digest

to_digest : Reach Step (opened_page options) with_digest
unfolding mounted handle answered is_offered
to_digest =
    next
      (next
        (next (next here (act log_in refl)) (answer (get_bootstrap "c1") (replied boot) [] first))
        (act (pick_tab risk_tab) refl))
      (answer (get_digest 2) (replied "digest") asked first)

to_stage : Reach Step (opened_page options) on_stage
unfolding mounted handle answered is_offered
to_stage = next to_digest (act press_present refl)

one_view_example : filled with_digest.screen.views ≤ 1
one_view_example = one_view options with_digest to_digest

presenting_is_discreet_example :
    (on_stage.screen.logged_in ≡ true)
    × (is_student on_stage.screen.role ≡ false)
    × (is_league on_stage.screen.tab ≡ true)
    × (on_stage.screen.drawer ≡ none)
    × (on_stage.screen.explainer ≡ none)
    × (on_stage.screen.weights_open ≡ false)
    × (has_tab on_stage.screen risk_tab ≡ false)
    × (has_tab on_stage.screen approvals_tab ≡ false)
unfolding mounted handle answered
presenting_is_discreet_example = presenting_is_discreet options on_stage to_stage refl

record_while_presenting_example :
    (q : Page String) × Reach Step with_digest q
    × (q.screen.present ≡ true)
    × (q.screen.opened ≡ some (opened_by "c1" "s02" "record"))
    × (q.screen.views.digest ≡ with_digest.screen.views.digest)
unfolding mounted handle answered
record_while_presenting_example =
    record_while_presenting with_digest "c1" "s02" "record" refl refl refl refl

record_after_logout_example :
    (q : Page String) × Reach Step with_digest q
    × (q.screen.logged_in ≡ true)
    × (q.screen.role ≡ some student)
    × (q.screen.identity ≡ some (record { student_id = "s01"; class_id = "c1" }))
    × (q.screen.opened ≡ some (opened_by "c1" "s02" "record"))
unfolding mounted handle answered
record_after_logout_example =
    record_after_logout with_digest "c1" "s02" "record"
      (record { student_id = "s01"; class_id = "c1" }) refl refl refl

-- a boot of one week
abbrev short : Boot
short = record boot { later_weeks = []; latest_complete_week_id = none }

no_c1 : ◌≢◌ {A = String} "c2" "c1"
no_c1 e = let same : false ≡ true = (eq_iff "c2" "c1").1 e in cc

no_c2 : ◌≢◌ {A = String} "c3" "c2"
no_c2 e = let same : false ≡ true = (eq_iff "c3" "c2").1 e in cc

boot_of_other_class_example :
    (q : Page String) × Reach Step booted q
    × (q.screen.class_id ≡ "c3")
    × (q.screen.boot ≡ some short)
    × (q.screen.week_idx ≡ landing_week short)
    × (q.screen.criteria_keys ≡ short.criteria_keys)
unfolding mounted handle answered
boot_of_other_class_example =
    boot_of_other_class booted "c2" "c3" short boot refl refl refl no_c1 no_c2

-- a student logs in
abbrev student_logged : Page String
unfolding mounted handle
student_logged = acted log_in (acted (pick_login_role student) start)

abbrev student_booted : Page String
unfolding mounted handle answered
student_booted = received (get_bootstrap "c1") (replied boot) [] student_logged

to_student : Reach Step (opened_page options) student_booted
unfolding mounted handle answered is_offered
to_student =
    next (next (next here (act (pick_login_role student) refl)) (act log_in refl))
      (answer (get_bootstrap "c1") (replied boot) [] first)

abbrev pupil : Identity
pupil = record { student_id = "s01"; class_id = "c1" }

student_reads_own_example :
    All
      (λ r.
        (is_about pupil r ≡ true) × All (IsSignedBy browser "" pupil) (reads_of {W = Fixed} 4 [] r))
      (load_tab student_booted.screen)
unfolding mounted handle answered
student_reads_own_example =
    student_reads_own browser "" options student_booted pupil 4 [] to_student refl refl refl
