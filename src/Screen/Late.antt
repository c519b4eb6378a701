-- ===== src/Screen/Late.antt =====
-- Answers that arrive late in League Table.dc.html: what Present and the end of a session leave open.
use mathlib.Core.Path.{subst}
use league_table.Prelude.{
  ◌≡◌, ◌≢◌, refl, ap, not, if◌then◌else◌, String, Bool, true, false, Option, some, List, [], ◌∷◌,
  ◌++◌, arith, is_some, Reach, here, next, Take, first, later,
}
use league_table.Api.Actions.{differs-of_ne}
use league_table.Screen.Types.{
  student, Identity, Boot, league_tab, Screen, get_record, get_bootstrap, Views,
}
use league_table.Screen.Handlers.{
  press_present, pick_class, open_record, pick_login_role, log_in, log_out, student_in,
  find_login_class, log_in_student, is_student, is_league, toggle_present, Sent, quiet, then_load,
  enter_present,
}
use league_table.Screen.Events.{handle, is_offered}
use league_table.Screen.Answers.{replied, answered, opened_by, landing_week}
use league_table.Screen.Steps.{Page, Step, act, answer, acted, received}

take_middle : {A : Type 0} (x : A) (xs ys : List A) → Take x (xs ++ (x ∷ ys)) (xs ++ ys)
take_middle x [] ys = first
take_middle x (z ∷ xs) ys = later (take_middle x xs ys)

module _ {V : Type 0} where
  branch_of :
      (P : Sent V → Type 0) (out own shown on : Bool) (x y table elsewhere : Sent V)
      → out ≡ false
      → own ≡ false
      → shown ≡ false
      → P table
      → P elsewhere
      → P (
          if out
          then x
          else if own
          then x
          else if shown
          then y
          else if on
          then table
          else elsewhere)
  branch_of P true own shown on x y table elsewhere a b c h k = cc
  branch_of P false true shown on x y table elsewhere a b c h k = cc
  branch_of P false false true on x y table elsewhere a b c h k = cc
  branch_of P false false false true x y table elsewhere a b c h k = h
  branch_of P false false false false x y table elsewhere a b c h k = k

  toggled_on :
      (s : Screen V)
      → s.logged_in ≡ true
      → is_student s.role ≡ false
      → s.present ≡ false
      → ((toggle_present s).0.present ≡ true) × ((toggle_present s).0.views ≡ s.views)
  toggled_on s inside teacher hidden =
      branch_of (λ x. (x.0.present ≡ true) × (x.0.views ≡ s.views)) (not s.logged_in)
        (is_student s.role) s.present (is_league s.tab) (quiet s)
        (quiet (record s { present = false })) (quiet (enter_present s))
        (then_load (record (enter_present s) { tab = league_tab; loading = true })) (ground arith)
        teacher hidden (refl, refl) (refl, refl)

  -- Where somebody who is not a student has the digest on the screen and does not present, there is
  -- a run that asks for a student's risk record, presents and then receives the record: it ends
  -- with the page presenting, the record open, and the digest on the screen as before.
  pub record_while_presenting :
      (p : Page V) (class_id id : String) (document : V)
      → p.screen.logged_in ≡ true
      → is_student p.screen.role ≡ false
      → p.screen.present ≡ false
      → is_some p.screen.views.digest ≡ true
      → (q : Page V) × Reach Step p q
        × (q.screen.present ≡ true)
        × (q.screen.opened ≡ some (opened_by class_id id document))
        × (q.screen.views.digest ≡ p.screen.views.digest)
  unfolding handle answered is_offered
  record_while_presenting p class_id id document inside teacher hidden shown =
      let asked : Page V = acted (open_record class_id id) p in
      let presenting : Page V = acted press_present asked in
      let requests = (toggle_present p.screen).1 in
      let (on, same) = toggled_on p.screen inside teacher hidden in
      (
        received (get_record class_id id) (replied document) (requests ++ p.in_flight) presenting,
        next
            (next (next here (act (open_record class_id id) (ground arith)))
              (act press_present refl))
            (answer (get_record class_id id) (replied document) (requests ++ p.in_flight)
              (take_middle (get_record class_id id) requests p.in_flight)),
        on,
        refl,
        ap (λ (v : Views V). v.digest) same,
      )

  -- Where the digest is on the screen and the login names a student, there is a run that asks for any student's risk record, logs out, logs in as the student named,
  -- and then receives the record: it ends in the session of that student, with the record open.
  pub record_after_logout :
      (p : Page V) (class_id id : String) (document : V) (identity : Identity)
      → p.screen.logged_in ≡ true
      → is_some p.screen.views.digest ≡ true
      → student_in
          (find_login_class p.screen.login_options p.screen.login_class_id)
          p.screen.login_student_id
        ≡ some identity
      → (q : Page V) × Reach Step p q
        × (q.screen.logged_in ≡ true)
        × (q.screen.role ≡ some student)
        × (q.screen.identity ≡ some identity)
        × (q.screen.opened ≡ some (opened_by class_id id document))
  unfolding handle answered is_offered
  record_after_logout p class_id id document identity inside shown named =
      let asked : Page V = acted (open_record class_id id) p in
      let left : Page V = acted (pick_login_role student) (acted log_out asked) in
      let entered : Page V = acted log_in left in
      let in_session : Option Identity → Page V = λ o.
        let (screen, requests) = log_in_student o left.screen in
        record { screen = screen; in_flight = requests ++ left.in_flight } in
      let run : Reach Step p entered =
        next
          (next
            (next (next here (act (open_record class_id id) (ground arith))) (act log_out inside))
            (act (pick_login_role student) refl))
          (act log_in refl) in
      let rest = get_bootstrap identity.class_id ∷ p.in_flight in
      let page : Page V = in_session (some identity) in
      (
        received (get_record class_id id) (replied document) rest page,
        next (subst (λ q. Reach Step p q) (ap in_session named) run)
            (answer (get_record class_id id) (replied document) rest (later first)),
        refl,
        refl,
        refl,
        refl,
      )

  -- Where somebody who is not a student has a class loaded and picks two others, one after the other,
  -- there is a run in which the first of the two is answered last: it ends with the second as the
  -- class of the page, and with the weeks, criteria and default week of the first.
  pub boot_of_other_class :
      (p : Page V) (first_id second_id : String) (first_boot second_boot : Boot)
      → p.screen.logged_in ≡ true
      → is_student p.screen.role ≡ false
      → is_some p.screen.boot ≡ true
      → first_id ≢ p.screen.class_id
      → second_id ≢ first_id
      → (q : Page V) × Reach Step p q
        × (q.screen.class_id ≡ second_id)
        × (q.screen.boot ≡ some first_boot)
        × (q.screen.week_idx ≡ landing_week first_boot)
        × (q.screen.criteria_keys ≡ first_boot.criteria_keys)
  unfolding handle answered is_offered
  boot_of_other_class p first_id second_id first_boot second_boot inside teacher loaded ne ne' =
      let once : Page V = acted (pick_class first_id) p in
      let twice : Page V = acted (pick_class second_id) once in
      let waiting = get_bootstrap first_id ∷ p.in_flight in
      let shown : Page V = received (get_bootstrap second_id) (replied second_boot) waiting twice in
      let requests = (answered (get_bootstrap second_id) (replied second_boot) twice.screen).1 in
      (
        received (get_bootstrap first_id) (replied first_boot) (requests ++ p.in_flight) shown,
        next
            (next
              (next
                (next here (
                  act (pick_class first_id)
                    (ground (arith, differs-of_ne p.screen.class_id first_id ne))))
                (act (pick_class second_id) (ground (arith, differs-of_ne first_id second_id ne'))))
              (answer (get_bootstrap second_id) (replied second_boot) waiting first))
            (answer (get_bootstrap first_id) (replied first_boot) (requests ++ p.in_flight)
              (take_middle (get_bootstrap first_id) requests p.in_flight)),
        refl,
        refl,
        refl,
        refl,
      )
