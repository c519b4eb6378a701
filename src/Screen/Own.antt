-- ===== src/Screen/Own.antt =====
-- What the tabs of a student ask for in League Table.dc.html.
use league_table.Prelude.{
  String, ◌≡◌, refl, Bool, true, false, ◌&&◌, Option, none, some, List, arith, All, eq_iff, ◌===◌,
  Reach,
}
use league_table.Screen.Types.{
  Tab, league_tab, me_tab, standing_tab, commitments_tab, risk_tab, approvals_tab, LoginClass,
  Identity, Boot, Screen, Request, get_bootstrap, get_ranking, get_me, get_standing,
  get_commitments, get_approvals, get_digest, get_drawer, get_record, get_explainer,
  get_risk_settings, save_note, save_baseline, save_week, decide_baseline, reverse_update,
  save_thresholds, save_weights, refresh,
}
use league_table.Screen.Show.{load_me, load_standing, load_commitments, load_of_tab, load_tab}
use league_table.Screen.Handlers.{is_student}
use league_table.Screen.Answers.{Answer}
use league_table.Screen.Steps.{Page, Step, opened_page}
use league_table.Screen.Proper.{is_student_tab, is_of_class, is_own}
use league_table.Screen.Reached.{Reach-Proper}

-- a request about one student, of the student's class
abbrev pub is_about : Identity → Request → Bool
is_about i (get_me q id) = q.class_id === i.class_id && id === i.student_id
is_about i (get_standing c id) = c === i.class_id && id === i.student_id
is_about i (get_commitments c id) = c === i.class_id && id === i.student_id
is_about i (get_bootstrap c) = false
is_about i (get_ranking q) = false
is_about i (get_approvals c) = false
is_about i (get_digest week) = false
is_about i (get_drawer q id) = false
is_about i (get_record c id) = false
is_about i (get_explainer c) = false
is_about i (get_risk_settings c) = false
is_about i (save_note id c) = false
is_about i (save_baseline c id) = false
is_about i (save_week c id) = false
is_about i (decide_baseline id) = false
is_about i (reverse_update id) = false
is_about i (save_thresholds c) = false
is_about i (save_weights c) = false
is_about i (refresh c) = false

abbrev pub AllAbout : Identity → List Request → Type 0
AllAbout i requests = All (λ r. is_about i r ≡ true) requests

own_identity :
    (identity : Option Identity) (class_id : String)
    → is_of_class identity class_id ≡ true
    → (i : Identity) × (identity ≡ some i) × ((i.class_id === class_id) ≡ true)
own_identity none class_id h = cc
own_identity (some i) class_id h = (i, refl, h)

module _ {V : Type 0} where
  about_self :
      (s : Screen V) (i : Identity)
      → (i.class_id === s.class_id) ≡ true
      → (s.class_id === i.class_id && i.student_id === i.student_id) ≡ true
  about_self s i h = ground (
    arith,
    eq_iff i.class_id s.class_id,
    eq_iff s.class_id i.class_id,
    eq_iff i.student_id i.student_id,
  )

  load_me-about :
      (s : Screen V) (boot : Option Boot) (i : Identity)
      → (i.class_id === s.class_id) ≡ true
      → AllAbout i (load_me s boot (some i))
  load_me-about s none i h = tt
  load_me-about s (some boot) i h = (about_self s i h, tt)

  load_standing-about :
      (s : Screen V) (i : Identity)
      → (i.class_id === s.class_id) ≡ true
      → AllAbout i (load_standing s (some i))
  load_standing-about s i h = (about_self s i h, tt)

  load_commitments-about :
      (s : Screen V) (boot : Option Boot) (i : Identity)
      → (i.class_id === s.class_id) ≡ true
      → AllAbout i (load_commitments s boot (some i))
  load_commitments-about s none i h = tt
  load_commitments-about s (some boot) i h = load_standing-about s i h

  load_of_tab-about :
      (s : Screen V) (i : Identity) (t : Tab)
      → s.identity ≡ some i
      → (i.class_id === s.class_id) ≡ true
      → is_student_tab t ≡ true
      → AllAbout i (load_of_tab s t)
  load_of_tab-about s i me_tab e h o = rw e (load_me-about s s.boot i h)
  load_of_tab-about s i standing_tab e h o = rw e (load_standing-about s i h)
  load_of_tab-about s i commitments_tab e h o = rw e (load_commitments-about s s.boot i h)
  load_of_tab-about s i league_tab e h o = cc
  load_of_tab-about s i risk_tab e h o = cc
  load_of_tab-about s i approvals_tab e h o = cc

  -- In a student's session the page knows who the student is, and every load of the tab asks only for
  -- data of that student in that student's class, whatever was done before and in whatever order the
  -- server has answered.
  pub student_asks_own :
      (options : Answer (List LoginClass)) (p : Page V)
      → Reach Step (opened_page options) p
      → is_student p.screen.role ≡ true
      → (i : Identity) × (p.screen.identity ≡ some i) × AllAbout i (load_tab p.screen)
  student_asks_own options p r pupil =
      let own : is_own p.screen ≡ true = (Reach-Proper options p r).3 in
      let on_tab : is_student_tab p.screen.tab ≡ true = ground arith in
      let (i, e, same) = own_identity p.screen.identity p.screen.class_id (ground arith) in
      (i, e, load_of_tab-about p.screen i p.screen.tab e same on_tab)
