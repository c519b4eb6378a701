-- ===== src/Screen/Events.antt =====
-- What a user does on the screens of League Table.dc.html, when it is offered, and its handler.
use league_table.Prelude.{
  ◌+◌, ◌-◌, String, Bool, true, false, not, ◌&&◌, ◌||◌, Option, none, some, [], ◌∷◌, first?,
  is_some, ◌===◌, if◌then◌else◌,
}
use league_table.Screen.Types.{
  Tab, league_tab, me_tab, standing_tab, commitments_tab, risk_tab, approvals_tab, LoginClass,
  Screen, get_record, get_explainer, get_risk_settings, save_baseline, save_week, decide_baseline,
  reverse_update, save_thresholds, save_weights, refresh,
}
use league_table.Screen.Handlers.{
  Event, pick_login_role, pick_login_class, pick_login_student, log_in, log_out, press_escape,
  press_present, week_back, week_on, scrub_week, press_digit, pick_tab, pick_class, pick_window,
  pick_criterion, pick_names, toggle_raw, toggle_show_all, toggle_weights, close_weights,
  apply_weights, open_explainer, close_explainer, open_drawer, close_drawer, open_record,
  close_record, keep_note, open_thresholds, close_thresholds, apply_thresholds, keep_baseline,
  keep_week, decide, undo_update, ask_refresh, Sent, is_league, is_student, quiet, then_load,
  load_class, find_login_class, do_login, logout, toggle_present, step_week, scrub, digit_key,
  pick_some_keys, toggled, ask_drawer, ask_note, ask_as_student,
}

abbrev pub first_student : Option LoginClass → Option String
first_student none = none
first_student (some c) = first? c.students

abbrev pub is_me : Tab → Bool
is_me me_tab = true
is_me league_tab = false
is_me standing_tab = false
is_me commitments_tab = false
is_me risk_tab = false
is_me approvals_tab = false

module _ {V : Type 0} where
  unfoldable pub handle : Event → Screen V → Sent V
  handle (pick_login_role r) s = quiet (record s { login_role = r; login_error = none })
  handle (pick_login_class id) s = quiet (record s {
    login_class_id = id;
    login_student_id = first_student (find_login_class s.login_options id);
  })
  handle (pick_login_student id) s = quiet (record s { login_student_id = some id })
  handle log_in s = do_login s
  handle log_out s = quiet (logout s)
  handle press_escape s = quiet (record s {
    drawer = none;
    weights_open = false;
    explainer = none;
    opened = none;
    thresholds_open = false;
  })
  handle press_present s = toggle_present s
  handle week_back s = step_week (λ i. i - 1) s.boot s
  handle week_on s = step_week (λ i. i + 1) s.boot s
  handle (scrub_week n) s = scrub n s.boot s
  handle (press_digit n) s = digit_key n s.boot s
  handle (pick_tab t) s = then_load (record s { tab = t; loading = true; drawer = none })
  handle (pick_class id) s = load_class id s
  handle (pick_window mode) s = then_load (record s { window_mode = mode; drawer = none })
  handle (pick_criterion key) s = pick_some_keys (toggled key s.criteria_keys) s
  handle (pick_names mode) s = then_load (record s { name_mode = mode })
  handle toggle_raw s = quiet (record s { raw_on = not s.raw_on })
  handle toggle_show_all s = quiet (record s { show_all = not s.show_all })
  handle toggle_weights s = quiet (record s { weights_open = not s.weights_open })
  handle close_weights s = quiet (record s { weights_open = false })
  handle apply_weights s = (s, save_weights s.class_id ∷ [])
  handle open_explainer s = (s, get_explainer s.class_id ∷ [])
  handle close_explainer s = quiet (record s { explainer = none })
  handle (open_drawer id) s = if s.present then quiet s else ask_drawer id s.boot s
  handle close_drawer s = quiet (record s { drawer = none })
  handle (open_record class_id id) s = (s, get_record class_id id ∷ [])
  handle close_record s = quiet (record s { opened = none })
  handle (keep_note body) s = ask_note body s.opened s
  handle open_thresholds s = (s, get_risk_settings s.class_id ∷ [])
  handle close_thresholds s = quiet (record s { thresholds_open = false })
  handle apply_thresholds s = (s, save_thresholds s.class_id ∷ [])
  handle keep_baseline s = ask_as_student save_baseline s.identity s
  handle keep_week s = ask_as_student save_week s.identity s
  handle (decide id) s = (s, decide_baseline id ∷ [])
  handle (undo_update id) s = (s, reverse_update id ∷ [])
  handle ask_refresh s = (s, refresh s.class_id ∷ [])

  -- the roles of `buildTabs`, without the tabs that Present hides
  abbrev pub has_tab : Screen V → Tab → Bool
  has_tab s league_tab = is_some s.role && not (is_student s.role)
  has_tab s me_tab = is_student s.role
  has_tab s standing_tab = is_student s.role
  has_tab s commitments_tab = is_student s.role
  has_tab s risk_tab = is_some s.role && not (is_student s.role) && not s.present
  has_tab s approvals_tab = is_some s.role && not (is_student s.role) && not s.present

  -- `showControls`, and the same for the other tabs
  abbrev pub controls : Bool → Screen V → Bool
  controls on_tab s = s.logged_in && is_some s.boot && not s.loading && on_tab

  -- whether the page has the control for it; keys are always heard
  unfoldable pub is_offered : Screen V → Event → Bool
  is_offered s (pick_login_role r) = not s.logged_in
  is_offered s (pick_login_class id) = not s.logged_in
  is_offered s (pick_login_student id) = not s.logged_in
  is_offered s log_in = not s.logged_in
  is_offered s log_out = s.logged_in
  is_offered s press_escape = true
  is_offered s press_present = true
  is_offered s week_back = true
  is_offered s week_on = true
  is_offered s (scrub_week n) = s.logged_in && is_some s.boot && not s.loading
  is_offered s (press_digit n) = true
  is_offered s (pick_tab t) = s.logged_in && has_tab s t
  is_offered s (pick_class id) =
      s.logged_in && is_some s.boot && not (is_student s.role) && not (s.class_id === id)
  is_offered s (pick_window mode) = controls (is_league s.tab || is_me s.tab) s
  is_offered s (pick_criterion key) = controls (is_league s.tab) s
  is_offered s (pick_names mode) = controls (is_league s.tab) s
  is_offered s toggle_raw = controls (is_league s.tab) s && not s.present
  is_offered s toggle_show_all = controls (is_league s.tab) s
  is_offered s toggle_weights = controls (is_league s.tab) s && not s.present
  is_offered s close_weights = s.logged_in && s.weights_open
  is_offered s apply_weights = s.logged_in && s.weights_open
  is_offered s open_explainer =
      controls (is_me s.tab) s || (controls (is_league s.tab) s && not s.present)
  is_offered s close_explainer = s.logged_in && is_some s.explainer
  is_offered s (open_drawer id) = controls (is_league s.tab) s
  is_offered s close_drawer = s.logged_in && is_some s.drawer
  is_offered s (open_record class_id id) = s.logged_in && is_some s.views.digest
  is_offered s close_record = s.logged_in && is_some s.opened
  is_offered s (keep_note body) = s.logged_in && is_some s.opened
  is_offered s open_thresholds = s.logged_in && is_some s.views.digest
  is_offered s close_thresholds = s.logged_in && s.thresholds_open
  is_offered s apply_thresholds = s.logged_in && s.thresholds_open
  is_offered s keep_baseline = s.logged_in && is_some s.views.commitments
  is_offered s keep_week = s.logged_in && is_some s.views.commitments
  is_offered s (decide id) = s.logged_in && is_some s.views.pending_baselines
  is_offered s (undo_update id) = s.logged_in && is_some s.views.pending_baselines
  is_offered s ask_refresh = s.logged_in
