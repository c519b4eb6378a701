-- ===== src/Screen/Proper/Handled.antt =====
-- Every handler, and every answer, keeps the state proper.
use league_table.Prelude.{ℕ, ◌+◌, ◌-◌, ◌≡◌, refl, true, Option, none, some, arith}
use league_table.Screen.Types.{
  Tab, league_tab, me_tab, standing_tab, commitments_tab, risk_tab, approvals_tab, Boot, Screen,
  save_baseline, save_week,
}
use league_table.Screen.Handlers.{Event, step_week, scrub, toggled}
use league_table.Screen.Events.{handle, is_offered, has_tab}
use league_table.Screen.Proper.{is_discreet, is_own, IsProper}
use league_table.Screen.Proper.Acts.{
  KeptBy, keeps, kept_if, no_drawer, load_class-Proper, go_to_week-Proper, toggle_present-Proper,
  log_in_as-Proper, digit_key-Proper, pick_some_keys-Proper, ask_drawer-Proper, ask_note-Proper,
  ask_as_student-Proper,
}

module _ {V : Type 0} where
  step_week-Proper :
      (move : ℕ → ℕ) (boot : Option Boot) (s : Screen V)
      → s.boot ≡ boot
      → IsProper s
      → KeptBy (step_week move boot s)
  step_week-Proper move none s e h = keeps _ h
  step_week-Proper move (some boot) s e h = go_to_week-Proper boot (move s.week_idx) s e h

  scrub-Proper :
      (n : ℕ) (boot : Option Boot) (s : Screen V)
      → s.boot ≡ boot
      → IsProper s
      → KeptBy (scrub n boot s)
  scrub-Proper n none s e h = keeps _ h
  scrub-Proper n (some boot) s e h = go_to_week-Proper boot (n - 1) s e h

  -- the tabs that are offered while presenting
  pick_tab-discreet :
      (t : Tab) (s : Screen V)
      → has_tab s t ≡ true
      → is_discreet s ≡ true
      → is_discreet (record s { tab = t; loading = true; drawer = none }) ≡ true
  pick_tab-discreet league_tab s o d = ground arith
  pick_tab-discreet me_tab s o d = ground arith
  pick_tab-discreet standing_tab s o d = ground arith
  pick_tab-discreet commitments_tab s o d = ground arith
  pick_tab-discreet risk_tab s o d = ground arith
  pick_tab-discreet approvals_tab s o d = ground arith

  -- the tabs that are offered to a student
  pick_tab-own :
      (t : Tab) (s : Screen V)
      → has_tab s t ≡ true
      → is_own s ≡ true
      → is_own (record s { tab = t; loading = true; drawer = none }) ≡ true
  pick_tab-own league_tab s o own = ground arith
  pick_tab-own me_tab s o own = ground arith
  pick_tab-own standing_tab s o own = ground arith
  pick_tab-own commitments_tab s o own = ground arith
  pick_tab-own risk_tab s o own = ground arith
  pick_tab-own approvals_tab s o own = ground arith

  pub handle-Proper :
      (e : Event) (s : Screen V) → is_offered s e ≡ true → IsProper s → KeptBy (handle e s)
  unfolding handle is_offered
  handle-Proper (Event.pick_login_role r) s o h = keeps _ h
  handle-Proper (Event.pick_login_class id) s o h = keeps _ h
  handle-Proper (Event.pick_login_student id) s o h = keeps _ h
  handle-Proper Event.log_in s o h = log_in_as-Proper s.login_role s (ground arith) h
  handle-Proper Event.log_out s o h = keeps _ (omega arith, tt, refl, refl)
  handle-Proper Event.press_escape s o (one, fits, d, own) = keeps _ (one, fits, ground arith, own)
  handle-Proper Event.press_present s o h = toggle_present-Proper s h
  handle-Proper Event.week_back s o h = step_week-Proper (λ i. i - 1) s.boot s refl h
  handle-Proper Event.week_on s o h = step_week-Proper (λ i. i + 1) s.boot s refl h
  handle-Proper (Event.scrub_week n) s o h = scrub-Proper n s.boot s refl h
  handle-Proper (Event.press_digit n) s o h = digit_key-Proper n s.boot s h
  handle-Proper (Event.pick_tab t) s o (one, fits, d, own) =
      keeps _
        (one, fits, pick_tab-discreet t s (ground arith) d, pick_tab-own t s (ground arith) own)
  handle-Proper (Event.pick_class id) s o h = load_class-Proper id s (ground arith) h
  handle-Proper (Event.pick_window mode) s o (one, fits, d, own) =
      keeps _ (one, fits, no_drawer s d, own)
  handle-Proper (Event.pick_criterion key) s o h =
      pick_some_keys-Proper (toggled key s.criteria_keys) s h
  handle-Proper (Event.pick_names mode) s o h = keeps _ h
  handle-Proper Event.toggle_raw s o h = keeps _ h
  handle-Proper Event.toggle_show_all s o h = keeps _ h
  handle-Proper Event.toggle_weights s o (one, fits, d, own) =
      keeps _ (one, fits, ground arith, own)
  handle-Proper Event.close_weights s o (one, fits, d, own) = keeps _ (one, fits, ground arith, own)
  handle-Proper Event.apply_weights s o h = keeps _ h
  handle-Proper Event.open_explainer s o h = keeps _ h
  handle-Proper Event.close_explainer s o (one, fits, d, own) =
      keeps _ (one, fits, ground arith, own)
  handle-Proper (Event.open_drawer id) s o h =
      kept_if s.present _ _ (λ shown. keeps _ h) (λ hidden. ask_drawer-Proper id s.boot s h)
  handle-Proper Event.close_drawer s o (one, fits, d, own) = keeps _ (one, fits, no_drawer s d, own)
  handle-Proper (Event.open_record class_id id) s o h = keeps _ h
  handle-Proper Event.close_record s o h = keeps _ h
  handle-Proper (Event.keep_note body) s o h = ask_note-Proper body s.opened s h
  handle-Proper Event.open_thresholds s o h = keeps _ h
  handle-Proper Event.close_thresholds s o h = keeps _ h
  handle-Proper Event.apply_thresholds s o h = keeps _ h
  handle-Proper Event.keep_baseline s o h = ask_as_student-Proper save_baseline s.identity s h
  handle-Proper Event.keep_week s o h = ask_as_student-Proper save_week s.identity s h
  handle-Proper (Event.decide id) s o h = keeps _ h
  handle-Proper (Event.undo_update id) s o h = keeps _ h
  handle-Proper Event.ask_refresh s o h = keeps _ h
