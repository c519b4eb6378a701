-- ===== src/Screen/Answers.antt =====
-- What the component of League Table.dc.html does with an answer of the server. A request that reads
-- twice has one answer here, and an answer is taken in the state of the moment it arrives.
use league_table.Prelude.{
  ℕ, String, true, false, Option, none, some, List, if◌then◌else◌, find_index, or_default, ◌===◌,
  first?,
}
use league_table.Screen.Types.{
  LoginClass, Boot, Opened, Screen, Request, get_bootstrap, get_ranking, get_me, get_standing,
  get_commitments, get_approvals, get_digest, get_drawer, get_record, get_explainer,
  get_risk_settings, save_note, save_baseline, save_week, decide_baseline, reverse_update,
  save_thresholds, save_weights, refresh, no_views, weeks_of,
}
use league_table.Screen.Show.{show_view, show_error, load_commitments, load_approvals, load_digest}
use league_table.Screen.Events.{first_student}
use league_table.Screen.Handlers.{Sent, quiet, then_load}

-- an answer of the server, or the message of an error
pub data Answer (A : Type 0) : Type 0 where
  replied : A → Answer A
  failed : String → Answer A

-- What each request is answered with.
abbrev pub Reply : Type 0 → Request → Type 0
Reply V (get_bootstrap c) = Boot
Reply V (get_ranking q) = List V
Reply V (get_me q id) = V × V
Reply V (get_standing c id) = V
Reply V (get_commitments c id) = V
Reply V (get_approvals c) = V × V
Reply V (get_digest week) = V
Reply V (get_drawer q id) = V
Reply V (get_record c id) = V
Reply V (get_explainer c) = V
Reply V (get_risk_settings c) = V
Reply V (save_note id c) = V
Reply V (save_baseline c id) = V
Reply V (save_week c id) = V
Reply V (decide_baseline id) = V
Reply V (reverse_update id) = V
Reply V (save_thresholds c) = V
Reply V (save_weights c) = V
Reply V (refresh c) = V

-- `Math.max(0, boot.weeks.findIndex(…))`
abbrev pub landing_week : Boot → ℕ
landing_week boot = elim boot.latest_complete_week_id [
  | none ↦ 0
  | some id ↦ or_default (find_index (λ w. w.id === id) (weeks_of boot)) 0
]

-- the first class and its first student, which the login starts with
abbrev first_class_id : Option LoginClass → String
first_class_id none = "c1"
first_class_id (some c) = c.id

module _ {V : Type 0} where
  -- `componentDidMount`, once `getLoginOptions` has answered
  unfoldable pub mounted : Answer (List LoginClass) → Screen V → Screen V
  mounted (failed message) s = show_error message s
  mounted (replied classes) s = record s {
    loading = false;
    login_options = some classes;
    login_class_id = first_class_id (first? classes);
    login_student_id = first_student (first? classes);
  }

  -- `handleApiError(err, { loading: this.state.loading })`
  abbrev pub note_error : String → Screen V → Screen V
  note_error message s = record s { error_msg = some message }

  abbrev pub opened_by : String → String → V → Opened V
  opened_by class_id id document = record {
    student_id = id;
    class_id = class_id;
    document = document;
  }

  -- the record is replaced only if it is still open
  abbrev pub keep_open : Option (Opened V) → String → String → V → Option (Opened V)
  keep_open none class_id id fresh = none
  keep_open (some o) class_id id fresh =
      if o.student_id === id then some (opened_by class_id id fresh) else some o

  unfoldable pub answered : (r : Request) → Answer (Reply V r) → Screen V → Sent V
  -- `loadClass` has no `catch`
  answered (get_bootstrap c) (failed message) s = quiet s
  answered (get_bootstrap c) (replied boot) s = then_load (record s {
    boot = some boot;
    week_idx = landing_week boot;
    criteria_keys = boot.criteria_keys;
  })
  answered (get_ranking q) (failed message) s = quiet (show_error message s)
  answered (get_ranking q) (replied rows) s = quiet (show_view (record no_views { rows = rows }) s)
  answered (get_me q id) (failed message) s =
      quiet (record (show_error message s) { views = record s.views { me = none } })
  answered (get_me q id) (replied me) s = quiet (show_view (record no_views { me = some me }) s)
  answered (get_standing c id) (failed message) s = quiet (show_error message s)
  answered (get_standing c id) (replied d) s =
      quiet (show_view (record no_views { standing = some d }) s)
  answered (get_commitments c id) (failed message) s =
      quiet (record (show_error message s) { views = record s.views { commitments = none } })
  answered (get_commitments c id) (replied d) s =
      quiet
        (record (show_view (record no_views { commitments = some d }) s) { commit_error = none })
  answered (get_approvals c) (failed message) s = quiet (record (show_error message s) {
    views = record s.views { pending_baselines = none };
    weekly_updates = none;
  })
  answered (get_approvals c) (replied (pending, updates)) s =
      quiet (record (show_view (record no_views { pending_baselines = some pending }) s) {
        weekly_updates = some updates;
        approvals_error = none;
      })
  answered (get_digest week) (failed message) s = quiet (show_error message s)
  answered (get_digest week) (replied d) s =
      quiet (show_view (record no_views { digest = some d }) s)
  answered (get_drawer q id) (failed message) s = quiet (note_error message s)
  answered (get_drawer q id) (replied d) s =
      quiet (if s.present then s else record s { drawer = some d })
  answered (get_record c id) (failed message) s = quiet (note_error message s)
  answered (get_record c id) (replied d) s = quiet (record s { opened = some (opened_by c id d) })
  answered (get_explainer c) (failed message) s = quiet s
  answered (get_explainer c) (replied d) s =
      quiet (if s.present then s else record s { explainer = some d })
  answered (get_risk_settings c) (failed message) s = quiet s
  answered (get_risk_settings c) (replied d) s = quiet (record s { thresholds_open = true })
  answered (save_note id c) (failed message) s = quiet (note_error message s)
  answered (save_note id c) (replied fresh) s =
      (record s { opened = keep_open s.opened c id fresh }, load_digest s s.boot)
  answered (save_baseline c id) (failed message) s =
      quiet (record s { commit_error = some message })
  answered (save_baseline c id) (replied d) s =
      (record s { commit_error = none }, load_commitments s s.boot s.identity)
  answered (save_week c id) (failed message) s = quiet (record s { commit_error = some message })
  answered (save_week c id) (replied d) s =
      (record s { commit_error = none }, load_commitments s s.boot s.identity)
  answered (decide_baseline id) (failed message) s =
      quiet (record s { approvals_error = some message })
  answered (decide_baseline id) (replied d) s =
      (record s { approvals_error = none }, load_approvals s s.boot)
  answered (reverse_update id) (failed message) s =
      quiet (record s { approvals_error = some message })
  answered (reverse_update id) (replied d) s =
      (record s { approvals_error = none }, load_approvals s s.boot)
  answered (save_thresholds c) (failed message) s = quiet s
  answered (save_thresholds c) (replied d) s =
      (record s { thresholds_open = false; opened = none }, load_digest s s.boot)
  answered (save_weights c) (failed message) s = quiet s
  answered (save_weights c) (replied d) s = then_load (record s { weights_open = false })
  answered (refresh c) (failed message) s = quiet (note_error message s)
  answered (refresh c) (replied d) s = then_load (record s { error_msg = none })
