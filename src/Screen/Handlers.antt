-- ===== src/Screen/Handlers.antt =====
-- The handlers of League Table.dc.html up to the requests that they send: `doLogin`, `logout`,
-- `loadClass`, `onKey`, `togglePresent`, `stepWeek`, and those of the buttons of the screens.
use league_table.Prelude.{
  ℕ, zero, suc, ◌-◌, String, Bool, true, false, not, Option, none, some, List, [], ◌∷◌, ◌++◌,
  if◌then◌else◌, ltb, ◌==◌, ◌===◌, find, filter, includes, get_elem?,
}
use league_table.Api.Writes.{trimmed}
use league_table.Screen.Types.{
  Role, instructor, student, admin, Tab, league_tab, me_tab, standing_tab, commitments_tab,
  risk_tab, approvals_tab, Identity, LoginClass, Boot, Opened, Screen, Request, get_bootstrap,
  get_drawer, save_note, no_views, last_index,
}
use league_table.Screen.Show.{show_error, query_of, load_ranking, load_tab}

-- What a user does.
pub data Event : Type 0 where
  pick_login_role : Role → Event
  pick_login_class pick_login_student : String → Event
  log_in log_out : Event
  press_escape press_present : Event
  week_back week_on : Event
  scrub_week : ℕ → Event
  press_digit : ℕ → Event
  pick_tab : Tab → Event
  pick_class pick_window pick_criterion pick_names : String → Event
  toggle_raw toggle_show_all toggle_weights close_weights apply_weights : Event
  open_explainer close_explainer : Event
  open_drawer : String → Event
  close_drawer : Event
  open_record : String → String → Event
  close_record : Event
  keep_note : String → Event
  open_thresholds close_thresholds apply_thresholds : Event
  keep_baseline keep_week : Event
  decide undo_update : String → Event
  ask_refresh : Event

abbrev pub is_league : Tab → Bool
is_league league_tab = true
is_league me_tab = false
is_league standing_tab = false
is_league commitments_tab = false
is_league risk_tab = false
is_league approvals_tab = false

abbrev pub is_student : Option Role → Bool
is_student none = false
is_student (some instructor) = false
is_student (some student) = true
is_student (some admin) = false

-- `Math.min(boot.weeks.length - 1, Math.max(0, i))`, where `i` is not negative
abbrev pub clamp_week : Boot → ℕ → ℕ
clamp_week boot i = if ltb (last_index boot) i then last_index boot else i

-- what a handler leaves, with the requests that it sends
abbrev pub Sent : Type 0 → Type 0
Sent V = Screen V × List Request

abbrev pub find_login_class : Option (List LoginClass) → String → Option LoginClass
find_login_class none class_id = none
find_login_class (some classes) class_id = find (λ c. c.id === class_id) classes

abbrev pub student_in : Option LoginClass → Option String → Option Identity
student_in none student_id = none
student_in (some c) none = none
student_in (some c) (some id) =
    if includes c.students id then some (record { student_id = id; class_id = c.id }) else none

-- `s.classId || 'c1'`
abbrev class_or_first : String → String
class_or_first class_id = if class_id === "" then "c1" else class_id

abbrev pub toggled : String → List String → List String
toggled key keys =
    if includes keys key then filter (λ k. not (k === key)) keys else keys ++ (key ∷ [])

module _ {V : Type 0} where
  abbrev pub quiet : Screen V → Sent V
  quiet s = (s, [])

  abbrev pub then_load : Screen V → Sent V
  then_load s = (s, load_tab s)

  abbrev pub load_class : String → Screen V → Sent V
  load_class class_id s = (
    record s {
      loading = true;
      class_id = class_id;
      drawer = none;
      views = record s.views { me = none };
      show_all = false;
    },
    get_bootstrap class_id ∷ [],
  )

  abbrev pub log_in_student : Option Identity → Screen V → Sent V
  log_in_student none s =
      quiet (record s { login_error = some "Pick a class and a student to continue." })
  log_in_student (some identity) s = load_class identity.class_id (record s {
    logged_in = true;
    role = some student;
    login_error = none;
    identity = some identity;
    tab = me_tab;
  })

  abbrev pub log_in_teacher : Role → Screen V → Sent V
  log_in_teacher r s = load_class (class_or_first s.class_id) (record s {
    logged_in = true;
    role = some r;
    identity = none;
    login_error = none;
    tab = league_tab;
  })

  abbrev pub log_in_as : Role → Screen V → Sent V
  log_in_as student s =
      log_in_student
        (student_in (find_login_class s.login_options s.login_class_id) s.login_student_id) s
  log_in_as instructor s = log_in_teacher instructor s
  log_in_as admin s = log_in_teacher admin s

  abbrev pub do_login : Screen V → Sent V
  do_login s = log_in_as s.login_role s

  abbrev pub logout : Screen V → Screen V
  logout s = record s {
    logged_in = false;
    role = none;
    identity = none;
    login_error = none;
    boot = none;
    views = no_views;
    weekly_updates = none;
    opened = none;
    drawer = none;
    present = false;
  }

  abbrev pub enter_present : Screen V → Screen V
  enter_present s = record s {
    present = true;
    drawer = none;
    weights_open = false;
    explainer = none;
    opened = none;
    thresholds_open = false;
  }

  abbrev pub toggle_present : Screen V → Sent V
  toggle_present s =
      if not s.logged_in
      then quiet s
      else if is_student s.role
      then quiet s
      else if s.present
      then quiet (record s { present = false })
      else if is_league s.tab
      then quiet (enter_present s)
      else then_load (record (enter_present s) { tab = league_tab; loading = true })

  -- a change of week, where it is one
  abbrev pub go_to_week : ℕ → Screen V → Sent V
  go_to_week next s =
      if next == s.week_idx
      then quiet s
      else then_load (record s { week_idx = next; drawer = none })

  -- `stepWeek` of the index moved by one, which the key handler calls only with a boot
  abbrev pub step_week : (ℕ → ℕ) → Option Boot → Screen V → Sent V
  step_week move none s = quiet s
  step_week move (some boot) s = go_to_week (clamp_week boot (move s.week_idx)) s

  -- `onScrubWeek` of the week's number
  abbrev pub scrub : ℕ → Option Boot → Screen V → Sent V
  scrub n none s = quiet s
  scrub n (some boot) s = go_to_week (clamp_week boot (n - 1)) s

  abbrev pub pick_keys : List String → Screen V → Sent V
  pick_keys keys s =
      let next = record s { criteria_keys = keys } in (next, load_ranking next next.boot)

  -- the keys 1 to 9 and 0, on the league table
  abbrev pub digit_key : ℕ → Option Boot → Screen V → Sent V
  digit_key n none s = quiet s
  digit_key zero (some boot) s = if is_league s.tab then pick_keys boot.criteria_keys s else quiet s
  digit_key (suc i) (some boot) s = elim (get_elem? boot.criteria_keys i) [
    | none ↦ quiet s
    | some key ↦ if is_league s.tab then pick_keys (key ∷ []) s else quiet s
  ]

  -- the last criterion cannot be turned off
  abbrev pub pick_some_keys : List String → Screen V → Sent V
  pick_some_keys [] s = quiet s
  pick_some_keys (k ∷ ks) s = then_load (record s { criteria_keys = k ∷ ks; drawer = none })

  -- `openDrawer` up to its request; without a boot `query` throws
  abbrev pub ask_drawer : String → Option Boot → Screen V → Sent V
  ask_drawer id none s =
      quiet (record (show_error "Cannot read properties of null (reading 'weeks')" s) {
        loading = s.loading;
      })
  ask_drawer id (some boot) s = (s, get_drawer (query_of s boot) id ∷ [])

  -- `onSaveNote` of a draft
  abbrev pub ask_note : String → Option (Opened V) → Screen V → Sent V
  ask_note body none s = quiet s
  ask_note body (some o) s =
      if trimmed (some body) === "" then quiet s else (s, save_note o.student_id o.class_id ∷ [])

  abbrev pub ask_as_student : (String → String → Request) → Option Identity → Screen V → Sent V
  ask_as_student request none s = quiet s
  ask_as_student request (some identity) s = (s, request s.class_id identity.student_id ∷ [])
