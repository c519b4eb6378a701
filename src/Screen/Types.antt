-- ===== src/Screen/Types.antt =====
-- The state of the component of League Table.dc.html. What the server answers and the component
-- only shows is a document of type `V`; drafts of forms, the theme and messages of the sheet are
-- left out.
use league_table.Prelude.{
  ℕ, String, Bool, true, false, Option, none, List, [], ◌∷◌, get_elem?, length, or_default,
}
use league_table.Model.{Week}

pub data Role : Type 0 where
  instructor student admin : Role

-- The tabs of `buildTabs`.
pub data Tab : Type 0 where
  league_tab me_tab standing_tab commitments_tab risk_tab approvals_tab : Tab

pub record Identity : Type 0 where
  pub student_id : String
  pub class_id : String

-- A class that the login offers, with the ids of its students.
pub record LoginClass : Type 0 where
  pub id : String
  pub students : List String

-- What the component reads of an answer of `getBootstrap`. A class has at least one week.
pub record Boot : Type 0 where
  pub first_week : Week
  pub later_weeks : List Week
  pub latest_complete_week_id : Option String
  pub criteria_keys : List String

-- `EMPTY_VIEWS`: each tab fills one of these.
pub record Views (V : Type 0) : Type 0 where
  pub rows : List V
  pub me : Option (V × V)
  pub digest : Option V
  pub standing : Option V
  pub commitments : Option V
  pub pending_baselines : Option V

-- An open risk record, with the student and class that it names.
pub record Opened (V : Type 0) : Type 0 where
  pub student_id : String
  pub class_id : String
  pub document : V

pub record Screen (V : Type 0) : Type 0 where
  pub logged_in : Bool
  pub role : Option Role
  pub identity : Option Identity
  pub login_options : Option (List LoginClass)
  pub login_role : Role
  pub login_class_id : String
  pub login_student_id : Option String
  pub login_error : Option String
  pub loading : Bool
  pub error_msg : Option String
  pub tab : Tab
  pub class_id : String
  pub boot : Option Boot
  pub views : Views V
  pub week_idx : ℕ
  pub window_mode : String
  pub criteria_keys : List String
  pub name_mode : String
  pub raw_on : Bool
  pub present : Bool
  pub show_all : Bool
  pub drawer : Option V
  pub weights_open : Bool
  pub explainer : Option V
  -- the field `record` of the component
  pub opened : Option (Opened V)
  pub weekly_updates : Option V
  pub commit_error : Option String
  pub approvals_error : Option String
  pub thresholds_open : Bool

-- `query()`, without the weights; `rollingN` is a constant of the page.
pub record Query : Type 0 where
  pub class_id : String
  pub week_id : String
  pub window_mode : String
  pub criteria_keys : List String
  pub name_mode : String

-- A request in flight, with what it was sent with and what its handler keeps.
pub data Request : Type 0 where
  get_bootstrap : String → Request
  get_ranking : Query → Request
  -- the explanation and the commitments together
  get_me : Query → String → Request
  get_standing : String → String → Request
  get_commitments : String → String → Request
  -- the pending baselines and the weekly updates together
  get_approvals : String → Request
  get_digest : ℕ → Request
  get_drawer : Query → String → Request
  get_record : String → String → Request
  get_explainer : String → Request
  get_risk_settings : String → Request
  -- `onSaveNote`, which reads the record again: the student and the class
  save_note : String → String → Request
  save_baseline save_week : String → String → Request
  decide_baseline reverse_update : String → Request
  save_thresholds save_weights refresh : String → Request

abbrev pub no_views : {V : Type 0} → Views V
no_views = record {
  rows = [];
  me = none;
  digest = none;
  standing = none;
  commitments = none;
  pending_baselines = none;
}

abbrev pub weeks_of : Boot → List Week
weeks_of boot = boot.first_week ∷ boot.later_weeks

-- `boot.weeks.length - 1`
abbrev pub last_index : Boot → ℕ
last_index boot = length boot.later_weeks

-- `boot.weeks[i]`
abbrev pub week_at : Boot → ℕ → Week
week_at boot i = or_default (get_elem? (weeks_of boot) i) boot.first_week

module _ {V : Type 0} where
  -- the class-level state before the first answer of the server
  abbrev pub new_screen : Screen V
  new_screen = record {
    logged_in = false;
    role = none;
    identity = none;
    login_options = none;
    login_role = instructor;
    login_class_id = "c1";
    login_student_id = none;
    login_error = none;
    loading = true;
    error_msg = none;
    tab = league_tab;
    class_id = "c1";
    boot = none;
    views = no_views;
    week_idx = 0;
    window_mode = "rolling";
    criteria_keys = [];
    name_mode = "full";
    raw_on = false;
    present = false;
    show_all = false;
    drawer = none;
    weights_open = false;
    explainer = none;
    opened = none;
    weekly_updates = none;
    commit_error = none;
    approvals_error = none;
    thresholds_open = false;
  }
