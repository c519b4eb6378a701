-- ===== src/Model.antt =====
-- The normalised types that the services pass between them: the rows of a data source and of the
-- app store (frontend/services/mockSource.js has their literals), and what scoring derives from
-- them (the object literals of scoring.js and api.js). `W` is the type of numbers. An identifier,
-- key, date or status is a text; a field that may be `null` or absent is an Option.
use league_table.Prelude.{ℕ, String, Bool, Option, List, Dict}

pub record Class : Type 0 where
  pub id : String
  pub instructor_id : String
  pub name : String
  pub term_id : String

pub record Student : Type 0 where
  pub id : String
  pub class_id : String
  pub display_name : String
  pub nickname : Option String
  pub joined_week : ℕ

pub record Criterion (W : Type 0) : Type 0 where
  pub key : String
  pub label : String
  pub default_weight : W

pub record Week : Type 0 where
  pub id : String
  pub term_id : String
  pub week_number : ℕ

pub record Entry (W : Type 0) : Type 0 where
  pub id : String
  pub student_id : String
  pub criterion_key : String
  pub week_id : String
  pub earned : Option W
  pub possible : Option W

pub record Hours (W : Type 0) : Type 0 where
  pub work : W
  pub childcare : W
  pub eldercare : W

pub record Baseline (W : Type 0) : Type 0 where
  pub id : String
  pub student_id : String
  pub work_hours : W
  pub childcare_hours : W
  pub eldercare_hours : W
  pub status : String
  pub effective_from_week : Option ℕ

pub record WeeklyUpdate (W : Type 0) : Type 0 where
  pub id : String
  pub student_id : String
  pub week_number : ℕ
  pub work_hours : W
  pub childcare_hours : W
  pub eldercare_hours : W
  pub reversed_at : Option String

pub record Settings (W : Type 0) : Type 0 where
  pub type_weights : Dict W
  pub rate : W
  pub cap : W
  pub tie_breakers : List String
  pub weights : Option (Dict W)

pub record Note : Type 0 where
  pub id : String
  pub instructor_id : String
  pub class_id : String
  pub student_id : String
  pub body : String
  pub created_at : String

-- The totals of one criterion in a window.
pub record Slot (W : Type 0) : Type 0 where
  pub earned : W
  pub possible : W

-- One criterion's share of a score.
pub record Part (W : Type 0) : Type 0 where
  pub key : String
  pub label : String
  pub earned : Option W
  pub possible : Option W
  pub normalised : Option W
  pub weight : W
  pub effective_weight : W
  pub points : W
  pub missing : Bool

pub record StudentScore (W : Type 0) : Type 0 where
  pub score : Option W
  pub parts : List (Part W)
  pub missing_keys : List String

-- The hours that apply in a week, and where they come from.
pub record Resolved (W : Type 0) : Type 0 where
  pub hours : Hours W
  pub source : String

pub record Adjusted (W : Type 0) : Type 0 where
  pub adjusted : Option W
  pub capped : Bool

-- One scored week of a student.
pub record WeekRow (W : Type 0) : Type 0 where
  pub week_id : String
  pub week_number : ℕ
  pub raw : W
  pub hours : Hours W
  pub hours_source : String
  pub weighted_hours : W
  pub factor : W
  pub adjusted : Option W
  pub capped : Bool
  pub parts : List (Part W)
  pub missing_keys : List String

-- A student's row of a table, before it is ranked.
pub record Row (W : Type 0) : Type 0 where
  pub student_id : String
  pub display_name : String
  pub full_name : String
  pub score : Option W
  pub raw : Option W
  pub factor : Option W
  pub weighted_hours : Option W
  pub capped : Bool
  pub hours_source : String
  pub weeks : List (WeekRow W)
  pub parts : List (Part W)
  pub missing_keys : List String
  pub normalised_by_key : Dict W

-- What `rankRows` adds to a row: the rounded scores, and then the rank.
pub record Keyed (W : Type 0) : Type 0 where
  pub row : Row W
  pub open row use *
  pub score_rounded : W
  pub raw_rounded : W

pub record Ranked (W : Type 0) : Type 0 where
  pub keyed : Keyed W
  pub open keyed use *
  pub rank : ℕ
  pub tied : Bool
