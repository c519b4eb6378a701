-- ===== src/Source/Fixtures.antt =====
-- The fixtures of mockSource.js: classes, names, criteria, weeks and students. Dates, units, external
-- ids and avatars, which no code reads, are left out.
use Prim.Native.String.{◌++◌}
use league_table.Prelude.{
  ℕ, suc, zero, ◌+◌, String, Option, none, some, List, [], ◌∷◌, if◌then◌else◌, ◌===◌, ◌==◌, Dict,
  lookup, count_text,
}
use league_table.Number.{Number, whole}
use league_table.Model.{Class, Student, Week}
use league_table.Api.Types.{Account}
use league_table.Store.Seed.{student_id_at}

-- `CLASSES`
abbrev pub classes : List Class
classes =
    record { id = "c1"; instructor_id = "i1"; name = "PHYS 204 · Mechanics"; term_id = "t1" }
    ∷ record { id = "c2"; instructor_id = "i1"; name = "DATA 118 · Intro to Data"; term_id = "t1" }
    ∷ []

abbrev account : String → String → Option String → List String → Account
account id role student_id class_ids = record {
  id = id;
  role = role;
  student_id = student_id;
  class_ids = class_ids;
}

-- what `listAccounts` answers
abbrev pub accounts : List Account
accounts =
    account "a1" "instructor" none ("c1" ∷ "c2" ∷ [])
    ∷ account "a2" "student" (some "s01") ("c1" ∷ [])
    ∷ account "a3" "student" (some "s18") ("c1" ∷ [])
    ∷ account "a4" "student" (some "t03") ("c2" ∷ [])
    ∷ []

-- `NAMES`
abbrev pub names_of : String → List String
names_of class_id =
    if class_id === "c1"
    then "Amara Okonkwo" ∷ "Ben Halvorsen" ∷ "Cleo Marchetti" ∷ "Dara Whitfield" ∷ "Elif Demir"
      ∷ "Farid Nasser" ∷ "Greta Lindqvist" ∷ "Hugo Ferreira" ∷ "Imani Blake" ∷ "Jonas Reuter"
      ∷ "Kiara Mensah" ∷ "Liam Donoghue" ∷ "Mira Chandra" ∷ "Nils Aaltonen" ∷ "Odette Laurent"
      ∷ "Pablo Guerrero" ∷ "Quinn Alderton" ∷ "Rosa Ibarra" ∷ "Samir Haddad" ∷ "Tessa Vermeulen"
      ∷ "Ugo Bianchi" ∷ "Vera Novak" ∷ "Wes Carmichael" ∷ "Isla Bennett" ∷ []
    else "Adaeze Nwosu" ∷ "Bruno Kessler" ∷ "Camila Duarte" ∷ "Dmitri Volkov" ∷ "Esme Fairbairn"
      ∷ "Felix Adeyemi" ∷ "Gaia Russo" ∷ "Henrik Solberg" ∷ "Ines Cabrera" ∷ "Joon-ho Park"
      ∷ "Kavya Raman" ∷ "Lucien Berger" ∷ "Maeve Dolan" ∷ "Noor Rashid" ∷ "Otto Lindgren"
      ∷ "Priya Venkat" ∷ "Rafael Costa" ∷ "Saoirse Kelleher" ∷ "Tomas Oravec" ∷ "Ula Sienkiewicz"
      ∷ "Viktor Petrov" ∷ "Wren Abbott" ∷ "Yara El-Amin" ∷ "Zoltan Varga" ∷ []

-- `NICKNAMES`
abbrev pub nicknames : Dict String
nicknames =
    ("Amara Okonkwo", "Ammo")
    ∷ ("Ben Halvorsen", "Benno")
    ∷ ("Cleo Marchetti", "Clee")
    ∷ ("Wes Carmichael", "Wez")
    ∷ ("Isla Bennett", "Izzy")
    ∷ ("Liam Donoghue", "Donny")
    ∷ ("Adaeze Nwosu", "Ada")
    ∷ ("Joon-ho Park", "JP")
    ∷ ("Saoirse Kelleher", "Sersh")
    ∷ ("Zoltan Varga", "Zolt")
    ∷ ("Wren Abbott", "Wrennie")
    ∷ []

-- A criterion of the fixtures, scored in the weeks that it names, or in every week.
pub record ToyCriterion (W : Type 0) : Type 0 where
  pub key : String
  pub label : String
  pub default_weight : W
  pub possible : W
  pub weeks : Option (List ℕ)

module _ {W : Type 0} ⦃num : Number W⦄ where
  abbrev toy_criterion : String → String → ℕ → ℕ → Option (List ℕ) → ToyCriterion W
  toy_criterion key label weight possible weeks = record {
    key = key;
    label = label;
    default_weight = whole weight;
    possible = whole possible;
    weeks = weeks;
  }

  -- `CRITERIA[classId] || []`
  abbrev pub criteria_of : String → List (ToyCriterion W)
  criteria_of class_id =
      if class_id === "c1"
      then toy_criterion "homework" "Homework" 25 5 none
        ∷ toy_criterion "attendance" "Attendance" 20 3 none
        ∷ toy_criterion "participation" "Participation" 20 15 none
        ∷ toy_criterion "project" "Project scores" 25 100 (some (3 ∷ 7 ∷ 11 ∷ 15 ∷ []))
        ∷ toy_criterion "quizzes" "Quizzes" 10 20 none
        ∷ []
      else if class_id === "c2"
      then toy_criterion "homework" "Problem sets" 30 4 none
        ∷ toy_criterion "attendance" "Attendance" 15 2 none
        ∷ toy_criterion "participation" "Participation" 15 10 none
        ∷ toy_criterion "project" "Project scores" 25 100 (some (5 ∷ 10 ∷ 15 ∷ []))
        ∷ toy_criterion "reading" "Reading log" 15 3 none
        ∷ []
      else []

-- `WEEK_COUNT`
abbrev pub week_count : ℕ
week_count = 16

abbrev weeks_after : ℕ → ℕ → List Week
unfolding count_text
weeks_after i zero = []
weeks_after i (suc n) =
    record { id = "w" ++ count_text (i + 1); term_id = "t1"; week_number = i + 1 }
    ∷ weeks_after (i + 1) n

unfoldable pub build_weeks : List Week
unfolding weeks_after
build_weeks = weeks_after 0 week_count

abbrev students_from : String → ℕ → List String → List Student
unfolding student_id_at
students_from class_id i [] = []
students_from class_id i (name ∷ names) =
    record {
      id = student_id_at class_id i;
      class_id = class_id;
      display_name = name;
      nickname = lookup name nicknames;
      joined_week = if i == 23 then 4 else 1;
    }
    ∷ students_from class_id (i + 1) names

unfoldable pub build_students : String → List Student
unfolding students_from
build_students class_id = students_from class_id 0 (names_of class_id)
