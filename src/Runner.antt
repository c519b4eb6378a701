-- ===== src/Runner.antt =====
-- scripts/run-frontend-tests.mjs and `runAll` of frontend/services/tests.js. A test is its title and
-- what running it throws; the suites themselves are a parameter, and times are left out.
use Prim.Native.String.{◌++◌}
use league_table.Prelude.{
  ℕ, ◌+◌, ◌≡◌, refl, String, Bool, true, false, Option, none, some, List, [], ◌∷◌, ◌++◌ as append,
  map, if◌then◌else◌, length, arith, count_text, inl, inr, Bool-cases,
}

pub record Test : Type 0 where
  pub title : String
  pub thrown : Option String

-- a suite with its tests, or the message of what reading them throws
pub data Tests : Type 0 where
  listed : List Test → Tests
  broken : String → Tests

pub record Suite : Type 0 where
  pub name : String
  pub tests : Tests

pub record Case : Type 0 where
  pub title : String
  pub pass : Bool
  pub error : String

pub record SuiteResult : Type 0 where
  pub name : String
  pub cases : List Case

abbrev pub run_test : Test → Case
run_test t = elim t.thrown [
  | none ↦ record { title = t.title; pass = true; error = "" }
  | some message ↦ record { title = t.title; pass = false; error = message }
]

abbrev pub run_tests : Tests → List Case
run_tests (listed tests) = map run_test tests
run_tests (broken message) =
    record { title = "(suite harness)"; pass = false; error = message } ∷ []

unfoldable pub run_all : List Suite → List SuiteResult
run_all suites = map (λ s. record { name = s.name; cases = run_tests s.tests }) suites

-- What the script prints and exits with.
pub record Report : Type 0 where
  pub passed : ℕ
  pub failures : List String

abbrev pub failure_line : String → Case → String
failure_line suite_name c = (((suite_name ++ " › ") ++ c.title) ++ ": ") ++ c.error

-- the inner loop
unfoldable pub add_cases : String → List Case → Report → Report
add_cases suite_name [] report = report
add_cases suite_name (c ∷ cs) report = add_cases suite_name cs (
    if c.pass
    then record report { passed = report.passed + 1 }
    else record report { failures = append report.failures (failure_line suite_name c ∷ []) })

-- the outer loop
unfoldable pub add_suites : List SuiteResult → Report → Report
unfolding add_cases
add_suites [] report = report
add_suites (r ∷ rs) report = add_suites rs (add_cases r.name r.cases report)

abbrev pub report_of_run : List SuiteResult → Report
report_of_run results = add_suites results (record { passed = 0; failures = [] })

abbrev pub summary : Report → String
summary report =
    ((count_text report.passed ++ " passed, ") ++ count_text (length report.failures)) ++ " failed"

abbrev pub exit_code : Report → ℕ
exit_code report = elim report.failures [ [] ↦ 0 | f ∷ fs ↦ 1 ]

abbrev cases_of : List SuiteResult → ℕ
cases_of [] = 0
cases_of (r ∷ rs) = length r.cases + cases_of rs

abbrev total : Report → ℕ
total report = report.passed + length report.failures

length-append_one : {A : Type 0} (xs : List A) (x : A) → length (append xs (x ∷ [])) ≡ length xs + 1
length-append_one [] x = refl
length-append_one (y ∷ xs) x = ground (arith, length-append_one xs x)

add_cases-total :
    (suite_name : String) (cs : List Case) (report : Report)
    → total (add_cases suite_name cs report) ≡ total report + length cs
unfolding add_cases
add_cases-total suite_name [] report = omega arith
add_cases-total suite_name (c ∷ cs) report = elim (Bool-cases c.pass) [
  | inl e ↦
      rw e (
        ground
          (arith, add_cases-total suite_name cs (record report { passed = report.passed + 1 })))
  | inr e ↦ rw e (
      ground (
        arith,
        add_cases-total suite_name cs
            (record report { failures = append report.failures (failure_line suite_name c ∷ []) }),
        length-append_one report.failures (failure_line suite_name c),
      ))
]

-- Every case of every suite is counted once, as passed or as failed.
add_suites-total :
    (results : List SuiteResult) (report : Report)
    → total (add_suites results report) ≡ total report + cases_of results
unfolding add_suites
add_suites-total [] report = omega arith
add_suites-total (r ∷ rs) report = ground (
  arith,
  add_suites-total rs (add_cases r.name r.cases report),
  add_cases-total r.name r.cases report,
)
