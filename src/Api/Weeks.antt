-- ===== src/Api/Weeks.antt =====
-- The weeks of a snapshot in api.js: `latestCompleteWeek`, `evaluationWeek` and `windowWeeks`.
pub mod Window
pub mod Latest
use Prim.Native.Nat.{max}
use league_table.Prelude.{
  ℕ, zero, suc, ◌+◌, ◌-◌, String, Bool, false, Option, none, some, List, [], ◌∷◌, if◌then◌else◌,
  ◌===◌, or_default, or_else, filter, find, find_index, take, drop, last?, first?, Dict, lookup,
  insert, has,
}
use league_table.Number.{Number, whole, le}
use league_table.Model.{Week, Entry}
use league_table.Api.Types.{Result, ok, err, type_error, Snapshot}

-- `Math.max(...counts.values())`
abbrev pub busiest : Dict ℕ → ℕ
busiest [] = 0
busiest ((_, n) ∷ counts) = max n (busiest counts)

abbrev pub week_id_of : Option Week → Option String
week_id_of none = none
week_id_of (some w) = some w.id

abbrev pub week_id_or_throw : Option Week → Result (Option String)
week_id_or_throw none = err type_error
week_id_or_throw (some w) = ok (some w.id)

abbrev pub number_or_throw : Option Week → Result ℕ
number_or_throw none = err type_error
number_or_throw (some w) = ok w.week_number

abbrev pub has_id : Option String → Week → Bool
has_id none w = false
has_id (some id) w = w.id === id

abbrev pub number_of_week : List Week → Result (Option String) → Result ℕ
number_of_week weeks (err e) = err e
number_of_week weeks (ok id) = number_or_throw (or_else (find (has_id id) weeks) (first? weeks))

-- `student.joined_week || 1`
abbrev pub joined_or_first : ℕ → ℕ
joined_or_first zero = 1
joined_or_first (suc n) = suc n

abbrev pub slice_window : List Week → String → ℕ → ℕ → List Week
slice_window weeks mode rolling_n index =
    if mode === "cumulative"
    then take (index + 1) weeks
    else if mode === "rolling"
    then drop (index + 1 - rolling_n) (take (index + 1) weeks)
    else take 1 (drop index weeks)

abbrev pub window_at : List Week → String → ℕ → Option ℕ → List Week
window_at weeks mode rolling_n none = []
window_at weeks mode rolling_n (some index) = slice_window weeks mode rolling_n index

unfoldable pub window_weeks : List Week → String → String → ℕ → List Week
window_weeks weeks week_id mode rolling_n =
    window_at weeks mode rolling_n (find_index (λ w. w.id === week_id) weeks)

module _ (W : Type 0) ⦃num : Number W⦄ where
  open num use {literal, mul}

  -- `COMPLETE_WEEK_SHARE`
  abbrev pub is_complete : ℕ → ℕ → Bool
  is_complete most n = le (mul (whole most) (literal 8 1)) (whole n)

  -- by the counts; with no entry the first week, if there is one
  abbrev pub latest_by : Dict ℕ → List Week → Result (Option String)
  latest_by [] weeks = ok (week_id_of (first? weeks))
  latest_by (c ∷ counts) weeks =
      let all = c ∷ counts in
      let complete =
        filter (λ w. is_complete (busiest all) (or_default (lookup w.id all) 0)) weeks in
      week_id_or_throw (or_else (last? complete) (last? (filter (λ w. has w.id all) weeks)))

module _ {W : Type 0} ⦃num : Number W⦄ where
  -- `counts.set(id, (counts.get(id) || 0) + 1)` over the entries
  abbrev pub count_weeks : Dict ℕ → List (Entry W) → Dict ℕ
  count_weeks counts [] = counts
  count_weeks counts (e ∷ es) =
      count_weeks (insert e.week_id (or_default (lookup e.week_id counts) 0 + 1) counts) es

  unfoldable pub latest_complete_week : Snapshot W → Result (Option String)
  latest_complete_week snap = latest_by W (count_weeks [] snap.entries) snap.weeks

  unfoldable pub evaluation_week : Snapshot W → Result ℕ
  unfolding latest_complete_week
  evaluation_week snap = number_of_week snap.weeks (latest_complete_week snap)
