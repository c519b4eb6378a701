-- ===== src/Screen/Proper.antt =====
-- What holds of the state of League Table.dc.html throughout: one tab's data at a time, a week of the
-- class, and nothing beside the table while presenting.
pub mod Acts
pub mod Handled
pub mod Answered
use league_table.Prelude.{
  ℕ, ◌+◌, ◌≤◌, ◌≡◌, refl, String, Bool, true, false, not, ◌&&◌, ◌||◌, Option, none, some, List, [],
  ◌∷◌, arith, is_some, if◌then◌else◌, Bool-cases, ◌===◌, inl, inr, ltb,
}
use league_table.Screen.Types.{
  Tab, league_tab, me_tab, standing_tab, commitments_tab, risk_tab, approvals_tab, Identity, Boot,
  Views, Screen, last_index, no_views,
}
use league_table.Screen.Handlers.{is_league, is_student, clamp_week}

abbrev one_if : Bool → ℕ
one_if b = if b then 1 else 0

abbrev pub has_any : {V : Type 0} → List V → Bool
has_any [] = false
has_any (x ∷ xs) = true

-- how many of the views are filled
abbrev pub filled : {V : Type 0} → Views V → ℕ
filled v =
    one_if (has_any v.rows)
    + one_if (is_some v.me)
    + one_if (is_some v.digest)
    + one_if (is_some v.standing)
    + one_if (is_some v.commitments)
    + one_if (is_some v.pending_baselines)

-- the index is one of the class's weeks
abbrev pub Fits : Option Boot → ℕ → Type 0
Fits none i = Unit
Fits (some boot) i = i ≤ last_index boot

-- whoever presents is no student, and is on the table with nothing over it
abbrev pub is_discreet : {V : Type 0} → Screen V → Bool
is_discreet s =
    not s.present
    || (s.logged_in
        && not (is_student s.role)
        && is_league s.tab
        && not (is_some s.drawer)
        && not (is_some s.explainer)
        && not s.weights_open)

abbrev pub is_student_tab : Tab → Bool
is_student_tab league_tab = false
is_student_tab me_tab = true
is_student_tab standing_tab = true
is_student_tab commitments_tab = true
is_student_tab risk_tab = false
is_student_tab approvals_tab = false

abbrev pub is_of_class : Option Identity → String → Bool
is_of_class none class_id = false
is_of_class (some i) class_id = i.class_id === class_id

-- a student has an identity, is in its class, and is on a student's tab
abbrev pub is_own : {V : Type 0} → Screen V → Bool
is_own s = not (is_student s.role) || (is_student_tab s.tab && is_of_class s.identity s.class_id)

abbrev pub IsProper : {V : Type 0} → Screen V → Type 0
IsProper s =
    (filled s.views ≤ 1) × Fits s.boot s.week_idx × (is_discreet s ≡ true) × (is_own s ≡ true)

pub clamp_week-Fits : (boot : Boot) (i : ℕ) → clamp_week boot i ≤ last_index boot
clamp_week-Fits boot i = elim (Bool-cases (ltb (last_index boot) i)) [
  | inl e ↦ rw e (omega arith)
  | inr e ↦ rw e (ground arith)
]

module _ {V : Type 0} where
  pub without_me-single : (v : Views V) → filled v ≤ 1 → filled (record v { me = none }) ≤ 1
  without_me-single v h = omega arith
