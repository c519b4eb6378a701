-- ===== src/Screen/Reached.antt =====
-- What holds of the page of League Table.dc.html however the user acts and the answers arrive.
use league_table.Prelude.{
  ℕ, zero, suc, ◌≤◌, ◌≡◌, refl, true, false, Option, none, some, List, [], ◌∷◌, arith, length,
  get_elem?, is_some, Reach, Reach-keeps,
}
use mathlib.Core.Path.{subst}
use mathlib.Core.Option.{some-injective}
use league_table.Screen.Types.{risk_tab, approvals_tab, LoginClass, Boot, weeks_of}
use league_table.Screen.Handlers.{is_league, is_student}
use league_table.Screen.Events.{handle, has_tab}
use league_table.Screen.Answers.{Answer, replied, failed, answered, mounted}
use league_table.Screen.Steps.{Page, Step, act, answer, opened_page}
use league_table.Screen.Proper.{Fits, filled, IsProper}
use league_table.Screen.Proper.Handled.{handle-Proper}
use league_table.Screen.Proper.Answered.{answered-Proper}

get_elem?-bound :
    {A : Type 0} (xs : List A) (i : ℕ) → suc i ≤ length xs → is_some (get_elem? xs i) ≡ true
get_elem?-bound [] i h = absurd (omega arith)
get_elem?-bound (x ∷ xs) zero h = refl
get_elem?-bound (x ∷ xs) (suc i) h = get_elem?-bound xs i (omega arith)

module _ {V : Type 0} where
  Step-Proper : (p q : Page V) → Step p q → IsProper p.screen → IsProper q.screen
  unfolding handle answered
  Step-Proper p _ (act e o) h = (handle-Proper e p.screen o h).kept
  Step-Proper p _ (answer r a rest t) h = (answered-Proper r a p.screen h).kept

  opened_page-Proper :
      (start : Page V) (options : Answer (List LoginClass))
      → start ≡ opened_page options
      → IsProper start.screen
  unfolding mounted
  opened_page-Proper start (replied classes) e = rw e (omega arith, tt, refl, refl)
  opened_page-Proper start (failed message) e = rw e (omega arith, tt, refl, refl)

  pub Reach-Proper :
      (options : Answer (List LoginClass)) (p : Page V)
      → Reach Step (opened_page options) p
      → IsProper p.screen
  Reach-Proper options p r =
      Reach-keeps (λ (q : Page V). IsProper q.screen) Step-Proper r
        (opened_page-Proper _ options refl)

  -- At any moment at most one of the views has data: the table, the breakdown, the digest, the
  -- standing, the commitments or the approvals, whatever the user does and in whatever order the
  -- server answers.
  pub one_view :
      (options : Answer (List LoginClass)) (p : Page V)
      → Reach Step (opened_page options) p
      → filled p.screen.views ≤ 1
  one_view options p r = (Reach-Proper options p r).0

  -- The chosen week is always a week of the class that is loaded, so that `query` never reads past
  -- the end of the weeks.
  pub week_in_class :
      (options : Answer (List LoginClass)) (p : Page V) (boot : Boot)
      → Reach Step (opened_page options) p
      → p.screen.boot ≡ some boot
      → is_some (get_elem? (weeks_of boot) p.screen.week_idx) ≡ true
  week_in_class options p boot r e =
      let fits : Fits p.screen.boot p.screen.week_idx = (Reach-Proper options p r).1 in
      get_elem?-bound (weeks_of boot) p.screen.week_idx
        (within p.screen.boot p.screen.week_idx e fits)
    where
      within : (b : Option Boot) (i : ℕ) → b ≡ some boot → Fits b i → suc i ≤ length (weeks_of boot)
      within none i e fits = cc
      within (some b) i e fits =
          subst (λ b. suc i ≤ length (weeks_of b)) (some-injective _ _ e) (omega arith)

  -- While the page presents, somebody who is not a student is logged in, the tab is the league
  -- table, no breakdown, no formula and no panel of weights is open, and neither the digest nor the
  -- approvals can be picked, whatever the user does and in whatever order the server answers.
  pub presenting_is_discreet :
      (options : Answer (List LoginClass)) (p : Page V)
      → Reach Step (opened_page options) p
      → p.screen.present ≡ true
      → (p.screen.logged_in ≡ true)
        × (is_student p.screen.role ≡ false)
        × (is_league p.screen.tab ≡ true)
        × (p.screen.drawer ≡ none)
        × (p.screen.explainer ≡ none)
        × (p.screen.weights_open ≡ false)
        × (has_tab p.screen risk_tab ≡ false)
        × (has_tab p.screen approvals_tab ≡ false)
  presenting_is_discreet options p r shown = let d = (Reach-Proper options p r).2 in ground arith
