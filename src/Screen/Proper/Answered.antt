-- ===== src/Screen/Proper/Answered.antt =====
-- Every answer keeps the state of the page proper.
use league_table.Prelude.{
  ℕ, suc, ◌+◌, ◌≤◌, ◌≡◌, refl, String, Bool, true, false, Option, none, some, List, [], ◌∷◌, arith,
  inl, inr, Bool-cases, if◌then◌else◌, find_index, find_index_from, or_default, length, ◌===◌,
}
use mathlib.Core.Option.{some-injective}
use league_table.Model.{Week}
use league_table.Screen.Types.{
  Boot, Screen, Request, get_bootstrap, get_ranking, get_me, get_standing, get_commitments,
  get_approvals, get_digest, get_drawer, get_record, get_explainer, get_risk_settings, save_note,
  save_baseline, save_week, decide_baseline, reverse_update, save_thresholds, save_weights, refresh,
  weeks_of, last_index, no_views,
}
use league_table.Screen.Handlers.{quiet}
use league_table.Screen.Answers.{Answer, replied, failed, Reply, landing_week, answered}
use league_table.Screen.Proper.{filled, IsProper}
use league_table.Screen.Proper.Acts.{KeptBy, keeps, hidden_is_discreet}

find_index_from_bound :
    {A : Type 0} (p : A → Bool) (xs : List A) (from : ℕ) {i : ℕ}
    → find_index_from from p xs ≡ some i
    → suc i ≤ from + length xs
find_index_from_bound p [] from = λ h. cc
find_index_from_bound p (x ∷ xs) from = elim (Bool-cases (p x)) [
  | inl t ↦ rw t (λ h. let e = some-injective _ _ h in omega arith)
  | inr f ↦ rw f (λ h. let rest = find_index_from_bound p xs (suc from) h in omega arith)
]

landing_in :
    (boot : Boot) (at : Option ℕ)
    → ((i : ℕ) → at ≡ some i → i ≤ last_index boot)
    → or_default at 0 ≤ last_index boot
landing_in boot none h = omega arith
landing_in boot (some i) h = h i refl

landing_of :
    (boot : Boot) (latest : Option String)
    → boot.latest_complete_week_id ≡ latest
    → landing_week boot ≤ last_index boot
landing_of boot none e = rw e (omega arith)
landing_of boot (some id) e = rw e (
    landing_in boot (find_index (λ w. w.id === id) (weeks_of boot)) (λ i h.
      let bound = find_index_from_bound (λ (w : Week). w.id === id) (weeks_of boot) 0 h in
      omega arith))

module _ {V : Type 0} where
  shown_if :
      (b : Bool) (s t : Screen V)
      → (b ≡ true → IsProper s)
      → (b ≡ false → IsProper t)
      → KeptBy (quiet (if b then s else t))
  shown_if true s t h k = keeps _ (h refl)
  shown_if false s t h k = keeps _ (k refl)

  rows-single : (rows : List V) → filled (record no_views { rows = rows }) ≤ 1
  rows-single [] = omega arith
  rows-single (x ∷ xs) = omega arith

  pub answered-Proper :
      (r : Request) (a : Answer (Reply V r)) (s : Screen V) → IsProper s → KeptBy (answered r a s)
  unfolding answered
  answered-Proper (get_bootstrap c) (failed message) s h = keeps _ h
  answered-Proper (get_bootstrap c) (replied boot) s (one, fits, d, own) =
      keeps _ (one, landing_of boot boot.latest_complete_week_id refl, d, own)
  answered-Proper (get_ranking q) (failed message) s h = keeps _ h
  answered-Proper (get_ranking q) (replied rows) s (one, fits, d, own) =
      keeps _ (rows-single rows, fits, d, own)
  answered-Proper (get_me q id) (failed message) s (one, fits, d, own) =
      keeps _ (omega arith, fits, d, own)
  answered-Proper (get_me q id) (replied me) s (one, fits, d, own) =
      keeps _ (omega arith, fits, d, own)
  answered-Proper (get_standing c id) (failed message) s h = keeps _ h
  answered-Proper (get_standing c id) (replied doc) s (one, fits, d, own) =
      keeps _ (omega arith, fits, d, own)
  answered-Proper (get_commitments c id) (failed message) s (one, fits, d, own) =
      keeps _ (omega arith, fits, d, own)
  answered-Proper (get_commitments c id) (replied doc) s (one, fits, d, own) =
      keeps _ (omega arith, fits, d, own)
  answered-Proper (get_approvals c) (failed message) s (one, fits, d, own) =
      keeps _ (omega arith, fits, d, own)
  answered-Proper (get_approvals c) (replied (pending, updates)) s (one, fits, d, own) =
      keeps _ (omega arith, fits, d, own)
  answered-Proper (get_digest week) (failed message) s h = keeps _ h
  answered-Proper (get_digest week) (replied doc) s (one, fits, d, own) =
      keeps _ (omega arith, fits, d, own)
  answered-Proper (get_drawer q id) (failed message) s h = keeps _ h
  answered-Proper (get_drawer q id) (replied doc) s (one, fits, d, own) =
      shown_if s.present _ _ (λ shown. (one, fits, d, own))
        (λ hidden. (one, fits, hidden_is_discreet (record s { drawer = some doc }) hidden, own))
  answered-Proper (get_record c id) (failed message) s h = keeps _ h
  answered-Proper (get_record c id) (replied doc) s h = keeps _ h
  answered-Proper (get_explainer c) (failed message) s h = keeps _ h
  answered-Proper (get_explainer c) (replied doc) s (one, fits, d, own) =
      shown_if s.present _ _ (λ shown. (one, fits, d, own))
        (λ hidden. (one, fits, hidden_is_discreet (record s { explainer = some doc }) hidden, own))
  answered-Proper (get_risk_settings c) (failed message) s h = keeps _ h
  answered-Proper (get_risk_settings c) (replied doc) s h = keeps _ h
  answered-Proper (save_note id c) (failed message) s h = keeps _ h
  answered-Proper (save_note id c) (replied fresh) s h = keeps _ h
  answered-Proper (save_baseline c id) (failed message) s h = keeps _ h
  answered-Proper (save_baseline c id) (replied doc) s h = keeps _ h
  answered-Proper (save_week c id) (failed message) s h = keeps _ h
  answered-Proper (save_week c id) (replied doc) s h = keeps _ h
  answered-Proper (decide_baseline id) (failed message) s h = keeps _ h
  answered-Proper (decide_baseline id) (replied doc) s h = keeps _ h
  answered-Proper (reverse_update id) (failed message) s h = keeps _ h
  answered-Proper (reverse_update id) (replied doc) s h = keeps _ h
  answered-Proper (save_thresholds c) (failed message) s h = keeps _ h
  answered-Proper (save_thresholds c) (replied doc) s h = keeps _ h
  answered-Proper (save_weights c) (failed message) s h = keeps _ h
  answered-Proper (save_weights c) (replied doc) s (one, fits, d, own) =
      keeps _ (one, fits, ground arith, own)
  answered-Proper (refresh c) (failed message) s h = keeps _ h
  answered-Proper (refresh c) (replied doc) s h = keeps _ h
