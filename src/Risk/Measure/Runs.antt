-- ===== src/Risk/Measure/Runs.antt =====
-- The two runs that risk.js measures, against descriptions that do not follow its loops.
use Prim.Native.Nat.{max}
use league_table.Prelude.{
  ℕ, suc, ◌+◌, ◌≤◌, ◌≡◌, refl, ◌∙◌, ltb, Bool, false, Option, none, some, List, [], ◌∷◌, arith,
  if◌then◌else◌, get_elem?,
}
use league_table.Number.{Number}
use league_table.Risk.Types.{WeekData}
use league_table.Risk.Measure.{falls, missing_run_from, missing_run}

module _ {W : Type 0} where
  -- How many weeks with no entries stand at the front.
  abbrev pub leading_gap : List (WeekData W) → ℕ
  leading_gap [] = 0
  leading_gap (w ∷ ws) = let more = leading_gap ws in if w.has_entries then 0 else 1 + more

  -- The longest run of such weeks, over all the weeks that it may begin with.
  abbrev pub longest_gap : List (WeekData W) → ℕ
  longest_gap [] = 0
  longest_gap (w ∷ ws) = max (leading_gap (w ∷ ws)) (longest_gap ws)

  leading_gap-le : (ws : List (WeekData W)) → leading_gap ws ≤ longest_gap ws
  leading_gap-le [] = omega arith
  leading_gap-le (w ∷ ws) = omega arith

  missing_run_from_lem :
      (best run : ℕ) (ws : List (WeekData W))
      → run ≤ best
      → missing_run_from best run ws ≡ max best (max (run + leading_gap ws) (longest_gap ws))
  unfolding missing_run_from
  missing_run_from_lem best run [] h = omega arith
  missing_run_from_lem best run (w ∷ ws) h =
      let next = if w.has_entries then 0 else suc run in
      let best' = if ltb best next then next else best in
      missing_run_from_lem best' next ws (ground arith) ∙ ground (arith, leading_gap-le ws)

  -- `missingRun` is the length of the longest run of consecutive weeks with no entries.
  pub missing_run_longest : (weekly : List (WeekData W)) → missing_run weekly ≡ longest_gap weekly
  unfolding missing_run
  missing_run_longest [] = refl
  missing_run_longest (w ∷ ws) = omega (arith, missing_run_from_lem 0 0 (w ∷ ws))

module _ {W : Type 0} ⦃num : Number W⦄ where
  abbrev pub falls_between : Option W → Option W → Bool
  falls_between (some later) (some earlier) = falls later earlier
  falls_between none _ = false
  falls_between (some later) none = false

  -- Whether the score `i` weeks before the latest fell from the one before it.
  abbrev pub fell : List W → ℕ → Bool
  fell scores i = falls_between (get_elem? scores i) (get_elem? scores (suc i))
