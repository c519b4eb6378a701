-- ===== src/Scoring/Ranking.antt =====
-- Ranking in scoring.js: `rankRows` with its comparator and its two passes, `gapToNext` and
-- `gapToBelow`. A text's `localeCompare` depends on the host's locale and is a parameter.
pub mod Order
pub mod Places
pub mod Ties
pub mod Rearranged
pub mod Gaps
pub mod RawOrder
pub mod Fair
pub mod Unordered
mod Examples
use league_table.Prelude.{
  ℕ, suc, ◌+◌, String, Bool, true, false, not, Option, none, some, List, [], ◌∷◌, map, reverse, ltb,
  ◌==◌, if◌then◌else◌, or_default, get_elem?, find, take, drop, lookup, sort,
}
use league_table.Number.{Number, zero_number, minus_one, round1, le, math_max, to_number}
use league_table.Model.{Row, Keyed, Ranked}

module _ {W : Type 0} ⦃num : Number W⦄ where
  open num use {sub, lt, eq}

  -- `r.score == null ? -1 : round1(r.score)`
  abbrev pub rounded_or : Option W → W
  rounded_or none = minus_one
  rounded_or (some x) = round1 x

  abbrev pub key_row : Row W → Keyed W
  key_row r = record { row = r; score_rounded = rounded_or r.score; raw_rounded = rounded_or r.raw }

  abbrev pub tie_value : Keyed W → String → W
  tie_value a key = or_default (lookup key a.normalised_by_key) minus_one

  module _ (locale_compare : String → String → W) where
    -- the tie-breaker loop, and the names behind it
    unfoldable pub compare_ties : List String → Keyed W → Keyed W → W
    compare_ties [] a b = locale_compare a.display_name b.display_name
    compare_ties (key ∷ tie_breakers) a b =
        let rest = compare_ties tie_breakers a b in
        if eq (tie_value b key) (tie_value a key)
        then rest
        else sub (tie_value b key) (tie_value a key)

    unfoldable pub compare_rows : List String → Keyed W → Keyed W → W
    unfolding compare_ties
    compare_rows tie_breakers a b =
        if not (eq b.score_rounded a.score_rounded)
        then sub b.score_rounded a.score_rounded
        else if not (eq b.raw_rounded a.raw_rounded)
        then sub b.raw_rounded a.raw_rounded
        else compare_ties tie_breakers a b

    -- `keyed.sort(…)` moves `a` behind `b`
    abbrev pub goes_after : List String → Keyed W → Keyed W → Bool
    goes_after tie_breakers a b = lt zero_number (compare_rows tie_breakers a b)

    unfoldable pub sort_rows : List String → List (Row W) → List (Keyed W)
    unfolding compare_rows
    sort_rows tie_breakers rows = sort (goes_after tie_breakers) (map key_row rows)

  -- `lastScore != null && row.scoreRounded === lastScore`
  abbrev pub same_as_last : Option W → W → Bool
  same_as_last none s = false
  same_as_last (some last) s = eq s last

  -- the first pass, `keyed.forEach`: `i` is the index, then `lastScore` and `lastRank`
  unfoldable pub assign_ranks : ℕ → Option W → ℕ → List (Keyed W) → List (Ranked W)
  assign_ranks i last_score last_rank [] = []
  assign_ranks i last_score last_rank (r ∷ rs) =
      let same = same_as_last last_score r.score_rounded in
      let rank = if same then last_rank else i + 1 in
      record { keyed = r; rank = rank; tied = same }
      ∷ assign_ranks (suc i) (if same then last_score else some r.score_rounded) rank rs

  -- the second pass: a row with the rank of the row behind it is tied too
  unfoldable pub mark_tied : List (Ranked W) → List (Ranked W)
  mark_tied [] = []
  mark_tied (r ∷ []) = r ∷ []
  mark_tied (r ∷ next ∷ rs) =
      record r { tied = if next.rank == r.rank then true else r.tied } ∷ mark_tied (next ∷ rs)

  unfoldable pub rank_rows : (String → String → W) → List (Row W) → List String → List (Ranked W)
  unfolding sort_rows assign_ranks mark_tied
  rank_rows locale_compare rows tie_breakers =
      mark_tied (assign_ranks 0 none 0 (sort_rows locale_compare tie_breakers rows))

  -- `rankedScore`: the `null` of a missing score counts as 0 in `round1`
  unfoldable pub ranked_score : Ranked W → W
  ranked_score r =
      if le zero_number r.score_rounded then r.score_rounded else round1 (to_number r.score)

  -- `scoreGap`; neither score is ever `null` there
  unfoldable pub score_gap : Ranked W → Ranked W → W
  unfolding ranked_score
  score_gap higher lower =
      math_max zero_number (round1 (sub (ranked_score higher) (ranked_score lower)))

  abbrev pub gap_to : Ranked W → Option (Ranked W) → Option W
  gap_to r none = none
  gap_to r (some above) = some (score_gap above r)

  abbrev pub gap_from : Ranked W → Option (Ranked W) → Option W
  gap_from r none = none
  gap_from r (some below) = some (score_gap r below)

  -- `rows[index]`, where its loop finds the row above: from the next row up to the first
  abbrev pub next_above : List (Ranked W) → ℕ → Ranked W → Option (Ranked W)
  next_above rows index r = find (λ above. ltb above.rank r.rank) (reverse (take index rows))

  abbrev pub next_below : List (Ranked W) → ℕ → Ranked W → Option (Ranked W)
  next_below rows index r = find (λ below. ltb r.rank below.rank) (drop (suc index) rows)

  -- no caller passes an index off the table
  unfoldable pub gap_to_next : List (Ranked W) → ℕ → Option W
  unfolding score_gap
  gap_to_next rows index = elim (get_elem? rows index) [
    | none ↦ none
    | some r ↦ gap_to r (next_above rows index r)
  ]

  unfoldable pub gap_to_below : List (Ranked W) → ℕ → Option W
  unfolding score_gap
  gap_to_below rows index = elim (get_elem? rows index) [
    | none ↦ none
    | some r ↦ gap_from r (next_below rows index r)
  ]
