-- ===== src/Api/Digest/Rows.antt =====
-- Which students the rows of a digest group hold, and in which order.
use mathlib.Core.List.{Perm}
use league_table.Prelude.{
  ℕ, ◌≤◌, String, ◌≡◌, Bool, true, not, List, [], ◌∷◌, map, arith, inl, inr, Bool-cases, filter,
  All, sort, sort_insert, sort-perm,
}
use league_table.Number.{Number}
use league_table.Model.{Note}
use league_table.Api.Evaluate.{RiskRow}
use league_table.Api.Digest.{
  DigestRow, level_index, is_quiet, count_notes, by_student, less_urgent, digest_row, digest_rows,
}

-- Each row comes before those of its level or a lower one.
abbrev pub WorstFirst : List DigestRow → Type 0
WorstFirst [] = Unit
WorstFirst (r ∷ rs) = All (λ x. level_index x.level ≤ level_index r.level) rs × WorstFirst rs

All-filter : {A : Type 0} (p : A → Bool) (xs : List A) → All (λ x. p x ≡ true) (filter p xs)
All-filter p [] = tt
All-filter p (x ∷ xs) = elim (Bool-cases (p x)) [
  | inl e ↦ rw e (e, All-filter p xs)
  | inr e ↦ rw e (All-filter p xs)
]

module _ {W : Type 0} ⦃num : Number W⦄ (locale_compare : String → String → W) where
  abbrev before : DigestRow → DigestRow → Bool
  before = less_urgent locale_compare

  sort_insert-below :
      (n : ℕ) (x : DigestRow) (xs : List DigestRow)
      → level_index x.level ≤ n
      → All (λ y. level_index y.level ≤ n) xs
      → All (λ y. level_index y.level ≤ n) (sort_insert before x xs)
  sort_insert-below n x [] h k = (h, tt)
  sort_insert-below n x (y ∷ ys) h (k, ks) = elim (Bool-cases (before x y)) [
    | inl e ↦ rw e (k, sort_insert-below n x ys h ks)
    | inr e ↦ rw e (h, (k, ks))
  ]

  below_trans :
      (m n : ℕ) (xs : List DigestRow)
      → m ≤ n
      → All (λ y. level_index y.level ≤ m) xs
      → All (λ y. level_index y.level ≤ n) xs
  below_trans m n [] h k = tt
  below_trans m n (x ∷ xs) h (k, ks) = (omega (arith, h, k), below_trans m n xs h ks)

  sort_insert-WorstFirst :
      (x : DigestRow) (xs : List DigestRow) → WorstFirst xs → WorstFirst (sort_insert before x xs)
  sort_insert-WorstFirst x [] w = (tt, tt)
  sort_insert-WorstFirst x (y ∷ ys) (below, w) = elim (Bool-cases (before x y)) [
    | inl e ↦ rw e (
      sort_insert-below (level_index y.level) x ys (ground arith) below,
      sort_insert-WorstFirst x ys w,
    )
    | inr e ↦
        let first : level_index y.level ≤ level_index x.level = ground arith in
        rw e ((first, below_trans _ _ ys first below), (below, w))
  ]

  sort-WorstFirst : (xs : List DigestRow) → WorstFirst (sort before xs)
  sort-WorstFirst [] = tt
  sort-WorstFirst (x ∷ xs) = sort_insert-WorstFirst x (sort before xs) (sort-WorstFirst xs)

  -- The students of the class whose flags changed or stand.
  abbrev pub worth_showing : List (RiskRow W) → List (RiskRow W) → List Note → List DigestRow
  unfolding digest_row
  worth_showing prior current notes =
      filter (λ r. not (is_quiet r.status))
        (map (digest_row (by_student prior) (count_notes [] notes)) current)

  -- The rows of a digest group are those of the class that are not quiet, each once, from the highest
  -- level to the lowest, whatever the text comparison does.
  pub digest_rows-WorstFirst :
      (prior current : List (RiskRow W)) (notes : List Note)
      → let rows = digest_rows locale_compare prior current notes in
        Perm rows (worth_showing prior current notes) × WorstFirst rows
  unfolding digest_rows worth_showing
  digest_rows-WorstFirst prior current notes =
      let shown = worth_showing prior current notes in
      (sort-perm before shown, sort-WorstFirst shown)
