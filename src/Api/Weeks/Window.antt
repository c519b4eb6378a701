-- ===== src/Api/Weeks/Window.antt =====
-- The weeks that a window takes in.
use league_table.Prelude.{
  ℕ, zero, suc, ◌+◌, ◌-◌, ◌≤◌, ◌<◌, String, ◌≡◌, refl, ap, ◌∙◌, Bool, false, none, some, List, [],
  ◌∷◌, arith, inl, inr, Bool-cases, ◌===◌, find, find_index_from, take, drop, take_last, last?,
  length,
}
use league_table.Model.{Week}
use league_table.Api.Weeks.{window_weeks}

module _ {A : Type 0} (p : A → Bool) where
  -- where `findIndex` finds, and what stands there
  data Found (start : ℕ) (xs : List A) : Type 0 where
    found :
        (i : ℕ) (x : A)
        → find_index_from start p xs ≡ some (start + i)
        → find p xs ≡ some x
        → take 1 (drop i xs) ≡ x ∷ []
        → last? (take (suc i) xs) ≡ some x
        → length (take (suc i) xs) ≡ suc i
        → Found start xs
    absent : find_index_from start p xs ≡ none → find p xs ≡ none → Found start xs

  later :
      (start : ℕ) (y : A) (ys : List A) → p y ≡ false → Found (suc start) ys → Found start (y ∷ ys)
  later start y ys e (absent h k) = absent (rw (e, h) refl) (rw (e, k) refl)
  later start y [] e (found i x h k one l n) = cc
  later start y (z ∷ zs) e (found i x h k one l n) =
      found (suc i) x (rw (e, h) (ap some (omega arith))) (rw (e, k) refl) one l (omega (arith, n))

  find-Found : (start : ℕ) (xs : List A) → Found start xs
  find-Found start [] = absent refl refl
  find-Found start (y ∷ ys) = elim (Bool-cases (p y)) [
    | inl e ↦ found 0 y (rw e (ap some (omega arith))) (rw e refl) refl refl refl
    | inr e ↦ later start y ys e (find-Found (suc start) ys)
  ]

module _ {A : Type 0} where
  last?-drop : (k : ℕ) (xs : List A) → k < length xs → last? (drop k xs) ≡ last? xs
  last?-drop zero xs h = refl
  last?-drop (suc k) [] h = elim h [ ]
  last?-drop (suc k) (x ∷ []) h = let none_left : ⊥ = omega (arith, h) in elim none_left [ ]
  last?-drop (suc k) (x ∷ y ∷ ys) h = last?-drop k (y ∷ ys) (ground arith)

abbrev is_week : String → Week → Bool
is_week week_id w = w.id === week_id

ends :
    (weeks : List Week) (week_id mode : String) (n : ℕ)
    → 1 ≤ n
    → Found (is_week week_id) 0 weeks
    → last? (window_weeks weeks week_id mode n) ≡ find (is_week week_id) weeks
unfolding window_weeks
ends weeks week_id mode n h (absent e k) = rw (e, k) refl
ends weeks week_id mode n h (found i x e k one l m) =
    let step : 0 + i + 1 ≡ suc i = omega arith in
    rw (e, k)
      (elim (Bool-cases (mode === "cumulative")) [
        | inl c ↦ rw c (rw step l)
        | inr c ↦ rw c (elim (Bool-cases (mode === "rolling")) [
          | inl r ↦
              rw r (rw step (last?-drop (suc i - n) (take (suc i) weeks) (omega (arith, m, h)) ∙ l))
          | inr r ↦
              let at : 0 + i ≡ i = omega arith in
              rw r (ap (λ j. last? (take 1 (drop j weeks))) at ∙ ap last? one)
        ])
      ])

rolls_at :
    (weeks : List Week) (n i : ℕ)
    → length (take (i + 1) weeks) ≡ i + 1
    → drop (i + 1 - n) (take (i + 1) weeks) ≡ take_last n (take (i + 1) weeks)
rolls_at weeks n i m = rw m refl

rolls :
    (weeks : List Week) (week_id : String) (n : ℕ)
    → Found (is_week week_id) 0 weeks
    → window_weeks weeks week_id "rolling" n
      ≡ take_last n (window_weeks weeks week_id "cumulative" n)
unfolding window_weeks
rolls weeks week_id n (absent e k) = let empty : 0 - n ≡ 0 = omega arith in rw e (rw empty refl)
rolls weeks week_id n (found i x e k one l m) =
    let step : 0 + i + 1 ≡ suc i = omega arith in rw e (rolls_at weeks n (0 + i) (rw step m))

-- For a window of one week or more, whatever the mode, `windowWeeks` ends with the week that is asked
-- for and is empty where there is no such week; and the rolling window is the last `n` weeks of the
-- cumulative one, or all of them where there are fewer.
pub window_weeks-ends :
    (weeks : List Week) (week_id mode : String) (n : ℕ)
    → 1 ≤ n
    → (last? (window_weeks weeks week_id mode n) ≡ find (λ w. w.id === week_id) weeks)
      × (window_weeks weeks week_id "rolling" n
          ≡ take_last n (window_weeks weeks week_id "cumulative" n))
window_weeks-ends weeks week_id mode n h =
    let at = find-Found (is_week week_id) 0 weeks in
    (ends weeks week_id mode n h at, rolls weeks week_id n at)
