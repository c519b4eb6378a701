-- ===== src/Number/Order.antt =====
-- Lemmas on the order of numbers, on `Math.min` and on the exact integers, from the laws.
use league_table.Prelude.{ℕ, ◌≤◌, ◌≡◌, ◌∙◌, Bool-cases, true, false, inl, inr, arith}
use league_table.Number.{Number, whole, is_number, le, math_min}
use league_table.Number.Laws.{IsOrdered}

module _ {W : Type 0} ⦃num : Number W⦄ where
  open num use {lt, eq}

  -- The value is not NaN.
  abbrev pub IsKnown : W → Type 0
  IsKnown x = is_number x ≡ true

  module _ (laws : IsOrdered W) where
    open laws use {
      lt_trans, lt_asymm, lt-ne, eq_symm, lt-eq_left, lt-eq_right, eq_trans, lt_connected, lt_known,
      whole-eq,
    }

    pub le_trans : (a b c : W) → le a b ≡ true → le b c ≡ true → le a c ≡ true
    le_trans a b c h k =
        ground (arith, lt_trans a b c, lt-eq_left a b c, lt-eq_right b c a, eq_trans a b c)

    pub le_of_eq : (a b : W) → eq a b ≡ true → le a b ≡ true
    le_of_eq a b h = ground arith

    pub le_of_not_lt : (a b : W) → IsKnown a → IsKnown b → lt a b ≡ false → le b a ≡ true
    le_of_not_lt a b ha hb h = ground (arith, lt_connected a b ha hb h, eq_symm a b)

    pub not_lt_of_le : (a b : W) → le a b ≡ true → lt b a ≡ false
    not_lt_of_le a b h = elim (Bool-cases (lt a b)) [
      | inl e ↦ lt_asymm a b e
      | inr e ↦
          let same : eq a b ≡ true = ground arith in
          ground (arith, lt-eq_left a b a same, lt_asymm a a)
    ]

    pub lt_of_lt_le : (a b c : W) → lt a b ≡ true → le b c ≡ true → lt a c ≡ true
    lt_of_lt_le a b c h k = ground (arith, lt_trans a b c h, lt-eq_right b c a)

    pub lt_of_le_lt : (a b c : W) → le a b ≡ true → lt b c ≡ true → lt a c ≡ true
    lt_of_le_lt a b c h k = ground (arith, lt_trans a b c, lt-eq_left a b c)

    pub ne_of_lt : (s t : W) → lt t s ≡ true → eq s t ≡ false
    ne_of_lt s t h = ground (arith, lt-ne t s h, eq_symm s t)

    pub IsKnown-of_le : (a b : W) → le a b ≡ true → IsKnown b
    IsKnown-of_le a b h = ground (arith, lt_known a b, eq_trans b a b, eq_symm a b)

    pub known_whole : (n : ℕ) → n ≤ 9007199254740992 → is_number {W = W} (whole n) ≡ true
    known_whole n h = whole-eq n n h h ∙ ground arith

    pub math_min-le_left : (a b : W) → IsKnown a → IsKnown b → le (math_min a b) a ≡ true
    math_min-le_left a b ha hb = ground arith

    pub math_min-le_right : (a b : W) → IsKnown a → IsKnown b → le (math_min a b) b ≡ true
    math_min-le_right a b ha hb = ground (arith, le_of_not_lt b a hb ha)

    pub le-math_min :
        (c a b : W)
        → IsKnown a
        → IsKnown b
        → le c a ≡ true
        → le c b ≡ true
        → le c (math_min a b) ≡ true
    le-math_min c a b ha hb h k = ground arith

    pub math_min_mono :
        (a b c : W)
        → IsKnown a
        → IsKnown b
        → IsKnown c
        → le a b ≡ true
        → le (math_min a c) (math_min b c) ≡ true
    math_min_mono a b c ha hb hc h =
        let low = math_min-le_left a c ha hc in
        le-math_min _ b c hb hc (le_trans _ _ _ low h) (math_min-le_right a c ha hc)

    pub IsKnown-math_min : (a b : W) → IsKnown a → IsKnown b → IsKnown (math_min a b)
    IsKnown-math_min a b ha hb = ground arith
