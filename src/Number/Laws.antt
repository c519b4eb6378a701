-- ===== src/Number/Laws.antt =====
-- What the theorems use of IEEE 754 arithmetic. Each law holds of all doubles, NaN, the infinities
-- and both zeros included; none says that an operation is exact.
use league_table.Prelude.{ℕ, ◌≤◌, ◌≡◌, true, false, ltb, ◌==◌}
use league_table.Number.{Number, is_number, zero_number, whole, le}

pub record IsOrdered (W : Type 0) ⦃num : Number W⦄ : Type 0 where
  pub lt_trans : (a b c : W) → num.lt a b ≡ true → num.lt b c ≡ true → num.lt a c ≡ true
  pub lt_asymm : (a b : W) → num.lt a b ≡ true → num.lt b a ≡ false
  pub lt-ne : (a b : W) → num.lt a b ≡ true → num.eq a b ≡ false
  pub eq_symm : (a b : W) → num.eq a b ≡ true → num.eq b a ≡ true
  pub lt-eq_left : (a b c : W) → num.eq a b ≡ true → num.lt a c ≡ num.lt b c
  pub lt-eq_right : (a b c : W) → num.eq a b ≡ true → num.lt c a ≡ num.lt c b
  pub eq_trans : (a b c : W) → num.eq a b ≡ true → num.eq b c ≡ true → num.eq a c ≡ true
  pub lt_connected :
      (a b : W)
      → is_number a ≡ true
      → is_number b ≡ true
      → num.lt a b ≡ false
      → num.lt b a ≡ false
      → num.eq a b ≡ true
  -- nothing compares with NaN
  pub lt_known : (a b : W) → num.lt a b ≡ true → (is_number a ≡ true) × (is_number b ≡ true)
  -- a difference is above 0 exactly where the order says so, with gradual underflow
  pub sub_pos : (a b : W) → num.lt zero_number (num.sub b a) ≡ num.lt a b
  -- the integers below 2^53 are exact
  pub whole-lt :
      (m n : ℕ) → m ≤ 9007199254740992 → n ≤ 9007199254740992 → num.lt (whole m) (whole n) ≡ ltb m n
  pub whole-eq :
      (m n : ℕ)
      → m ≤ 9007199254740992
      → n ≤ 9007199254740992
      → num.eq (whole m) (whole n) ≡ (m == n)
  pub literal_nonneg : (n e : ℕ) → le zero_number (num.literal n e) ≡ true
  pub mul-one : (a : W) → is_number a ≡ true → num.eq (num.mul a (whole 1)) a ≡ true
  -- a rounded sum or product of non-negative numbers is not negative
  pub add_pos :
      (a b : W)
      → le zero_number a ≡ true
      → num.lt zero_number b ≡ true
      → num.lt zero_number (num.add a b) ≡ true
  pub mul_nonneg :
      (a b : W)
      → le zero_number a ≡ true
      → le zero_number b ≡ true
      → is_number (num.mul a b) ≡ true
      → le zero_number (num.mul a b) ≡ true
  pub le-add_nonneg :
      (a b : W)
      → le zero_number b ≡ true
      → is_number (num.add a b) ≡ true
      → le a (num.add a b) ≡ true
  -- rounding is monotone
  pub add_mono_right :
      (a b c : W)
      → le b c ≡ true
      → is_number (num.add a b) ≡ true
      → is_number (num.add a c) ≡ true
      → le (num.add a b) (num.add a c) ≡ true
  pub mul_mono_right :
      (a b c : W)
      → le zero_number a ≡ true
      → le b c ≡ true
      → is_number (num.mul a b) ≡ true
      → is_number (num.mul a c) ≡ true
      → le (num.mul a b) (num.mul a c) ≡ true
