-- ===== src/Number/Fixed/Ordered.antt =====
-- The fixed-point numbers meet the laws of the interface.
use native.Mathlib.Nat.{mul-le-mul, le_refl}
use league_table.Prelude.{ℕ, suc, ◌*◌, ◌/◌, ◌≤◌, ◌≡◌, true, false, arith}
use league_table.Number.{whole, is_number, zero_number, le}
use league_table.Number.Laws.{IsOrdered}
use league_table.Number.Fixed.{Fixed, plus, minus, fixed_number}
open fixed_number use {literal, lt, eq, add, sub, mul}

trans : (a b c : Fixed) → lt a b ≡ true → lt b c ≡ true → lt a c ≡ true
trans a b c = ground arith

connected :
    (a b : Fixed)
    → is_number a ≡ true
    → is_number b ≡ true
    → lt a b ≡ false
    → lt b a ≡ false
    → eq a b ≡ true
connected a b = ground arith

eq_trans' : (a b c : Fixed) → eq a b ≡ true → eq b c ≡ true → eq a c ≡ true
eq_trans' a b c = ground arith

left : (a b c : Fixed) → eq a b ≡ true → lt a c ≡ lt b c
left a b c = ground arith

right : (a b c : Fixed) → eq a b ≡ true → lt c a ≡ lt c b
right a b c = ground arith

difference_pos : (a b : Fixed) → lt zero_number (sub b a) ≡ lt a b
difference_pos a b = ground arith

sum_pos :
    (a b : Fixed)
    → le zero_number a ≡ true
    → lt zero_number b ≡ true
    → lt zero_number (add a b) ≡ true
sum_pos a b = ground arith

sum_mono :
    (a b c : Fixed)
    → le b c ≡ true
    → is_number (add a b) ≡ true
    → is_number (add a c) ≡ true
    → le (add a b) (add a c) ≡ true
sum_mono a b c = ground arith

share_mono : (a b c : ℕ) → b ≤ c → a * b / 1000 ≤ a * c / 1000
share_mono a b c h = omega (arith, mul-le-mul (le_refl a) h)

product_mono :
    (a b c : Fixed)
    → le zero_number a ≡ true
    → le b c ≡ true
    → is_number (mul a b) ≡ true
    → is_number (mul a c) ≡ true
    → le (mul a b) (mul a c) ≡ true
product_mono (plus a) (plus b) (plus c) h k = ground (arith, share_mono a b c)
product_mono (plus a) (minus b) (minus c) h k = ground (arith, share_mono a (suc c) (suc b))
product_mono (plus a) (minus b) (plus c) h k = ground arith
product_mono (plus a) (plus b) (minus c) h k = cc
product_mono a b c h k = ground arith

nonneg : (n e : ℕ) → le zero_number (literal n e) ≡ true
nonneg n e = ground arith

product_nonneg :
    (a b : Fixed)
    → le zero_number a ≡ true
    → le zero_number b ≡ true
    → is_number (mul a b) ≡ true
    → le zero_number (mul a b) ≡ true
product_nonneg a b = ground arith

le_sum :
    (a b : Fixed) → le zero_number b ≡ true → is_number (add a b) ≡ true → le a (add a b) ≡ true
le_sum a b = ground arith

product-one : (a : Fixed) → is_number a ≡ true → eq (mul a (whole 1)) a ≡ true
product-one a = ground arith

pub Fixed-IsOrdered : IsOrdered Fixed
Fixed-IsOrdered = record {
  lt_trans = trans;
  lt_asymm = λ a b. ground arith;
  lt-ne = λ a b. ground arith;
  eq_symm = λ a b. ground arith;
  lt-eq_left = left;
  lt-eq_right = right;
  eq_trans = eq_trans';
  lt_connected = connected;
  lt_known = λ a b. ground arith;
  sub_pos = difference_pos;
  whole-lt = λ m n h k. ground arith;
  whole-eq = λ m n h k. ground arith;
  literal_nonneg = nonneg;
  mul_nonneg = product_nonneg;
  le-add_nonneg = le_sum;
  mul-one = product-one;
  add_pos = sum_pos;
  add_mono_right = sum_mono;
  mul_mono_right = product_mono;
}
