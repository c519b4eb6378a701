-- ===== src/Number/Fixed.antt =====
-- An instance that meets the laws, for the tests and the witnesses: decimal fixed-point numbers in
-- thousandths, with a NaN for a division by zero.
pub mod Ordered
use league_table.Prelude.{
  ℕ, zero, suc, ◌+◌, ◌-◌, ◌*◌, ◌/◌, ◌%◌, String, Bool, true, false, ltb, leb, ◌==◌, if◌then◌else◌,
  digit, count_text,
}
use Prim.Native.Nat.{◌^◌}
use Prim.Native.String.{◌++◌}
use league_table.Number.{Number}

-- `minus n` is -(n + 1) thousandths
pub data Fixed : Type 0 where
  nan : Fixed
  plus : ℕ → Fixed
  minus : ℕ → Fixed

abbrev negated : Fixed → Fixed
negated nan = nan
negated (plus zero) = plus 0
negated (plus (suc n)) = minus n
negated (minus n) = plus (suc n)

abbrev difference : ℕ → ℕ → Fixed
difference a b = if leb b a then plus (a - b) else minus (b - a - 1)

abbrev sum : Fixed → Fixed → Fixed
sum (plus a) (plus b) = plus (a + b)
sum (plus a) (minus b) = difference a (suc b)
sum (minus a) (plus b) = difference b (suc a)
sum (minus a) (minus b) = minus (a + b + 1)
sum nan _ = nan
sum _ nan = nan

abbrev product : Fixed → Fixed → Fixed
product (plus a) (plus b) = plus (a * b / 1000)
product (plus a) (minus b) = negated (plus (a * suc b / 1000))
product (minus a) (plus b) = negated (plus (suc a * b / 1000))
product (minus a) (minus b) = plus (suc a * suc b / 1000)
product nan _ = nan
product _ nan = nan

abbrev quotient : Fixed → Fixed → Fixed
quotient (plus a) (plus (suc b)) = plus (a * 1000 / suc b)
quotient (plus a) (minus b) = negated (plus (a * 1000 / suc b))
quotient (minus a) (plus (suc b)) = negated (plus (suc a * 1000 / suc b))
quotient (minus a) (minus b) = plus (suc a * 1000 / suc b)
quotient _ _ = nan

abbrev less : Fixed → Fixed → Bool
less (plus a) (plus b) = ltb a b
less (minus a) (minus b) = ltb b a
less (minus a) (plus b) = true
less _ _ = false

abbrev same : Fixed → Fixed → Bool
same (plus a) (plus b) = a == b
same (minus a) (minus b) = a == b
same _ _ = false

-- to the nearest whole number, a tie upwards
abbrev rounded : Fixed → Fixed
rounded (plus a) = plus ((a + 500) / 1000 * 1000)
rounded (minus n) = negated (plus ((n + 500) / 1000 * 1000))
rounded nan = nan

printed : ℕ → String
unfolding count_text
printed n =
    if n % 1000 == 0
    then count_text (n / 1000)
    else (count_text (n / 1000) ++ ".") ++ digit (n / 100 % 10)

unfoldable pub print_fixed : Fixed → String
unfolding printed
print_fixed nan = "NaN"
print_fixed (plus n) = printed n
print_fixed (minus n) = "-" ++ printed (suc n)

abbrev decimal : ℕ → ℕ → Fixed
decimal n e = plus (n * 1000 / 10 ^ e)

instance abbrev pub fixed_number : Number Fixed
fixed_number = record {
  literal = decimal;
  negate = negated;
  add = sum;
  sub = λ a b. sum a (negated b);
  mul = product;
  div = quotient;
  lt = less;
  eq = same;
  round = rounded;
  show = print_fixed;
}
