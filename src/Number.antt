-- ===== src/Number.antt =====
-- The program's numbers, JavaScript doubles: an interface of the operations that the services use,
-- with the functions of `Math` that they call. No rounding is fixed here; `Number.Laws` states
-- what IEEE 754 guarantees of them.
pub mod Laws
pub mod Order
pub mod Fixed
use league_table.Prelude.{ℕ, String, Bool, not, ◌&&◌, ◌||◌, Option, none, some, if◌then◌else◌}

pub record Number (W : Type 0) : Type 0 where
  -- `literal n e` is the decimal literal n × 10^-e
  pub literal : ℕ → ℕ → W
  pub negate : W → W
  pub add : W → W → W
  pub sub : W → W → W
  pub mul : W → W → W
  pub div : W → W → W
  pub lt : W → W → Bool
  -- `===`, which no NaN satisfies
  pub eq : W → W → Bool
  -- `Math.round`
  pub round : W → W
  -- `String(n)`, also in a template
  pub show : W → String

module _ {W : Type 0} ⦃num : Number W⦄ where
  abbrev pub whole : ℕ → W
  whole n = num.literal n 0

  abbrev pub zero_number : W
  zero_number = whole 0

  abbrev pub hundred : W
  hundred = whole 100

  abbrev pub minus_one : W
  minus_one = num.negate (whole 1)

  abbrev pub is_number : W → Bool
  is_number x = num.eq x x

  -- `<=`
  abbrev pub le : W → W → Bool
  le x y = num.lt x y || num.eq x y

  -- `Math.min`, which is NaN where an argument is
  abbrev pub math_min : W → W → W
  math_min x y =
      if is_number x then (if is_number y then (if num.lt y x then y else x) else y) else x

  abbrev pub math_max : W → W → W
  math_max x y =
      if is_number x then (if is_number y then (if num.lt x y then y else x) else y) else x

  -- A number as a condition: 0 and NaN are falsy.
  abbrev pub truthy : W → Bool
  truthy x = is_number x && not (num.eq x zero_number)

  -- `x || 0`
  abbrev pub or_zero : W → W
  or_zero x = if truthy x then x else zero_number

  -- A `null` in arithmetic counts as 0.
  abbrev pub to_number : Option W → W
  to_number none = zero_number
  to_number (some x) = x

  -- `Math.round(n * 10) / 10`
  abbrev pub round1 : W → W
  round1 n = num.div (num.round (num.mul n (whole 10))) (whole 10)

  -- `round1` of api.js and risk.js, which keeps a `null`
  abbrev pub round1_or_null : Option W → Option W
  round1_or_null none = none
  round1_or_null (some n) = some (round1 n)
