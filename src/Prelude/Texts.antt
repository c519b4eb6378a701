-- ===== src/Prelude/Texts.antt =====
-- Texts of whole numbers, as a template literal prints them, and joined texts.
use Prim.Native.Nat.{ℕ, zero, suc, ◌/◌, ◌%◌, ◌≤◌, ◌<◌}
use mathlib.Core.Path.{◌≡◌, refl, ap}
use mathlib.Core.Logic.{inl, inr}
use native.Mathlib.Omega.{arith}
use Prim.Native.String.{String, ◌++◌}
use mathlib.Core.List.{List, [], ◌∷◌}
use league_table.Prelude.Tests.{Bool-cases, ltb, ◌==◌, if◌then◌else◌}

abbrev pub digit : ℕ → String
digit n =
    if n == 0
    then "0"
    else if n == 1
    then "1"
    else if n == 2
    then "2"
    else if n == 3
    then "3"
    else if n == 4
    then "4"
    else if n == 5
    then "5"
    else if n == 6
    then "6"
    else if n == 7
    then "7"
    else if n == 8
    then "8"
    else "9"

-- the decimal digits, with fuel: one step for each digit, and `n + 1` steps are always enough
unfoldable pub digits_from : ℕ → ℕ → String
digits_from zero n = ""
digits_from (suc fuel) n =
    let more = digits_from fuel (n / 10) in if ltb n 10 then digit n else more ++ digit (n % 10)

-- `String(n)` of a whole number
unfoldable pub count_text : ℕ → String
unfolding digits_from
count_text n = digits_from (suc n) n

-- `texts.join(separator)`
abbrev pub join : String → List String → String
join separator [] = ""
join separator (s ∷ []) = s
join separator (s ∷ t ∷ ts) = (s ++ separator) ++ join separator (t ∷ ts)

-- More fuel than the number gives the same digits, so `count_text` has enough.
digits_from-enough : (f g n : ℕ) → n < f → n < g → digits_from f n ≡ digits_from g n
unfolding digits_from
digits_from-enough zero g n h k = let no_fuel : ⊥ = omega (arith, h) in elim no_fuel [ ]
digits_from-enough (suc f) zero n h k = let no_fuel : ⊥ = omega (arith, k) in elim no_fuel [ ]
digits_from-enough (suc f) (suc g) n h k = elim (Bool-cases (ltb n 10)) [
  | inl e ↦ rw e refl
  | inr e ↦
      let large : 10 ≤ n = ground arith in
      rw e (
        ap (λ more. more ++ digit (n % 10))
          (digits_from-enough f g (n / 10) (omega (arith, h, large)) (omega (arith, k, large))))
]
