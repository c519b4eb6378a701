-- ===== src/Source/Random.antt =====
-- `mulberry32` of mockSource.js: a generator with 32 bits of state. JavaScript's bit operators work on
-- 32-bit patterns, which stand here as the numbers below 2^32, whether signed there or not.
use Prim.Native.Nat.{bit_or, bit_xor, ◌^◌}
use league_table.Prelude.{ℕ, zero, suc, ◌+◌, ◌*◌, ◌/◌, ◌%◌, ◌≡◌, arith}
use league_table.Number.{Number, whole}

abbrev pub word : ℕ
word = 4294967296

-- `Math.imul`
abbrev pub imul : ℕ → ℕ → ℕ
imul a b = a * b % word

-- `x ^ (x >>> n)`
abbrev pub fold_right : ℕ → ℕ → ℕ
fold_right n x = bit_xor x (x / 2 ^ n)

-- `a = (a + 0x6d2b79f5) >>> 0`
unfoldable pub next_state : ℕ → ℕ
next_state a = (a + 0x6d2b79f5) % word

abbrev mix : ℕ → ℕ
mix t = bit_xor t ((t + imul (fold_right 7 t) (bit_or t 61)) % word)

-- the numerator of what a call returns, from the new state
unfoldable pub scramble : ℕ → ℕ
scramble a = fold_right 14 (mix (imul (fold_right 15 a) (bit_or a 1))) % word

-- a call: the number that it returns, and the state that it leaves
unfoldable pub draw : {W : Type 0} ⦃num : Number W⦄ → ℕ → W × ℕ
unfolding scramble next_state
draw ⦃num⦄ a = (num.div (whole (scramble (next_state a))) (whole word), next_state a)

-- the state after `k` calls
abbrev pub after_draws : ℕ → ℕ → ℕ
unfolding next_state
after_draws zero seed = seed % word
after_draws (suc k) seed = next_state (after_draws k seed)

-- The state runs through an arithmetic progression: after `k` calls it is the seed with `k` times the
-- increment added, in 32 bits.
pub after_draws_lem : (k seed : ℕ) → after_draws k seed ≡ (seed + k * 0x6d2b79f5) % word
unfolding next_state
after_draws_lem zero seed = omega arith
after_draws_lem (suc k) seed = omega (arith, after_draws_lem k seed)
