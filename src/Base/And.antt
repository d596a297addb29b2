-- ===== src/Base/And.antt =====
-- Laws of `&` at variables, from the digit recursion that the native operation stands for.
use Prim.Native.Nat.{ℕ, zero, suc, ◌+◌, ◌*◌, ◌/◌, ◌%◌, ◌^◌, ◌<◌, min, bit_and, bit_and-bitwise}
use mathlib.Core.Path.{◌≡◌, ap, sym, ◌∙◌}
use native.Mathlib.Omega.{arith}
use serial_dfs.Base.Digits.{digits_step, digits-fields}

pub and_step : (a b : ℕ) → bit_and a b ≡ bit_and (a / 2) (b / 2) * 2 + min (a % 2) (b % 2)
and_step zero b =
    let nothing : (c : ℕ) → bit_and 0 c ≡ 0 = bit_and-bitwise 0 in
    omega (arith, nothing b, nothing (b / 2))
and_step (suc a) b =
    bit_and-bitwise (suc a) b
    ∙ digits_step (λ c. zero) min a b
    ∙ ap (λ d. d * 2 + min (suc a % 2) (b % 2)) (sym (bit_and-bitwise (suc a / 2) (b / 2)))

-- By halves, of a bound on the value.
and-zero_below : (bound a : ℕ) → a < bound → bit_and a 0 ≡ 0
and-zero_below zero a few = absurd (omega arith)
and-zero_below (suc bound) zero few = bit_and-bitwise 0 0
and-zero_below (suc bound) (suc a) few =
    let half : bit_and (suc a / 2) 0 ≡ 0 = and-zero_below bound (suc a / 2) (omega arith) in
    omega (arith, half, and_step (suc a) 0)

pub and-zero : (a : ℕ) → bit_and a 0 ≡ 0
and-zero a = and-zero_below (a + 1) a (omega arith)

-- A mask of one bit: `v & (1 << k)` is that bit of `v`, in its place.
pub and-one : (a : ℕ) → bit_and a 1 ≡ a % 2
and-one a = let rest : bit_and (a / 2) 0 ≡ 0 = and-zero (a / 2) in omega (arith, rest, and_step a 1)

pub and_fields :
    (k h l i m : ℕ)
    → l < 2 ^ k
    → m < 2 ^ k
    → (bit_and (h * 2 ^ k + l) (i * 2 ^ k + m) ≡ bit_and h i * 2 ^ k + bit_and l m)
      × (bit_and l m < 2 ^ k)
and_fields = digits-fields bit_and min (and-zero 0) and_step (λ x y p q. omega arith)
