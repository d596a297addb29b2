-- ===== src/Base/Digits.antt =====
-- Operations on binary digits: what the laws of `&` and `^` have in common.
use Prim.Native.Nat.{ℕ, zero, suc, ◌+◌, ◌-◌, ◌*◌, ◌/◌, ◌%◌, ◌^◌, ◌≤◌, ◌<◌, digits}
use mathlib.Core.Path.{◌≡◌, refl, ap, ◌∙◌}
use native.Mathlib.Omega.{arith}
use native.Mathlib.Nat.{pow-suc}

-- The recursion that the native operations stand for, on the digits of its first argument.
module _ (rest : ℕ → ℕ) (op : ℕ → ℕ → ℕ) where
  -- More fuel than the first argument has digits is spare.
  one_more : (n a b : ℕ) → a ≤ n → digits rest op (suc n) a b ≡ digits rest op n a b
  one_more zero zero b few = refl
  one_more (suc n) zero b few = refl
  one_more zero (suc a) b few = absurd (omega arith)
  one_more (suc n) (suc a) b few =
      ap (λ d. d * 2 + op (suc a % 2) (b % 2)) (one_more n (suc a / 2) (b / 2) (omega arith))

  spare : (k n a b : ℕ) → a ≤ n → digits rest op (n + k) a b ≡ digits rest op n a b
  spare zero n a b few = ap (λ fuel. digits rest op fuel a b) (omega arith)
  spare (suc k) n a b few =
      let longer : n + suc k ≡ suc (n + k) = omega arith in
      ap (λ fuel. digits rest op fuel a b) longer
      ∙ one_more (n + k) a b (omega arith)
      ∙ spare k n a b few

  pub digits_step :
      (a b : ℕ)
      → digits rest op (suc a) (suc a) b
        ≡ digits rest op (suc a / 2) (suc a / 2) (b / 2) * 2 + op (suc a % 2) (b % 2)
  digits_step a b =
      ap (λ d. d * 2 + op (suc a % 2) (b % 2))
        (ap (λ fuel. digits rest op fuel (suc a / 2) (b / 2)) split
          ∙ spare (a - suc a / 2) (suc a / 2) (suc a / 2) (b / 2) (omega arith))
    where
      split : a ≡ suc a / 2 + (a - suc a / 2)
      split = omega arith

-- Fields do not mix in an operation `f` that goes digit by digit: the low `k` digits and the rest
-- are combined apart.
module _ (f op : ℕ → ℕ → ℕ) (none : f 0 0 ≡ 0)
    (step : (a b : ℕ) → f a b ≡ f (a / 2) (b / 2) * 2 + op (a % 2) (b % 2))
    (binary : (x y : ℕ) → x < 2 → y < 2 → op x y < 2) where
  pub digits-fields :
      (k h l i m : ℕ)
      → l < 2 ^ k
      → m < 2 ^ k
      → (f (h * 2 ^ k + l) (i * 2 ^ k + m) ≡ f h i * 2 ^ k + f l m) × (f l m < 2 ^ k)
  digits-fields zero h l i m p q =
      let no_l : l ≡ 0 = omega arith in
      let no_m : m ≡ 0 = omega arith in rw (no_l, no_m) (ground (arith, none))
  digits-fields (suc k) h l i m p q =
      let half : 2 ^ suc k ≡ 2 ^ k * 2 = pow-suc 2 k in
      let wide : (q : ℕ) → q * 2 ^ suc k ≡ q * 2 ^ k * 2 =
        λ q. ap (λ t. q * t) half ∙ grind arith in
      let low = digits-fields k h (l / 2) i (m / 2) (omega (arith, half)) (omega (arith, half)) in
      ground (
        arith,
        half,
        wide h,
        wide i,
        wide (f h i),
        step (h * 2 ^ suc k + l) (i * 2 ^ suc k + m),
        step l m,
        binary (l % 2) (m % 2),
        low,
      )
