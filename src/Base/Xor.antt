-- ===== src/Base/Xor.antt =====
-- Laws of `^` (exclusive or) at variables, from the digit recursion that the native operation
-- stands for.
use Prim.Native.Nat.{
  ℕ, zero, suc, ◌+◌, ◌*◌, ◌/◌, ◌%◌, ◌^◌, ◌≤◌, ◌<◌, bit_xor, differ, bit_xor-bitwise,
}
use mathlib.Core.Path.{◌≡◌, refl, ap, ap₂, ◌∙◌, sym, ◌≡⟨◌⟩◌, ◌∎}
use native.Mathlib.Omega.{arith}
use serial_dfs.Base.Digits.{digits_step, digits-fields}

pub zero-xor : (b : ℕ) → bit_xor 0 b ≡ b
zero-xor b = bit_xor-bitwise 0 b

differ-zero : (b : ℕ) → differ 0 b ≡ b
differ-zero zero = refl
differ-zero (suc b) = refl

xor_step : (a b : ℕ) → bit_xor a b ≡ bit_xor (a / 2) (b / 2) * 2 + differ (a % 2) (b % 2)
xor_step zero b = omega (arith, zero-xor b, zero-xor (b / 2), differ-zero (b % 2))
xor_step (suc a) b =
    bit_xor-bitwise (suc a) b
    ∙ digits_step (λ c. c) differ a b
    ∙ ap (λ d. d * 2 + differ (suc a % 2) (b % 2)) (sym (bit_xor-bitwise (suc a / 2) (b / 2)))

differ_comm : (x y : ℕ) → differ x y ≡ differ y x
differ_comm zero zero = refl
differ_comm zero (suc y) = refl
differ_comm (suc x) zero = refl
differ_comm (suc x) (suc y) = differ_comm x y

-- On binary digits.
differ-lt : (x y : ℕ) → x < 2 → y < 2 → differ x y < 2
differ-lt zero y p q = rw (differ-zero y) q
differ-lt (suc x) zero p q = p
differ-lt (suc zero) (suc y) p q = rw (differ-zero y) (omega arith)
differ-lt (suc (suc x)) (suc y) p q = absurd (omega arith)

differ_assoc : (x y z : ℕ) → x < 2 → y < 2 → z < 2 → differ (differ x y) z ≡ differ x (differ y z)
differ_assoc zero y z p q r = rw (differ-zero y, differ-zero (differ y z)) refl
differ_assoc (suc x) zero z p q r = rw (differ-zero z) refl
differ_assoc (suc zero) (suc zero) zero p q r = refl
differ_assoc (suc zero) (suc zero) (suc zero) p q r = refl
differ_assoc (suc x) (suc y) (suc (suc z)) p q r = absurd (omega arith)
differ_assoc (suc x) (suc (suc y)) zero p q r = absurd (omega arith)
differ_assoc (suc x) (suc (suc y)) (suc zero) p q r = absurd (omega arith)
differ_assoc (suc (suc x)) (suc zero) zero p q r = absurd (omega arith)
differ_assoc (suc (suc x)) (suc zero) (suc zero) p q r = absurd (omega arith)

differ_self : (x : ℕ) → differ x x ≡ 0
differ_self zero = refl
differ_self (suc x) = differ_self x

-- The lowest digit and the rest of an exclusive or.
xor_parts :
    (a b : ℕ)
    → (bit_xor a b / 2 ≡ bit_xor (a / 2) (b / 2)) × (bit_xor a b % 2 ≡ differ (a % 2) (b % 2))
xor_parts a b = omega (arith, xor_step a b, differ-lt (a % 2) (b % 2) (omega arith) (omega arith))

xor_comm_fuel : (n a b : ℕ) → a ≤ n → b ≤ n → bit_xor a b ≡ bit_xor b a
xor_comm_fuel zero zero zero p q = refl
xor_comm_fuel zero zero (suc b) p q = absurd (omega arith)
xor_comm_fuel zero (suc a) b p q = absurd (omega arith)
xor_comm_fuel (suc n) a b p q = omega (
  arith,
  xor_step a b,
  xor_step b a,
  differ_comm (a % 2) (b % 2),
  xor_comm_fuel n (a / 2) (b / 2) (omega arith) (omega arith),
)

pub xor_comm : (a b : ℕ) → bit_xor a b ≡ bit_xor b a
xor_comm a b = xor_comm_fuel (a + b) a b (omega arith) (omega arith)

pub xor-zero : (a : ℕ) → bit_xor a 0 ≡ a
xor-zero a = xor_comm a 0 ∙ zero-xor a

xor_self_fuel : (n a : ℕ) → a ≤ n → bit_xor a a ≡ 0
xor_self_fuel zero zero p = refl
xor_self_fuel zero (suc a) p = absurd (omega arith)
xor_self_fuel (suc n) a p =
    omega (arith, xor_step a a, differ_self (a % 2), xor_self_fuel n (a / 2) (omega arith))

pub xor_self : (a : ℕ) → bit_xor a a ≡ 0
xor_self a = xor_self_fuel a a (omega arith)

module _ (a b c : ℕ) where
  xor_assoc_step :
      bit_xor (bit_xor (a / 2) (b / 2)) (c / 2) ≡ bit_xor (a / 2) (bit_xor (b / 2) (c / 2))
      → bit_xor (bit_xor a b) c ≡ bit_xor a (bit_xor b c)
  xor_assoc_step ih =
      bit_xor (bit_xor a b) c
      ≡⟨ xor_step (bit_xor a b) c ⟩
        bit_xor (bit_xor a b / 2) (c / 2) * 2 + differ (bit_xor a b % 2) (c % 2)
      ≡⟨ (rw ((xor_parts a b).0, (xor_parts a b).1)) ⟩
        bit_xor (bit_xor (a / 2) (b / 2)) (c / 2) * 2 + differ (differ (a % 2) (b % 2)) (c % 2)
      ≡⟨ ap₂ (λ s t. s * 2 + t) ih
          (differ_assoc (a % 2) (b % 2) (c % 2) (omega arith) (omega arith) (omega arith)) ⟩
        bit_xor (a / 2) (bit_xor (b / 2) (c / 2)) * 2 + differ (a % 2) (differ (b % 2) (c % 2))
      ≡⟨ (rw ((xor_parts b c).0, (xor_parts b c).1)) ⟩
        bit_xor (a / 2) (bit_xor b c / 2) * 2 + differ (a % 2) (bit_xor b c % 2)
      ≡⟨ sym (xor_step a (bit_xor b c)) ⟩ bit_xor a (bit_xor b c) ∎

xor_assoc_fuel :
    (n a b c : ℕ) → a ≤ n → b ≤ n → c ≤ n → bit_xor (bit_xor a b) c ≡ bit_xor a (bit_xor b c)
xor_assoc_fuel zero zero b c p q r = rw (zero-xor b, zero-xor (bit_xor b c)) refl
xor_assoc_fuel zero (suc a) b c p q r = absurd (omega arith)
xor_assoc_fuel (suc n) a b c p q r =
    xor_assoc_step a b c
      (xor_assoc_fuel n (a / 2) (b / 2) (c / 2) (omega arith) (omega arith) (omega arith))

pub xor_assoc : (a b c : ℕ) → bit_xor (bit_xor a b) c ≡ bit_xor a (bit_xor b c)
xor_assoc a b c = xor_assoc_fuel (a + b + c) a b c (omega arith) (omega arith) (omega arith)

-- Exclusive or with a value is undone by doing it again, so it is injective.
pub xor-xor_self : (a b : ℕ) → bit_xor (bit_xor a b) b ≡ a
xor-xor_self a b = xor_assoc a b b ∙ ap (bit_xor a) (xor_self b) ∙ xor-zero a

pub xor_injective : (a b c : ℕ) → bit_xor a c ≡ bit_xor b c → a ≡ b
xor_injective a b c e = sym (xor-xor_self a c) ∙ ap (λ t. bit_xor t c) e ∙ xor-xor_self b c

-- Fields do not mix: the low `k` digits and the rest are combined apart.
pub xor_fields :
    (k h l i m : ℕ)
    → l < 2 ^ k
    → m < 2 ^ k
    → (bit_xor (h * 2 ^ k + l) (i * 2 ^ k + m) ≡ bit_xor h i * 2 ^ k + bit_xor l m)
      × (bit_xor l m < 2 ^ k)
xor_fields = digits-fields bit_xor differ (zero-xor 0) xor_step differ-lt
