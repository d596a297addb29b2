-- ===== src/Crc/Linear.antt =====
-- The shift register of the CRC is linear over exclusive or.
use serial_dfs.Base.{
  ℕ, zero, suc, ◌+◌, ◌*◌, ◌/◌, ◌%◌, ◌^◌, ◌<◌, ◌≡◌, refl, ap, ap₂, sym, ◌∙◌, arith, bit_xor, bit_and,
  ◌≡⟨◌⟩◌, ◌∎,
}
use mathlib.Core.Path.{subst₂}
use serial_dfs.Base.Xor.{xor_fields, xor_assoc, xor_comm, xor-zero, zero-xor}
use serial_dfs.Base.And.{and_fields, and-zero, and-one}
use serial_dfs.Crc.{crc_shift, crc_shifts}

pub xor_interchange :
    (a b c d : ℕ) → bit_xor (bit_xor a b) (bit_xor c d) ≡ bit_xor (bit_xor a c) (bit_xor b d)
xor_interchange a b c d =
    bit_xor (bit_xor a b) (bit_xor c d)
    ≡⟨ xor_assoc a b (bit_xor c d) ⟩ bit_xor a (bit_xor b (bit_xor c d))
    ≡⟨ ap (bit_xor a) (sym (xor_assoc b c d)) ⟩ bit_xor a (bit_xor (bit_xor b c) d)
    ≡⟨ ap (λ t. bit_xor a (bit_xor t d)) (xor_comm b c) ⟩ bit_xor a (bit_xor (bit_xor c b) d)
    ≡⟨ ap (bit_xor a) (xor_assoc c b d) ⟩ bit_xor a (bit_xor c (bit_xor b d))
    ≡⟨ sym (xor_assoc a c (bit_xor b d)) ⟩ bit_xor (bit_xor a c) (bit_xor b d) ∎

and_top : (v : ℕ) → v < 2 ^ 16 → bit_and v 0x8000 ≡ v / 2 ^ 15 * 2 ^ 15
and_top v h = omega (
  arith,
  ap (λ t. bit_and t 0x8000) e,
  (and_fields 15 (v / 2 ^ 15) (v % 2 ^ 15) 1 0 (omega arith) (omega arith)).0,
  and-one (v / 2 ^ 15),
  and-zero (v % 2 ^ 15),
)
  where
    e : v ≡ v / 2 ^ 15 * 2 ^ 15 + v % 2 ^ 15
    e = omega arith

-- One round without its branch: the low 15 bits move up, the top bit selects the polynomial.
pub crc_shift_low : (v : ℕ) → v < 2 ^ 15 → crc_shift v ≡ v * 2
unfolding crc_shift
crc_shift_low v h = ground (arith, and_top v (omega arith))

pub crc_shift_high : (v : ℕ) → v < 2 ^ 15 → crc_shift (2 ^ 15 + v) ≡ bit_xor (v * 2) 0x1021
unfolding crc_shift
crc_shift_high v h = ground (
  arith,
  and_top (2 ^ 15 + v) (omega arith),
  ap (λ t. bit_xor t 0x1021) e,
  (xor_fields 16 1 (v * 2) 0 0x1021 (omega arith) (omega arith)).0,
  (xor_fields 16 1 (v * 2) 0 0x1021 (omega arith) (omega arith)).1,
)
  where
    e : (2 ^ 15 + v) * 2 ≡ 1 * 2 ^ 16 + v * 2
    e = omega arith

-- With the top bit `t` written apart.
crc_shift_parts :
    (t v : ℕ) → t < 2 → v < 2 ^ 15 → crc_shift (t * 2 ^ 15 + v) ≡ bit_xor (v * 2) (t * 0x1021)
crc_shift_parts zero v p h =
    let e : 0 * 2 ^ 15 + v ≡ v = omega arith in rw e (crc_shift_low v h ∙ sym (xor-zero (v * 2)))
crc_shift_parts (suc zero) v p h = crc_shift_high v h
crc_shift_parts (suc (suc t)) v p h = absurd (omega arith)

top_times : (t u : ℕ) → t < 2 → u < 2 → bit_xor t u * 0x1021 ≡ bit_xor (t * 0x1021) (u * 0x1021)
top_times zero zero p q = refl
top_times zero (suc zero) p q = refl
top_times (suc zero) zero p q = refl
top_times (suc zero) (suc zero) p q = refl
top_times t (suc (suc u)) p q = absurd (omega arith)
top_times (suc (suc t)) u p q = absurd (omega arith)

xor-double : (v w : ℕ) → bit_xor v w * 2 ≡ bit_xor (v * 2) (w * 2)
xor-double v w = ground (arith, (xor_fields 1 v 0 w 0 (omega arith) (omega arith)).0, zero-xor 0)

crc_shift-xor_parts :
    (t v u w : ℕ)
    → t < 2
    → v < 2 ^ 15
    → u < 2
    → w < 2 ^ 15
    → crc_shift (bit_xor (t * 2 ^ 15 + v) (u * 2 ^ 15 + w))
      ≡ bit_xor (crc_shift (t * 2 ^ 15 + v)) (crc_shift (u * 2 ^ 15 + w))
crc_shift-xor_parts t v u w p h q k =
    crc_shift (bit_xor (t * 2 ^ 15 + v) (u * 2 ^ 15 + w))
    ≡⟨ ap crc_shift (xor_fields 15 t v u w h k).0 ⟩ crc_shift (bit_xor t u * 2 ^ 15 + bit_xor v w)
    ≡⟨ crc_shift_parts (bit_xor t u) (bit_xor v w) bit (xor_fields 15 t v u w h k).1 ⟩
      bit_xor (bit_xor v w * 2) (bit_xor t u * 0x1021)
    ≡⟨ ap₂ bit_xor (xor-double v w) (top_times t u p q) ⟩
      bit_xor (bit_xor (v * 2) (w * 2)) (bit_xor (t * 0x1021) (u * 0x1021))
    ≡⟨ xor_interchange (v * 2) (w * 2) (t * 0x1021) (u * 0x1021) ⟩
      bit_xor (bit_xor (v * 2) (t * 0x1021)) (bit_xor (w * 2) (u * 0x1021))
    ≡⟨ sym (ap₂ bit_xor (crc_shift_parts t v p h) (crc_shift_parts u w q k)) ⟩
      bit_xor (crc_shift (t * 2 ^ 15 + v)) (crc_shift (u * 2 ^ 15 + w)) ∎
  where
    bit : bit_xor t u < 2
    bit = (xor_fields 1 0 t 0 u p q).1

split_top : (a : ℕ) → a ≡ a / 2 ^ 15 * 2 ^ 15 + a % 2 ^ 15
split_top a = omega arith

pub crc_shift-lt : (v : ℕ) → crc_shift v < 2 ^ 16
unfolding crc_shift
crc_shift-lt v = omega arith

pub crc_shift-xor :
    (a b : ℕ)
    → a < 2 ^ 16
    → b < 2 ^ 16
    → crc_shift (bit_xor a b) ≡ bit_xor (crc_shift a) (crc_shift b)
crc_shift-xor a b p q =
    subst₂ (λ x y. crc_shift (bit_xor x y) ≡ bit_xor (crc_shift x) (crc_shift y))
      (sym (split_top a)) (sym (split_top b))
      (crc_shift-xor_parts (a / 2 ^ 15) (a % 2 ^ 15) (b / 2 ^ 15) (b % 2 ^ 15) (omega arith)
        (omega arith) (omega arith) (omega arith))

-- Any number of rounds.
pub crc_shifts-xor :
    (n a b : ℕ)
    → a < 2 ^ 16
    → b < 2 ^ 16
    → crc_shifts n (bit_xor a b) ≡ bit_xor (crc_shifts n a) (crc_shifts n b)
unfolding crc_shifts
crc_shifts-xor zero a b p q = refl
crc_shifts-xor (suc n) a b p q =
    ap (crc_shifts n) (crc_shift-xor a b p q)
    ∙ crc_shifts-xor n (crc_shift a) (crc_shift b) (crc_shift-lt a) (crc_shift-lt b)

pub crc_shifts-lt : (n v : ℕ) → v < 2 ^ 16 → crc_shifts n v < 2 ^ 16
unfolding crc_shifts
crc_shifts-lt zero v h = h
crc_shifts-lt (suc n) v h = crc_shifts-lt n (crc_shift v) (crc_shift-lt v)
