-- ===== src/Crc/Detect.antt =====
-- `crc16_update` loses nothing: it is injective in the register and in the byte, so one changed
-- byte always changes the CRC.
use serial_dfs.Base.{
  ℕ, zero, suc, ◌+◌, ◌*◌, ◌/◌, ◌%◌, ◌^◌, ◌<◌, ◌==◌, ==_iff, ◌≡◌, ◌≢◌, refl, ap, ap₂, sym, ◌∙◌,
  arith, bit_xor, List, [], ◌∷◌, ◌++◌, byte_at, true, u8, u16, AllBytes, map, if◌then◌else◌,
}
use serial_dfs.Base.Xor.{xor_fields, xor_injective, xor_comm, xor-zero}
use serial_dfs.Base.Table.{all_below, all_below_sound}
use serial_dfs.Crc.{
  crc_shift, crc_shifts, crc_init, crc_table, crc16_update, crc16_from, crc16_block,
}
use serial_dfs.Crc.Linear.{crc_shifts-lt}
use serial_dfs.Crc.Reference.{crc_table_entry, crc16_update-lt}

-- The position of `x` in a list, or the list's length.
index_of : ℕ → List ℕ → ℕ
index_of x [] = 0
index_of x (y ∷ ys) = if x == y then 0 else suc (index_of x ys)

-- The low bytes of the table, which are all different.
low_bytes : List ℕ
low_bytes = map u8 crc_table

low_bytes_table : (let t = low_bytes in all_below 256 (λ i. index_of (byte_at t i) t == i)) ≡ true
unfolding low_bytes crc_table crc_init crc_shifts crc_shift all_below index_of
low_bytes_table = refl

byte_at-map-u8 : (xs : List ℕ) (i : ℕ) → byte_at (map u8 xs) i ≡ u8 (byte_at xs i)
byte_at-map-u8 [] i = refl
byte_at-map-u8 (x ∷ xs) zero = refl
byte_at-map-u8 (x ∷ xs) (suc i) = byte_at-map-u8 xs i

index_of-low : (i : ℕ) → i < 256 → index_of (u8 (byte_at crc_table i)) low_bytes ≡ i
unfolding low_bytes
index_of-low i h =
    ap (λ t. index_of t low_bytes) (sym (byte_at-map-u8 crc_table i))
    ∙ (==_iff (index_of (byte_at low_bytes i) low_bytes) i).0 (
        all_below_sound 256 (λ i. index_of (byte_at low_bytes i) low_bytes == i) i low_bytes_table
          h)

-- The low byte of a table entry tells which entry it is.
table_low_injective :
    (i j : ℕ) → i < 256 → j < 256 → u8 (byte_at crc_table i) ≡ u8 (byte_at crc_table j) → i ≡ j
table_low_injective i j p q e =
    sym (index_of-low i p) ∙ ap (λ t. index_of t low_bytes) e ∙ index_of-low j q

-- The table index that `crc16_update` reads.
abbrev index : ℕ → ℕ → ℕ
index crc b = u8 (bit_xor (crc / 2 ^ 8) b)

-- The two bytes of `t ^ (crc << 8)`, cut to 16 bits, for an entry `t` and a register of bytes.
xor_bytes :
    (a b h l : ℕ)
    → a < 256
    → b < 256
    → h < 256
    → l < 256
    → u16 (bit_xor (a * 2 ^ 8 + b) ((h * 2 ^ 8 + l) * 2 ^ 8)) ≡ bit_xor a l * 2 ^ 8 + b
xor_bytes a b h l p q r s = ground (
  arith,
  ap (bit_xor (a * 2 ^ 8 + b)) up,
  ap (λ t. bit_xor t (h * 2 ^ 16 + l * 2 ^ 8)) pad,
  (xor_fields 16 0 (a * 2 ^ 8 + b) h (l * 2 ^ 8) (omega arith) (omega arith)).0,
  (xor_fields 16 0 (a * 2 ^ 8 + b) h (l * 2 ^ 8) (omega arith) (omega arith)).1,
  (xor_fields 8 a b l 0 q (omega arith)).0,
  (xor_fields 8 0 a 0 l p s).1,
  ap (bit_xor (a * 2 ^ 8 + b)) zeros,
  xor-zero b,
)
  where
    up : (h * 2 ^ 8 + l) * 2 ^ 8 ≡ h * 2 ^ 16 + l * 2 ^ 8
    up = omega arith

    pad : 0 * 2 ^ 16 + (a * 2 ^ 8 + b) ≡ a * 2 ^ 8 + b
    pad = omega arith

    zeros : l * 2 ^ 8 + 0 ≡ l * 2 ^ 8
    zeros = omega arith

abbrev entry : ℕ → ℕ → ℕ
entry crc b = byte_at crc_table (index crc b)

entry-lt : (crc b : ℕ) → entry crc b < 2 ^ 16
entry-lt crc b =
    rw (crc_table_entry (index crc b) (omega arith))
      (crc_shifts-lt 8 (index crc b * 2 ^ 8) (omega arith))

update_bytes :
    (crc b : ℕ)
    → crc < 2 ^ 16
    → (crc16_update crc b
        ≡ bit_xor (entry crc b / 2 ^ 8) (crc % 2 ^ 8) * 2 ^ 8 + entry crc b % 2 ^ 8)
      × (bit_xor (entry crc b / 2 ^ 8) (crc % 2 ^ 8) < 256)
unfolding crc16_update
update_bytes crc b p = (
  ap₂ (λ s t. u16 (bit_xor s (t * 2 ^ 8))) (split (entry crc b)) (split crc)
      ∙ xor_bytes (entry crc b / 2 ^ 8) (entry crc b % 2 ^ 8) (crc / 2 ^ 8) (crc % 2 ^ 8)
          (omega (arith, entry-lt crc b)) (omega arith) (omega arith) (omega arith),
  (xor_fields 8 0 (entry crc b / 2 ^ 8) 0 (crc % 2 ^ 8) (omega (arith, entry-lt crc b))
      (omega arith)).1,
)
  where
    split : (x : ℕ) → x ≡ x / 2 ^ 8 * 2 ^ 8 + x % 2 ^ 8
    split x = omega arith

xor-lt_256 : (a b : ℕ) → a < 256 → b < 256 → bit_xor a b < 256
xor-lt_256 a b p q = (xor_fields 8 0 a 0 b p q).1

module _ (c d a b : ℕ) (pc : c < 2 ^ 16) (pd : d < 2 ^ 16) (pa : a < 256) (pb : b < 256)
    (same : crc16_update c a ≡ crc16_update d b) where
  same_index : index c a ≡ index d b
  same_index =
      table_low_injective (index c a) (index d b) (omega arith) (omega arith)
        (omega (arith, update_bytes c a pc, update_bytes d b pd, same))

  same_high : bit_xor (c / 2 ^ 8) a ≡ bit_xor (d / 2 ^ 8) b
  same_high = omega (
    arith,
    same_index,
    xor-lt_256 (c / 2 ^ 8) a (omega arith) pa,
    xor-lt_256 (d / 2 ^ 8) b (omega arith) pb,
  )

  same_entry : entry c a ≡ entry d b
  same_entry = ap (byte_at crc_table) same_index

  same_low : c % 2 ^ 8 ≡ d % 2 ^ 8
  same_low = xor_injective (c % 2 ^ 8) (d % 2 ^ 8) (entry c a / 2 ^ 8) (
      xor_comm (c % 2 ^ 8) (entry c a / 2 ^ 8)
      ∙ top
      ∙ ap (λ t. bit_xor (t / 2 ^ 8) (d % 2 ^ 8)) (sym same_entry)
      ∙ xor_comm (entry c a / 2 ^ 8) (d % 2 ^ 8))
    where
      top : bit_xor (entry c a / 2 ^ 8) (c % 2 ^ 8) ≡ bit_xor (entry d b / 2 ^ 8) (d % 2 ^ 8)
      top = omega (arith, update_bytes c a pc, update_bytes d b pd, same)

-- Different registers stay different under the same byte.
pub crc16_update_injective_crc :
    (c d b : ℕ) → c < 2 ^ 16 → d < 2 ^ 16 → b < 256 → crc16_update c b ≡ crc16_update d b → c ≡ d
crc16_update_injective_crc c d b pc pd pb e = omega (
  arith,
  same_low c d b b pc pd pb pb e,
  xor_injective (c / 2 ^ 8) (d / 2 ^ 8) b (same_high c d b b pc pd pb pb e),
)

-- Different bytes make the same register differ.
pub crc16_update_injective_byte :
    (c a b : ℕ) → c < 2 ^ 16 → a < 256 → b < 256 → crc16_update c a ≡ crc16_update c b → a ≡ b
crc16_update_injective_byte c a b pc pa pb e =
    xor_injective a b (c / 2 ^ 8)
      (xor_comm a (c / 2 ^ 8) ∙ same_high c c a b pc pc pa pb e ∙ xor_comm (c / 2 ^ 8) b)

pub crc16_from_injective :
    (c d : ℕ) (buf : List ℕ)
    → c < 2 ^ 16
    → d < 2 ^ 16
    → AllBytes buf
    → crc16_from c buf ≡ crc16_from d buf
    → c ≡ d
unfolding crc16_from
crc16_from_injective c d [] pc pd h e = e
crc16_from_injective c d (b ∷ bs) pc pd h e = crc16_update_injective_crc c d b pc pd h.0 (
    crc16_from_injective (crc16_update c b) (crc16_update d b) bs (crc16_update-lt c b)
      (crc16_update-lt d b) h.1 e)

crc16_from_single :
    (c : ℕ) (xs : List ℕ) (a b : ℕ) (ys : List ℕ)
    → c < 2 ^ 16
    → AllBytes ys
    → a < 256
    → b < 256
    → crc16_from c (xs ++ a ∷ ys) ≡ crc16_from c (xs ++ b ∷ ys)
    → a ≡ b
unfolding crc16_from
crc16_from_single c [] a b ys pc h pa pb e = crc16_update_injective_byte c a b pc pa pb (
    crc16_from_injective (crc16_update c a) (crc16_update c b) ys (crc16_update-lt c a)
      (crc16_update-lt c b) h e)
crc16_from_single c (x ∷ xs) a b ys pc h pa pb e =
    crc16_from_single (crc16_update c x) xs a b ys (crc16_update-lt c x) h pa pb e

-- Two buffers that differ in exactly one byte have different CRCs.
pub crc16_block_single :
    (xs : List ℕ) (a b : ℕ) (ys : List ℕ)
    → AllBytes ys
    → a < 256
    → b < 256
    → a ≢ b
    → crc16_block (xs ++ a ∷ ys) ≢ crc16_block (xs ++ b ∷ ys)
unfolding crc16_block
crc16_block_single xs a b ys h pa pb ne e =
    ne (crc16_from_single 0xFFFF xs a b ys (omega arith) h pa pb e)

pub crc16_from-lt : (c : ℕ) (buf : List ℕ) → c < 2 ^ 16 → crc16_from c buf < 2 ^ 16
unfolding crc16_from
crc16_from-lt c [] p = p
crc16_from-lt c (b ∷ bs) p = crc16_from-lt (crc16_update c b) bs (crc16_update-lt c b)

pub crc16_block-lt : (buf : List ℕ) → crc16_block buf < 2 ^ 16
unfolding crc16_block
crc16_block-lt buf = crc16_from-lt 0xFFFF buf (omega arith)
