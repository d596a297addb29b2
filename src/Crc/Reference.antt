-- ===== src/Crc/Reference.antt =====
-- The table-driven `crc16_update` against the bit-serial division that CRC-16/CCITT-FALSE is
-- defined by (protocol/spec.txt, section 2).
use serial_dfs.Base.{
  ℕ, zero, suc, ltb, if◌then◌else◌, Bool-cases, inl, inr, ◌-◌, ◌≤◌, ◌+◌, ◌*◌, ◌/◌, ◌%◌, ◌^◌, ◌<◌,
  ◌==◌, ==_iff, ◌≡◌, refl, ap, sym, ◌∙◌, arith, bit_xor, ◌≡⟨◌⟩◌, ◌∎, List, [], ◌∷◌, byte_at, true,
  AllBytes,
}
use mathlib.Core.Path.{subst}
use serial_dfs.Base.Xor.{xor_fields, xor-zero, zero-xor}
use serial_dfs.Base.Table.{all_below, all_below_sound}
use serial_dfs.Crc.{
  crc_shift, crc_shifts, crc_init, crc_table, crc16_update, crc16_from, crc16_block,
}
use serial_dfs.Crc.Linear.{
  crc_shift_low, crc_shift_high, crc_shift-lt, crc_shifts-xor, crc_shifts-lt,
}

-- One bit: the register moves up, and the polynomial x^16 + x^12 + x^5 + 1 is added if the bit that
-- leaves it at the top is set.
abbrev pub polynomial : ℕ
polynomial = 2 ^ 12 + 2 ^ 5 + 1

pub serial_bit : ℕ → ℕ
serial_bit v = if ltb v (2 ^ 15) then v * 2 else bit_xor ((v - 2 ^ 15) * 2) polynomial

pub serial_bits : ℕ → ℕ → ℕ
serial_bits zero v = v
serial_bits (suc n) v = serial_bits n (serial_bit v)

-- One byte into the register, bit by bit: the byte is added at the top, then eight rounds.
pub crc_serial : ℕ → ℕ → ℕ
crc_serial crc b = serial_bits 8 (bit_xor crc (b * 2 ^ 8))

pub crc_serial_from : ℕ → List ℕ → ℕ
crc_serial_from crc [] = crc
crc_serial_from crc (b ∷ bs) = crc_serial_from (crc_serial crc b) bs

-- A round of the table's construction is one bit.
crc_shift-eq-serial_bit : (v : ℕ) → v < 2 ^ 16 → crc_shift v ≡ serial_bit v
unfolding serial_bit
crc_shift-eq-serial_bit v h = elim (Bool-cases (ltb v (2 ^ 15))) [
  | inl low ↦ rw low (crc_shift_low v (ground (arith, low)))
  | inr high ↦
      let top : 2 ^ 15 ≤ v = ground (arith, high) in
      rw high (ap crc_shift (omega (arith, top)) ∙ crc_shift_high (v - 2 ^ 15) (omega (arith, h)))
]

crc_shifts-eq-serial_bits : (n v : ℕ) → v < 2 ^ 16 → crc_shifts n v ≡ serial_bits n v
unfolding crc_shifts serial_bits
crc_shifts-eq-serial_bits zero v h = refl
crc_shifts-eq-serial_bits (suc n) v h =
    crc_shifts-eq-serial_bits n (crc_shift v) (crc_shift-lt v)
    ∙ ap (serial_bits n) (crc_shift-eq-serial_bit v h)

table_entries :
    (let t = crc_table in all_below 256 (λ i. byte_at t i == crc_shifts 8 (i * 2 ^ 8))) ≡ true
unfolding crc_table crc_init crc_shifts crc_shift all_below
table_entries = refl

pub crc_table_entry : (i : ℕ) → i < 256 → byte_at crc_table i ≡ crc_shifts 8 (i * 2 ^ 8)
crc_table_entry i h =
    (==_iff (byte_at crc_table i) (crc_shifts 8 (i * 2 ^ 8))).0
      (all_below_sound 256 (λ i. byte_at crc_table i == crc_shifts 8 (i * 2 ^ 8)) i table_entries h)

low_table : all_below 256 (λ l. crc_shifts 8 l == l * 2 ^ 8) ≡ true
unfolding crc_shifts crc_shift all_below
low_table = refl

-- A low byte only moves up: no bit of it reaches the top in eight rounds.
crc_shifts_low : (l : ℕ) → l < 256 → crc_shifts 8 l ≡ l * 2 ^ 8
crc_shifts_low l h =
    (==_iff (crc_shifts 8 l) (l * 2 ^ 8)).0
      (all_below_sound 256 (λ l. crc_shifts 8 l == l * 2 ^ 8) l low_table h)

module _ (h l b : ℕ) (p : h < 256) (q : l < 256) (r : b < 256) where
  index-lt : bit_xor h b < 256
  index-lt = (xor_fields 8 0 h 0 b p r).1

  serial_parts :
      crc_serial (h * 2 ^ 8 + l) b ≡ bit_xor (crc_shifts 8 (bit_xor h b * 2 ^ 8)) (l * 2 ^ 8)
  unfolding crc_serial
  serial_parts =
      serial_bits 8 (bit_xor (h * 2 ^ 8 + l) (b * 2 ^ 8))
      ≡⟨ sym (crc_shifts-eq-serial_bits 8 _ (omega (arith, in_register))) ⟩
        crc_shifts 8 (bit_xor (h * 2 ^ 8 + l) (b * 2 ^ 8))
      ≡⟨ ap (crc_shifts 8) split ⟩ crc_shifts 8 (bit_xor (bit_xor h b * 2 ^ 8) l)
      ≡⟨ crc_shifts-xor 8 (bit_xor h b * 2 ^ 8) l (omega (arith, index-lt)) (omega arith) ⟩
        bit_xor (crc_shifts 8 (bit_xor h b * 2 ^ 8)) (crc_shifts 8 l)
      ≡⟨ ap (bit_xor (crc_shifts 8 (bit_xor h b * 2 ^ 8))) (crc_shifts_low l q) ⟩
        bit_xor (crc_shifts 8 (bit_xor h b * 2 ^ 8)) (l * 2 ^ 8) ∎
    where
      in_register : bit_xor (h * 2 ^ 8 + l) (b * 2 ^ 8) < 2 ^ 16
      in_register = (xor_fields 16 0 (h * 2 ^ 8 + l) 0 (b * 2 ^ 8) (omega arith) (omega arith)).1

      pad : bit_xor (h * 2 ^ 8 + l) (b * 2 ^ 8 + 0) ≡ bit_xor h b * 2 ^ 8 + l
      pad = omega (arith, (xor_fields 8 h l b 0 q (omega arith)).0, xor-zero l)

      unpad : bit_xor (bit_xor h b * 2 ^ 8 + 0) (0 * 2 ^ 8 + l) ≡ bit_xor h b * 2 ^ 8 + l
      unpad = omega (
        arith,
        (xor_fields 8 (bit_xor h b) 0 0 l (omega arith) q).0,
        zero-xor l,
        xor-zero (bit_xor h b),
      )

      split : bit_xor (h * 2 ^ 8 + l) (b * 2 ^ 8) ≡ bit_xor (bit_xor h b * 2 ^ 8) l
      split = ground (arith, pad, unpad)

  update_parts :
      crc16_update (h * 2 ^ 8 + l) b ≡ bit_xor (crc_shifts 8 (bit_xor h b * 2 ^ 8)) (l * 2 ^ 8)
  unfolding crc16_update
  update_parts = ground (
    arith,
    index-lt,
    crc_table_entry (bit_xor h b) index-lt,
    crc_shifts-lt 8 (bit_xor h b * 2 ^ 8) (omega (arith, index-lt)),
    ap (λ t. bit_xor t b) high,
    ap (bit_xor (crc_shifts 8 (bit_xor h b * 2 ^ 8))) up,
    fields.0,
    fields.1,
  )
    where
      high : (h * 2 ^ 8 + l) / 2 ^ 8 ≡ h
      high = omega arith

      up : (h * 2 ^ 8 + l) * 2 ^ 8 ≡ h * 2 ^ 16 + l * 2 ^ 8
      up = omega arith

      fields :
          (bit_xor (0 * 2 ^ 16 + crc_shifts 8 (bit_xor h b * 2 ^ 8)) (h * 2 ^ 16 + l * 2 ^ 8)
            ≡ bit_xor 0 h * 2 ^ 16 + bit_xor (crc_shifts 8 (bit_xor h b * 2 ^ 8)) (l * 2 ^ 8))
          × (bit_xor (crc_shifts 8 (bit_xor h b * 2 ^ 8)) (l * 2 ^ 8) < 2 ^ 16)
      fields =
          xor_fields 16 0 (crc_shifts 8 (bit_xor h b * 2 ^ 8)) h (l * 2 ^ 8)
            (crc_shifts-lt 8 (bit_xor h b * 2 ^ 8) (omega (arith, index-lt))) (omega arith)

split_byte : (crc : ℕ) → crc ≡ crc / 2 ^ 8 * 2 ^ 8 + crc % 2 ^ 8
split_byte crc = omega arith

-- One byte by the table is one byte by the bit-serial register.
pub crc16_update-eq-crc_serial :
    (crc b : ℕ) → crc < 2 ^ 16 → b < 256 → crc16_update crc b ≡ crc_serial crc b
crc16_update-eq-crc_serial crc b p q =
    subst (λ c. crc16_update c b ≡ crc_serial c b) (sym (split_byte crc))
      (update_parts (crc / 2 ^ 8) (crc % 2 ^ 8) b (omega arith) (omega arith) q
        ∙ sym (serial_parts (crc / 2 ^ 8) (crc % 2 ^ 8) b (omega arith) (omega arith) q))

pub crc16_update-lt : (crc b : ℕ) → crc16_update crc b < 2 ^ 16
unfolding crc16_update
crc16_update-lt crc b = omega arith

crc16_from-eq-crc_serial_from :
    (crc : ℕ) (buf : List ℕ)
    → crc < 2 ^ 16
    → AllBytes buf
    → crc16_from crc buf ≡ crc_serial_from crc buf
unfolding crc16_from crc_serial_from
crc16_from-eq-crc_serial_from crc [] p h = refl
crc16_from-eq-crc_serial_from crc (b ∷ bs) p h =
    crc16_from-eq-crc_serial_from (crc16_update crc b) bs (crc16_update-lt crc b) h.1
    ∙ ap (λ c. crc_serial_from c bs) (crc16_update-eq-crc_serial crc b p h.0)

-- On every buffer of bytes `crc16_block`, with its table, gives what the bit-serial register of
-- CRC-16/CCITT-FALSE holds after them: the polynomial x^16 + x^12 + x^5 + 1, from 0xFFFF, the high
-- bit of each byte first, and nothing added at the end.
pub crc16_block-eq-crc_serial_from :
    (buf : List ℕ) → AllBytes buf → crc16_block buf ≡ crc_serial_from 0xFFFF buf
unfolding crc16_block
crc16_block-eq-crc_serial_from buf h = crc16_from-eq-crc_serial_from 0xFFFF buf (omega arith) h
