-- ===== src/Crc.antt =====
-- dos/src/serframe.c: the table-driven CRC-16/CCITT-FALSE.
pub mod Linear
pub mod Reference
pub mod Detect
use serial_dfs.Base.{
  ℕ, zero, suc, ◌+◌, ◌*◌, ◌/◌, ◌^◌, ◌==◌, if◌then◌else◌, List, [], ◌∷◌, u8, u16, byte_at, set,
  replicate, bit_and, bit_xor,
}

-- One round of the inner loop of `crc_init`: `v` shifted left, reduced by the polynomial.
unfoldable pub crc_shift : ℕ → ℕ
crc_shift v = u16 (if bit_and v 0x8000 == 0 then v * 2 else bit_xor (v * 2) 0x1021)

-- The inner loop, `n` rounds of it.
unfoldable pub crc_shifts : ℕ → ℕ → ℕ
crc_shifts zero v = v
crc_shifts (suc n) v = crc_shifts n (crc_shift v)

-- `crc_init`, from index `i` with `n` rounds left.
unfoldable pub crc_init : ℕ → ℕ → List ℕ → List ℕ
crc_init zero i table = table
crc_init (suc n) i table = crc_init n (i + 1) (set table i (crc_shifts 8 (i * 2 ^ 8)))

-- `crc_table` as every reader finds it: each tests `crc_ready` first and calls `crc_init` once.
unfoldable pub crc_table : List ℕ
crc_table = crc_init 256 0 (replicate 256 0)

unfoldable pub crc16_update : ℕ → ℕ → ℕ
crc16_update crc b = u16 (bit_xor (byte_at crc_table (u8 (bit_xor (crc / 2 ^ 8) b))) (crc * 2 ^ 8))

-- The loop of `crc16_block` over the bytes that are left.
unfoldable pub crc16_from : ℕ → List ℕ → ℕ
crc16_from crc [] = crc
crc16_from crc (b ∷ bs) = crc16_from (crc16_update crc b) bs

unfoldable pub crc16_block : List ℕ → ℕ
crc16_block buf = crc16_from 0xFFFF buf
