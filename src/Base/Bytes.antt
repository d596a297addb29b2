-- ===== src/Base/Bytes.antt =====
-- Bytes and 16-bit words: casts, little-endian fields, and the predicate that a list holds bytes.
use Prim.Native.Nat.{ℕ, zero, suc, ◌+◌, ◌*◌, ◌/◌, ◌%◌, ◌^◌, ◌<◌}
use mathlib.Core.List.{List, [], ◌∷◌, ◌++◌}
use native.Mathlib.Omega.{arith}
use serial_dfs.Base.Lists.{get_or, take, drop}

-- `(unsigned char)x` and `x & 0xFF`.
abbrev pub u8 : ℕ → ℕ
u8 n = n % 2 ^ 8

-- `(unsigned short)x`, the 16-bit `unsigned int` of the compiler's model, and `x & 0xFFFF`.
abbrev pub u16 : ℕ → ℕ
u16 n = n % 2 ^ 16

-- `(unsigned long)x`.
abbrev pub u32 : ℕ → ℕ
u32 n = n % 2 ^ 32

-- `lo | (hi << 8)` of two bytes.
abbrev pub le16 : ℕ → ℕ → ℕ
le16 lo hi = lo + hi * 2 ^ 8

-- `buf[i]`. A read past the list's end gives 0.
abbrev pub byte_at : List ℕ → ℕ → ℕ
byte_at buf i = get_or buf i 0

-- `*(unsigned short far *)&buf[i]` and `*(unsigned long far *)&buf[i]`.
abbrev pub word_at : List ℕ → ℕ → ℕ
word_at buf i = le16 (byte_at buf i) (byte_at buf (i + 1))

abbrev pub dword_at : List ℕ → ℕ → ℕ
dword_at buf i = word_at buf i + word_at buf (i + 2) * 2 ^ 16

-- The bytes that `*(unsigned short far *)p = x` and `*(unsigned long far *)p = x` store.
abbrev pub word_bytes : ℕ → List ℕ
word_bytes x = u8 x ∷ u8 (x / 2 ^ 8) ∷ []

abbrev pub dword_bytes : ℕ → List ℕ
dword_bytes x = u8 x ∷ u8 (x / 2 ^ 8) ∷ u8 (x / 2 ^ 16) ∷ u8 (x / 2 ^ 24) ∷ []

abbrev pub AllBytes : List ℕ → Type 0
AllBytes [] = Unit
AllBytes (x ∷ xs) = (x < 256) × AllBytes xs

pub AllBytes-append : (xs ys : List ℕ) → AllBytes xs → AllBytes ys → AllBytes (xs ++ ys)
AllBytes-append [] ys h k = k
AllBytes-append (x ∷ xs) ys h k = (h.0, AllBytes-append xs ys h.1 k)

pub AllBytes-take : (n : ℕ) (xs : List ℕ) → AllBytes xs → AllBytes (take n xs)
AllBytes-take zero xs h = tt
AllBytes-take (suc n) [] h = tt
AllBytes-take (suc n) (x ∷ xs) h = (h.0, AllBytes-take n xs h.1)

pub AllBytes-drop : (n : ℕ) (xs : List ℕ) → AllBytes xs → AllBytes (drop n xs)
AllBytes-drop zero xs h = h
AllBytes-drop (suc n) [] h = tt
AllBytes-drop (suc n) (x ∷ xs) h = AllBytes-drop n xs h.1

pub byte_at-lt : (xs : List ℕ) (i : ℕ) → AllBytes xs → byte_at xs i < 256
byte_at-lt [] i h = omega arith
byte_at-lt (x ∷ xs) zero h = h.0
byte_at-lt (x ∷ xs) (suc i) h = byte_at-lt xs i h.1
