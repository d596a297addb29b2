-- ===== src/Install.antt =====
-- dos/src/serdfs.c: `struct argstruct` and `parseargv`, the command line of the installer.
-- An argument is the list of its bytes, and a read past its end gives the NUL. The 32 bits of `baud`
-- wrap round.
pub mod Drives
pub mod Multiplex
pub mod Patch
pub mod Text
pub mod Options
pub mod Mapped
pub mod Accepted
use serial_dfs.Base.{
  ℕ, ◌+◌, ◌-◌, ◌*◌, ◌==◌, ltb, leb, not, ◌&&◌, ◌||◌, if◌then◌else◌, Bool, true, List, [], ◌∷◌,
  byte_at, u32, set, drop, bit_and, bit_or, ◌⊎◌, inl, inr,
}
use serial_dfs.Uart.{baud_to_div}

-- The fields of `struct argstruct` that the parser sets, `glob_data.ldrv` and `drivemapflag`.
pub record Args : Type 0 where
  pub comport : ℕ
  pub baudiv : ℕ
  pub flags : ℕ
  pub ldrv : List ℕ
  pub mapped : Bool

-- A chain of tests `a[0]==... && a[1]==...`, from `a[i]` on.
unfoldable pub starts_with : List ℕ → List ℕ → Bool
starts_with [] a = true
starts_with (c ∷ text) a = let rest = starts_with text (drop 1 a) in byte_at a 0 == c && rest

abbrev pub is_upper : ℕ → Bool
is_upper c = leb b'A' c && leb c b'Z'

-- The loop over the digits of a baud rate: the value and what is left.
unfoldable pub baud_value : List ℕ → ℕ → ℕ × List ℕ
baud_value [] baud = (baud, [])
baud_value (c ∷ p) baud =
    let rest = baud_value p (u32 (baud * 10 + (c - b'0'))) in
    if leb b'0' c && leb c b'9' then rest else (baud, c ∷ p)

-- An argument such as "C-X".
unfoldable pub parse_drive : List ℕ → Args → ℕ ⊎ Args
parse_drive a s =
    let rdrv = byte_at a 0 - b'A' in
    let ldrv = byte_at a 2 - b'A' in
    if ltb 25 ldrv || ltb 25 rdrv
    then inl 2
    else if not (byte_at s.ldrv ldrv == 0xFF)
    then inl 2
    else inr (record s { ldrv = set s.ldrv ldrv rdrv; mapped = true })

pub parse_baud : List ℕ → Args → ℕ ⊎ Args
parse_baud p s =
    let (baud, rest) = baud_value p 0 in
    if byte_at p 0 == 0
    then inl 4
    else if not (byte_at rest 0 == 0)
    then inl 4
    else if baud_to_div baud == 0
    then inl 4
    else inr (record s { baudiv = baud_to_div baud })

-- An option, behind its slash.
unfoldable pub parse_option : List ℕ → Args → ℕ ⊎ Args
parse_option a s =
    if starts_with (b'C' ∷ b'O' ∷ b'M' ∷ []) a
    then if byte_at a 3 == b'1' && byte_at a 4 == 0
      then inr (record s { comport = 1 })
      else if byte_at a 3 == b'2' && byte_at a 4 == 0
      then inr (record s { comport = 2 })
      else inl 4
    else if starts_with (b'B' ∷ b'A' ∷ b'U' ∷ b'D' ∷ b':' ∷ []) a
    then parse_baud (drop 5 a) s
    else if starts_with (b'S' ∷ b'T' ∷ b'A' ∷ b'T' ∷ b'S' ∷ 0 ∷ []) a
    then inr (record s { flags = bit_or s.flags 8 })
    else if starts_with (b'S' ∷ b'T' ∷ b'A' ∷ b'T' ∷ b'U' ∷ b'S' ∷ 0 ∷ []) a
    then inr (record s { flags = bit_or s.flags 4 })
    else if starts_with (b'N' ∷ b'O' ∷ b'S' ∷ b'T' ∷ b'A' ∷ b'T' ∷ b'U' ∷ b'S' ∷ 0 ∷ []) a
    then inr (record s { flags = bit_and s.flags 0xFB })
    else if (byte_at a 0 == b'q' || byte_at a 0 == b'Q') && byte_at a 1 == 0
    then inr (record s { flags = bit_or s.flags 1 })
    else if (byte_at a 0 == b'u' || byte_at a 0 == b'U') && byte_at a 1 == 0
    then inr (record s { flags = bit_or s.flags 2 })
    else inl 5

unfoldable pub parse_arg : List ℕ → Args → ℕ ⊎ Args
parse_arg a s =
    if is_upper (byte_at a 0)
      && (byte_at a 1 == b'-' && (is_upper (byte_at a 2) && byte_at a 3 == 0))
    then parse_drive a s
    else if not (byte_at a 0 == b'/')
    then inl 3
    else parse_option (drop 1 a) s

-- What follows the loop.
unfoldable pub check_args : Args → ℕ ⊎ Args
check_args s =
    if not (bit_and s.flags 2 == 0)
    then if s.mapped then inl 1 else inr s
    else if not (bit_and s.flags 8 == 0)
    then inr s
    else if not s.mapped
    then inl 6
    else if s.comport == 0
    then inl 7
    else inr (if s.baudiv == 0 then record s { baudiv = 12 } else s)

-- `parseargv` on `argv[1]` and the arguments behind it. `inl n` is the return of -n.
unfoldable pub parseargv : List (List ℕ) → Args → ℕ ⊎ Args
parseargv [] s = check_args s
parseargv (a ∷ argv) s = elim (parse_arg a s) [ inl error ↦ inl error | inr s' ↦ parseargv argv s' ]
