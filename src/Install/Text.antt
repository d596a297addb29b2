-- ===== src/Install/Text.antt =====
-- dos/src/serdfs.c: `appendulong`, and the texts that `main` prints of the counters and the drives.
-- A text ends in the dollar sign that DOS stops at.
pub mod Digits
use serial_dfs.Base.{
  ℕ, zero, suc, ◌+◌, ◌-◌, ◌/◌, ◌%◌, ◌==◌, ltb, if◌then◌else◌, List, [], ◌∷◌, ◌++◌, byte_at,
}
use serial_dfs.Rpc.{Stats}

-- The digits of `val` in front of `out`, last digit first, with `left` bytes of `tmp` to go.
pub digits_from : ℕ → ℕ → List ℕ → List ℕ
digits_from zero val out = out
digits_from (suc left) val out =
    let out' = (b'0' + val % 10) ∷ out in
    let rest = digits_from left (val / 10) out' in if ltb 0 (val / 10) then rest else out'

-- The bytes that `appendulong` stores; their number is what it returns.
pub appendulong : ℕ → List ℕ
appendulong val = digits_from 10 val []

-- The two lines of /STATS.
pub traffic_line : Stats → List ℕ
traffic_line c =
    b'T'
    ∷ b'X'
    ∷ b':'
    ∷ (appendulong c.tx_bytes
        ++ (b' ' ∷ b'R' ∷ b'X' ∷ b':' ∷ (appendulong c.rx_bytes ++ 13 ∷ 10 ∷ b'$' ∷ [])))

pub errors_line : Stats → List ℕ
errors_line c =
    b'T'
    ∷ b'O'
    ∷ b':'
    ∷ (appendulong c.timeouts
        ++ (b' '
            ∷ b'R'
            ∷ b'T'
            ∷ b':'
            ∷ (appendulong c.retries
                ++ (b' ' ∷ b'C' ∷ b'E' ∷ b':' ∷ (appendulong c.crc_errs ++ 13 ∷ 10 ∷ b'$' ∷ [])))))

-- The rate that the divisor stands for, and the line about the port.
unfoldable pub rate_of : ℕ → ℕ
rate_of baudiv =
    if baudiv == 12
    then 9600
    else if baudiv == 6
    then 19200
    else if baudiv == 3
    then 38400
    else if baudiv == 2
    then 57600
    else 115200

-- The loop over the digits of the rate has no bound of its own; a rate has six at most.
pub port_line : ℕ → ℕ → List ℕ
port_line comport baudiv =
    b'C'
    ∷ b'O'
    ∷ b'M'
    ∷ (b'0' + comport)
    ∷ b' '
    ∷ b'@'
    ∷ b' '
    ∷ (digits_from 10 (rate_of baudiv) [] ++ b'b' ∷ b'a' ∷ b'u' ∷ b'd' ∷ b')' ∷ 13 ∷ 10 ∷ b'$' ∷ [])

-- The lines of the drives from `i` on, of which `left` are to go.
pub drive_lines : List ℕ → ℕ → ℕ → List (List ℕ)
drive_lines ldrv zero i = []
drive_lines ldrv (suc left) i =
    let rest = drive_lines ldrv left (i + 1) in
    if byte_at ldrv i == 0xFF
    then rest
    else (b' '
        ∷ (b'A' + i)
        ∷ b':'
        ∷ b' '
        ∷ b'-'
        ∷ b'>'
        ∷ b' '
        ∷ b'['
        ∷ (b'A' + byte_at ldrv i)
        ∷ b':'
        ∷ b']'
        ∷ 13
        ∷ 10
        ∷ b'$'
        ∷ [])
      ∷ rest
