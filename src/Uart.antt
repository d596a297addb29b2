-- ===== src/Uart.antt =====
-- dos/src/seruart.h and dos/src/seruart.c: the polling 8250/16550 driver.
-- The machine outside is a state `W` with the port operations of conio.h and the BIOS tick counter
-- at 0040:006C, which a read leaves alone. A polling loop has fuel: `stuck` says that it ran out.
pub mod Clock
pub mod Receive
use serial_dfs.Base.{
  ℕ, zero, suc, ◌+◌, ◌-◌, ◌/◌, ◌^◌, ◌==◌, leb, not, if◌then◌else◌, List, [], ◌∷◌, u8, u32, bit_and,
  bit_or, byte_at,
}

pub record Hardware (W : Type 0) : Type 0 where
  -- `inp(port)` and `outp(port, value)`.
  pub inp : ℕ → W → ℕ × W
  pub outp : ℕ → ℕ → W → W
  -- The double word at 0040:006C.
  pub bios_ticks : W → ℕ

-- `com_base[port]`.
abbrev pub com_base : ℕ → ℕ
com_base port = byte_at (0 ∷ 0x3F8 ∷ 0x2F8 ∷ []) port

abbrev pub uart_lsr : ℕ
uart_lsr = 5

abbrev pub lsr_dr : ℕ
lsr_dr = 0x01

abbrev pub lsr_thre : ℕ
lsr_thre = 0x20

-- `seruart_baud_to_div`.
unfoldable pub baud_to_div : ℕ → ℕ
baud_to_div baud =
    if baud == 9600
    then 12
    else if baud == 19200
    then 6
    else if baud == 38400
    then 3
    else if baud == 57600
    then 2
    else if baud == 115200
    then 1
    else 0

-- How a polling loop ends.
pub data Wait : Type 0 where
  ready timed_out stuck : Wait

module _ {W : Type 0} (hw : Hardware W) where
  -- `seruart_ticks`.
  pub seruart_ticks : W → ℕ
  seruart_ticks w = hw.bios_ticks w

  -- `while (!(inp(base + UART_LSR) & mask)) if ((seruart_ticks() - start) >= limit) return;`
  pub wait_lsr : ℕ → ℕ → ℕ → ℕ → ℕ → W → Wait × W
  wait_lsr zero base mask start limit w = (stuck, w)
  wait_lsr (suc fuel) base mask start limit w =
      let (lsr, w1) = hw.inp (base + uart_lsr) w in
      let again = wait_lsr fuel base mask start limit w1 in
      if not (bit_and lsr mask == 0)
      then (ready, w1)
      else if leb limit (u32 (seruart_ticks w1 + 2 ^ 32 - start))
      then (timed_out, w1)
      else again

  pub seruart_init : ℕ → ℕ → W → W
  seruart_init port divisor w =
      let base = com_base port in
      let w1 = hw.outp (base + 1) 0x00 w in
      let w2 = hw.outp (base + 3) 0x80 w1 in
      let w3 = hw.outp (base + 0) (u8 divisor) w2 in
      let w4 = hw.outp (base + 1) (u8 (divisor / 2 ^ 8)) w3 in
      let w5 = hw.outp (base + 3) 0x03 w4 in
      let w6 = hw.outp (base + 2) 0xC7 w5 in
      let (iir, w7) = hw.inp (base + 2) w6 in
      let w8 = if bit_and iir 0xC0 == 0xC0 then w7 else hw.outp (base + 2) 0x00 w7 in
      hw.outp (base + 4) (bit_or (bit_or 0x01 0x02) 0x08) w8

  -- After 36 ticks the byte is given up silently.
  pub seruart_putchar : ℕ → ℕ → ℕ → W → W
  seruart_putchar fuel port c w =
      let (end, w1) = wait_lsr fuel (com_base port) lsr_thre (seruart_ticks w) 36 w in
      elim end [ ready ↦ hw.outp (com_base port) c w1 | _ ↦ w1 ]

  pub seruart_send_block : ℕ → ℕ → List ℕ → W → W
  seruart_send_block fuel port [] w = w
  seruart_send_block fuel port (c ∷ buf) w =
      seruart_send_block fuel port buf (seruart_putchar fuel port c w)

  -- The byte that went to `*c`, if the return is 1.
  pub seruart_getchar_timeout : ℕ → ℕ → ℕ → W → (Wait × ℕ) × W
  seruart_getchar_timeout fuel port ticks w =
      let (end, w1) = wait_lsr fuel (com_base port) lsr_dr (seruart_ticks w) ticks w in
      let (c, w2) = hw.inp (com_base port) w1 in
      elim end [
        | ready ↦ ((ready, u8 c), w2)
        | timed_out ↦ ((timed_out, 0), w1)
        | stuck ↦ ((stuck, 0), w1)
      ]

  -- The loop of `seruart_recv_block_timeout` with `len` bytes to go: how it ended and the bytes
  -- that went to `buf`, whose number is what it returns.
  pub recv_loop : ℕ → ℕ → ℕ → ℕ → ℕ → W → (Wait × List ℕ) × W
  recv_loop fuel base start limit zero w = ((ready, []), w)
  recv_loop fuel base start limit (suc len) w =
      let (end, w1) = wait_lsr fuel base lsr_dr start limit w in
      let (c, w2) = hw.inp base w1 in
      let rest = recv_loop fuel base start limit len w2 in
      elim end [
        | ready ↦ ((rest.0.0, u8 c ∷ rest.0.1), rest.1)
        | timed_out ↦ ((timed_out, []), w1)
        | stuck ↦ ((stuck, []), w1)
      ]

  pub seruart_recv_block_timeout : ℕ → ℕ → ℕ → ℕ → W → (Wait × List ℕ) × W
  seruart_recv_block_timeout fuel port len ticks w =
      recv_loop fuel (com_base port) (seruart_ticks w) ticks len w

  -- The loop of `seruart_drain` with `i` of its 64 reads left.
  pub drain_loop : ℕ → ℕ → W → W
  drain_loop base zero w = w
  drain_loop base (suc i) w =
      let (lsr, w1) = hw.inp (base + uart_lsr) w in
      let rest = drain_loop base i (hw.inp base w1).1 in
      if not (bit_and lsr lsr_dr == 0) then rest else w1

  pub seruart_drain : ℕ → W → W
  seruart_drain port w = drain_loop (com_base port) 64 w
