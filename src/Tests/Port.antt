-- ===== src/Tests/Port.antt =====
-- A machine whose clock ticks at each port read, with the byte 65 always there to be read.
use Prim.Native.Nat.{max}
use serial_dfs.Base.{ℕ, ◌+◌, ◌*◌, ◌%◌, ◌<◌, ◌≤◌, length, AllBytes, ◌≡◌, ◌≢◌, ◌⊎◌, inr, refl, arith}
use serial_dfs.Uart.{Hardware, ready, timed_out, stuck, wait_lsr, seruart_recv_block_timeout}
use serial_dfs.Rpc.{Stats}
use serial_dfs.StatusBar.{status_row}
use serial_dfs.StatusBar.Width.{length-status_row}
use serial_dfs.Uart.Clock.{Clock, IsLate, day_ticks, wait_lsr-Ends}
use serial_dfs.Uart.Receive.{seruart_recv_block_timeout_ends}

abbrev machine : Hardware ℕ
machine = record {
  inp = λ port w. (65, w + 1);
  outp = λ port v w. w;
  bios_ticks = λ w. w % day_ticks;
}

abbrev ticking : Clock machine
ticking = record {
  now = λ w. w;
  steps = λ w. 0;
  budget = 0;
  reads = λ w. refl;
  steps_bounded = λ w. omega arith;
  moves = λ port w. inr refl;
}

wait_lsr-Ends_example :
    let r = wait_lsr machine 9 0x3F8 1 100 5 100 in
    (r.0 ≢ stuck) × (r.0 ≡ timed_out → IsLate 5 100 r.1) × (100 ≤ r.1) × (r.1 ≤ max 100 105 + 1)
wait_lsr-Ends_example =
    wait_lsr-Ends machine ticking 0x3F8 1 5 100 9 100 (omega arith) (omega arith) (omega arith)
      (omega arith)

seruart_recv_block_timeout_ends_example :
    let r = seruart_recv_block_timeout machine 91 1 12 90 1000 in
    AllBytes r.0.1
    × (((r.0.0 ≡ ready) × (length r.0.1 ≡ 12))
        ⊎ ((r.0.0 ≡ timed_out) × (length r.0.1 < 12) × IsLate 90 1000 r.1))
    × (r.1 ≤ 1000 + 90 + 2 * 12)
seruart_recv_block_timeout_ends_example =
    seruart_recv_block_timeout_ends machine ticking 91 1 12 90 1000 (omega arith) (omega arith)

-- Counters of which one has ten digits.
abbrev counters : Stats
counters = record { tx_bytes = 4294967295; rx_bytes = 7; crc_errs = 0; timeouts = 12; retries = 3 }

length-status_row_example : length (status_row counters) ≡ 80
length-status_row_example = length-status_row counters
