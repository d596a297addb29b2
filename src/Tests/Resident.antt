-- ===== src/Tests/Resident.antt =====
-- The resident program on a dead line.
use serial_dfs.Base.{ℕ, ◌%◌, ◌^◌, Bool, true, List, some, replicate, ◌≡◌, refl, arith}
use serial_dfs.Redirector.Files.{al_readfil, read_request, chunk_size}
use serial_dfs.Redirector.Files.Silent.{al_readfil-silent}
use serial_dfs.Command.{cmd_read}
use serial_dfs.Frame.{frame_encode}
use serial_dfs.Rpc.{Rpc, serial_rpc, next_seq}
use serial_dfs.Redirector.State.{Tsr, sft_of}
use serial_dfs.Redirector.Dispatch.{inthandler, process2f}
use serial_dfs.Redirector.Dispatch.Fits.{watched, AllFit, process2f-AllFit}
use serial_dfs.Redirector.Dispatch.Resident.{IsResident, OutcomeStays, inthandler-Stays}
use serial_dfs.Tests.State.{state}
use serial_dfs.Tests.Calls.{dead, idle, recorder, recorder-Logs, recording}

-- A read of four bytes from the open file.
abbrev reading : Tsr (Rpc ℕ)
reading =
    let t : Tsr (Rpc ℕ) = state 0 (replicate 506 0) idle in
    record t { regs = record (t.regs) { ax = 0x1108 } }

is_resident : IsResident reading
is_resident = record {
  cache_size = refl;
  few_entries = omega arith;
  bounded = record {
    seq_lt = omega arith;
    tx_lt = omega arith;
    rx_lt = omega arith;
    crc_lt = omega arith;
    timeouts_lt = omega arith;
    retries_lt = omega arith;
  };
}

inthandler-Stays_example :
    OutcomeStays reading (inthandler (serial_rpc dead) 9 0 68 0x1234 0x100 0x5000 reading)
inthandler-Stays_example = inthandler-Stays dead 9 0 68 0x1234 0x100 0x5000 reading is_resident

-- The same request, watched.
abbrev watched_reading : Tsr (Rpc ℕ × Bool)
watched_reading =
    let t : Tsr (Rpc ℕ × Bool) = state 0 (replicate 506 0) (idle, true) in
    record t { regs = record (t.regs) { ax = 0x1108 } }

process2f-AllFit_example : AllFit (process2f (watched (serial_rpc dead)) 9 0 watched_reading)
process2f-AllFit_example = process2f-AllFit (serial_rpc dead) 9 0 watched_reading refl

-- The same request on the line that records.
abbrev recorded : Tsr (Rpc (List (ℕ × List ℕ)))
recorded =
    let t : Tsr (Rpc (List (ℕ × List ℕ))) = state 0 (replicate 506 0) recording in
    record t { regs = record (t.regs) { ax = 0x1108 } }

al_readfil-silent_example :
    (s : Rpc (List (ℕ × List ℕ))) × (frame : List ℕ) × (al_readfil (serial_rpc recorder) 0 recorded
      ≡ some (record recorded { regs = record (recorded.regs) { ax = 2; carry = true }; rpc = s }))
    × (frame_encode cmd_read
          (next_seq 255)
          0
          0
          (read_request (sft_of recorded) (chunk_size 512 recorded.regs.cx 0) 0)
        ≡ some frame)
    × (s.link ≡ replicate 10 (recorded.comport, frame))
    × (s.stats.tx_bytes % 2 ^ 32 ≡ 190 % 2 ^ 32)
    × (s.stats.retries % 2 ^ 16 ≡ 9 % 2 ^ 16)
al_readfil-silent_example =
    al_readfil-silent recorder (λ w. w) recorder-Logs 0 recorded (λ w. omega arith) refl
      (omega arith)
