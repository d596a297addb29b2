-- ===== src/Tools/Serping.antt =====
-- dos/tools/serping.c: send a PING frame and wait for the answer, with the UART driver itself.
pub mod Answered
use serial_dfs.Base.{
  ℕ, ◌+◌, ◌-◌, ◌==◌, ltb, not, if◌then◌else◌, Bool, true, false, Option, none, some, List, [], ◌∷◌,
  ◌++◌, length,
}
use serial_dfs.Command.{cmd_ping}
use serial_dfs.Frame.{Decoded, frame_encode, frame_decode, wire_len}
use serial_dfs.Link.{Link}
use serial_dfs.Tools.{line, unknown_port, unsupported_baud, parse_line, Run}

-- `rc` of a failed `frame_decode` is its result here.
pub data Said : Type 0 where
  usage : Said
  unknown : List ℕ → Said
  unsupported : List ℕ → Said
  fail_header fail_oversized fail_payload : Said
  fail_decode : Decoded → Said
  fail_seq : Said
  fail_command : ℕ → Said
  fail_status : ℕ → Said
  answered : ℕ → Said
  answered_at_once : Said

-- The tests from `frame_decode` on, and the last line: `t0` and `t1` are the ticks.
pub judge : ℕ → ℕ → Decoded → Said
judge t0 t1 (Decoded.ok hdr p) =
    if not (hdr.seq == 1)
    then fail_seq
    else if not (hdr.command == cmd_ping)
    then fail_command hdr.command
    else if not (hdr.status == 0)
    then fail_status hdr.status
    else if ltb t0 t1
    then answered (t1 - t0)
    else answered_at_once
judge t0 t1 r = fail_decode r

pub passed : Said → Bool
passed (answered n) = true
passed answered_at_once = true
passed _ = false

module _ {W : Type 0} (io : Link W) (ticks : W → ℕ) (port : ℕ) where
  -- From the header on: what is said, and the machine afterwards.
  pub receive : ℕ → W → Said × W
  receive t0 w =
      let (head, w1) = io.recv_block port 10 36 w in
      let plen = wire_len head in
      let (got, w2) = io.recv_block port (plen + 2) 36 w1 in
      if ltb (length head) 10
      then (fail_header, w1)
      else if ltb 512 plen
      then (fail_oversized, w1)
      else if ltb (length got) (plen + 2)
      then (fail_payload, w2)
      else (judge t0 (ticks w2) (frame_decode (head ++ got)), w2)

  pub ping : W → Said × W
  ping w = elim (frame_encode cmd_ping 1 0 0 []) [
    | none ↦ receive (ticks w) (io.send_block port [] w)
    | some frame ↦ receive (ticks w) (io.send_block port frame w)
  ]

-- `main` on `argv[1]` and the arguments behind it. `init` is `seruart_init`.
pub main : {W : Type 0} → Link W → (W → ℕ) → (ℕ → ℕ → W → W) → List (List ℕ) → W → Run Said W
main io ticks init (port ∷ baud ∷ _) w = elim (parse_line port baud) [
  | unknown_port p ↦ record { exit = 1; said = unknown p ∷ []; state = w }
  | unsupported_baud b ↦ record { exit = 1; said = unsupported b ∷ []; state = w }
  | line n div ↦
      let (said, w') = ping io ticks n (io.drain n (init n div w)) in
      record { exit = if passed said then 0 else 1; said = said ∷ []; state = w' }
]
main io ticks init _ w = record { exit = 1; said = usage ∷ []; state = w }
