-- ===== src/Tests/Programs.antt =====
-- Servers for the command-line programs.
use serial_dfs.Base.{
  ℕ, zero, suc, ◌+◌, ◌*◌, ◌<◌, ◌≤◌, ◌==◌, ◌++◌, leb, if◌then◌else◌, true, false, List, [], ◌∷◌, map,
  some, take, drop, length, length-take, replicate, byte_at, ◌≡◌, ◌↔◌, refl, arith, u32,
}
use serial_dfs.Crc.{
  crc16_block, crc16_from, crc16_update, crc_table, crc_init, crc_shifts, crc_shift,
}
use serial_dfs.Frame.{frame_encode, frame_header, crc_bytes}
use serial_dfs.Link.{Link}
use serial_dfs.Command.{cmd_list_dir, cmd_open, cmd_create, cmd_close, cmd_ping}
use serial_dfs.Install.{baud_value}
use serial_dfs.Uart.{baud_to_div}
use serial_dfs.Rpc.{ok}
use serial_dfs.Redirector.State.{Call}
use serial_dfs.Tools.{Driver, line, parse_line, parse_port, atol, is_space, skip_space, joined}
use serial_dfs.Tools.Serdir.Rounds.{entries}
use serial_dfs.Tools.Serdir.Listing.{main-two_batches}
use serial_dfs.Tools.Sertype.Whole.{Serves, main-prints_file}
use serial_dfs.Tools.Sercopy.Server.{Stores}
use serial_dfs.Tools.Sercopy.Whole.{main-copies_file, main-no_room}
use serial_dfs.Tools.Serren.Request.{first_path, second_part, main-request}
use serial_dfs.Tools.Serren.{request}
use serial_dfs.Tools.Serping.Answered.{PongArrives, main-PongArrives}
use serial_dfs.Tools.Serdir
use serial_dfs.Tools.Sertype
use serial_dfs.Tools.Sercopy
use serial_dfs.Tools.Serren
use serial_dfs.Tools.Serping

abbrev com1 : List ℕ
com1 = b'C' ∷ b'O' ∷ b'M' ∷ b'1' ∷ []

-- "9600"
abbrev rate : List ℕ
rate = b'9' ∷ b'6' ∷ b'0' ∷ b'0' ∷ []

understood : parse_line com1 rate ≡ line 1 12
unfolding parse_line parse_port atol is_space skip_space baud_value baud_to_div
understood = refl

abbrev driver : {S : Type 0} → Call S → Driver S
driver call = record { init = λ port div s. s; drain = λ port s. s; call = call }

abbrev path : List ℕ
path = b'\\' ∷ b'F' ∷ []

-- A directory of one entry, flagged, and then of two, the second of which is flagged too.
abbrev one_entry : List ℕ
one_entry = b'A' ∷ replicate 20 0 ++ 1 ∷ 0 ∷ []

abbrev two_entries : List ℕ
two_entries = b'B' ∷ replicate 22 0 ++ b'C' ∷ replicate 20 0 ++ 1 ∷ 0 ∷ []

abbrev lists : Driver ℕ
lists = driver (λ port cmd payload s.
    if cmd == cmd_list_dir then (ok 0 (7 ∷ one_entry), 1) else (ok 0 two_entries, s + 1))

clear : (i : ℕ) → i < 2 → byte_at two_entries (i * 23 + 22) ≡ 0
clear zero h = refl
clear (suc zero) h = refl
clear (suc (suc i)) h = absurd (omega arith)

main-two_batches_example :
    Serdir.main lists 2 (com1 ∷ rate ∷ path ∷ []) 0
    ≡ some (record {
      exit = 0;
      said = map Serdir.entry (entries 1 one_entry ++ entries 2 two_entries) ++ Serdir.total 3 ∷ [];
      state = 2;
    })
main-two_batches_example =
    main-two_batches lists com1 rate path 1 12 0 7 1 2 one_entry two_entries 0 1 2 understood refl
      refl (omega arith) (omega arith) refl (λ e. absurd (omega (arith, e))) (omega arith)
      (omega arith) refl clear

-- A server with a file of 600 bytes; the state is the position, or 1000 when it is closed.
abbrev file : List ℕ
file = replicate 600 65

abbrev reader : Driver ℕ
reader = driver (λ port cmd payload s.
    if cmd == cmd_open
    then (ok 0 (7 ∷ []), 0)
    else if cmd == cmd_close
    then (ok 0 [], 1000)
    else (ok 0 (take 512 (drop s file)), s + length (take 512 (drop s file))))

reads : Serves reader 1 7 file (λ p. p) 1000
reads = record { reads = λ p h. refl; closes = refl }

main-prints_file_example :
    (chunks : List (List ℕ)) × (joined chunks ≡ file)
    × (Sertype.main reader 3 (com1 ∷ rate ∷ path ∷ []) 5
        ≡ some (record {
          exit = 0;
          said = map Sertype.bytes chunks ++ Sertype.total (u32 (length file)) ∷ [];
          state = 1000;
        }))
main-prints_file_example =
    main-prints_file reader com1 rate path file 1 12 7 3 (λ p. p) 1000 5 understood refl reads
      (omega arith)

-- A server with room for so many bytes: what it holds, and whether it has refused or closed.
abbrev Held : Type 0
Held = List ℕ × ℕ

abbrev store : ℕ → Driver Held
store capacity = driver (λ port cmd payload s.
    if cmd == cmd_create
    then (ok 0 (7 ∷ []), ([], 0))
    else if cmd == cmd_close
    then (ok 0 [], (s.0, 2))
    else if leb (length s.0 + length (drop 1 payload)) capacity
    then (ok 0 [], (s.0 ++ drop 1 payload, 0))
    else (ok 5 [], (s.0, 1)))

stores :
    (capacity : ℕ)
    → Stores (store capacity) 1 7 capacity 5 (λ w. (w, 0)) (λ w. (w, 1)) (λ w. (w, 2))
stores capacity = record {
  takes = λ w c few fits.
      let e : leb (length w + length c) capacity ≡ true = ground (arith, fits) in ([], rw e);
  refuses = λ w c few over.
      let e : leb (length w + length c) capacity ≡ false = ground (arith, over) in ([], rw e);
  closes = λ w. refl;
  is_error = λ e. absurd (omega (arith, e));
}

main-copies_file_example :
    (dots : ℕ) × (Sercopy.main
        (store 600)
        (λ p. some file)
        3
        (com1 ∷ rate ∷ path ∷ path ∷ [])
        ([], 9)
      ≡ some (record {
        exit = 0;
        said = replicate dots Sercopy.dot ++ Sercopy.copied (u32 (length file)) path ∷ [];
        state = (file, 2);
      }))
main-copies_file_example =
    main-copies_file (store 600) (λ p. some file) com1 rate path path file 1 12 7 3 600 5
      (λ w. (w, 0)) (λ w. (w, 1)) (λ w. (w, 2)) ([], 9) understood refl refl (stores 600)
      (omega arith) (omega arith)

main-no_room_example :
    (k : ℕ) × (k ≤ 550)
    × (550 < k + 511)
    × (dots : ℕ) × (Sercopy.main
          (store 550)
          (λ p. some file)
          3
          (com1 ∷ rate ∷ path ∷ path ∷ [])
          ([], 9)
        ≡ some (record {
          exit = 1;
          said = replicate dots Sercopy.dot ++ Sercopy.write_error 5 ∷ [];
          state = (take k file, 1);
        }))
main-no_room_example =
    main-no_room (store 550) (λ p. some file) com1 rate path path file 1 12 7 3 550 5 (λ w. (w, 0))
      (λ w. (w, 1)) (λ w. (w, 2)) ([], 9) understood refl refl (stores 550) (omega arith)
      (omega arith)

abbrev renames : Driver (List ℕ)
renames = driver (λ port cmd payload s. (ok 0 [], payload))

main-request_example :
    (length (request path (b'G' ∷ [])) ≤ 512)
    × (first_path (request path (b'G' ∷ [])) ≡ path)
    × (first_path (second_part (request path (b'G' ∷ []))) ≡ b'G' ∷ [])
    × ((Serren.main renames (com1 ∷ rate ∷ path ∷ (b'G' ∷ []) ∷ []) []).exit ≡ 0)
    × ((Serren.main renames (com1 ∷ rate ∷ path ∷ (b'G' ∷ []) ∷ []) []).state
        ≡ request path (b'G' ∷ []))
main-request_example =
    main-request renames com1 rate path (b'G' ∷ []) 1 12 0 [] [] (request path (b'G' ∷ []))
      understood (λ e. absurd (omega (arith, e)), (λ e. absurd (omega (arith, e)), tt))
      (λ e. absurd (omega (arith, e)), tt) (omega arith) refl

-- A line that sends back what was sent.
abbrev echo : Link (List ℕ)
echo = record {
  drain = λ port w. [];
  send_block = λ port buf w. buf;
  recv_block = λ port len ticks w. (take len w, drop len w);
  recv_short = λ port len ticks w. omega (arith, length-take len w);
}

abbrev ping_frame : List ℕ
ping_frame = b'S' ∷ b'D' ∷ 1 ∷ 0 ∷ 1 ∷ 1 ∷ 0 ∷ 0 ∷ 0 ∷ 0 ∷ 110 ∷ 221 ∷ []

ping_encodes : frame_encode cmd_ping 1 0 0 [] ≡ some ping_frame
unfolding frame_encode frame_header crc_bytes crc16_block crc16_from crc16_update crc_table crc_init
    crc_shifts crc_shift
ping_encodes = refl

main-PongArrives_example :
    ((Serping.main echo (λ w. 0) (λ port div w. w) (com1 ∷ rate ∷ []) []).exit ≡ 0)
    ↔ PongArrives echo (λ w. 0) 1 ping_frame
main-PongArrives_example =
    main-PongArrives echo (λ w. 0) (λ port div w. w) com1 rate 1 12 [] ping_frame understood
      ping_encodes
