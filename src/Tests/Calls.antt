-- ===== src/Tests/Calls.antt =====
-- A line that delivers a script: each read takes the next entry of it.
use serial_dfs.Base.{
  ℕ, ◌%◌, ◌^◌, ◌<◌, ◌≤◌, List, [], ◌∷◌, ◌++◌, some, take, length, length-take, replicate, ◌≡◌, refl,
  arith,
}
use serial_dfs.Crc.{
  crc16_block, crc16_from, crc16_update, crc_table, crc_init, crc_shifts, crc_shift,
}
use serial_dfs.Frame.{frame_encode, frame_decode, frame_header, crc_bytes, wire_len}
use serial_dfs.Link.{Link}
use serial_dfs.Rpc.{
  Rpc, ok, err_timeout, err_payload, next_seq, judge, receive_body, attempt_rpc, rpc_loop,
  serial_rpc, count_timeout, count_retry, count_tx, count_rx,
}
use serial_dfs.Rpc.Accept.{Arrives, asked}
use serial_dfs.Rpc.Log.{Logs}
use serial_dfs.Rpc.Retry.{Fails, here, again}
use serial_dfs.Rpc.Call.{
  numbered, serial_rpc-Arrives, Arrives-serial_rpc, serial_rpc-timeout, serial_rpc-err_payload,
  serial_rpc-silent,
}

abbrev read_script : ℕ → ℕ → ℕ → List (List ℕ) → List ℕ × List (List ℕ)
read_script port len ticks [] = ([], [])
read_script port len ticks (c ∷ cs) = (take len c, cs)

read_short :
    (port len ticks : ℕ) (w : List (List ℕ)) → length (read_script port len ticks w).0 ≤ len
read_short port len ticks [] = omega arith
read_short port len ticks (c ∷ cs) = omega (arith, length-take len c)

abbrev scripted : Link (List (List ℕ))
scripted = record {
  drain = λ port w. w;
  send_block = λ port buf w. w;
  recv_block = read_script;
  recv_short = read_short;
}

-- Nothing, then the answer "AB" to the call with the sequence number 5.
abbrev script : List (List ℕ)
script = [] ∷ (83 ∷ 68 ∷ 1 ∷ 0 ∷ 5 ∷ 1 ∷ 0 ∷ 0 ∷ 2 ∷ 0 ∷ []) ∷ (65 ∷ 66 ∷ 109 ∷ 90 ∷ []) ∷ []

abbrev start : List (List ℕ) → Rpc (List (List ℕ))
start w = record {
  link = w;
  seq = 4;
  stats = record { tx_bytes = 0; rx_bytes = 0; crc_errs = 0; timeouts = 0; retries = 0 };
}

abbrev question : List ℕ
question = 83 ∷ 68 ∷ 1 ∷ 0 ∷ 5 ∷ 1 ∷ 0 ∷ 0 ∷ 0 ∷ 0 ∷ 207 ∷ 219 ∷ []

answered : (serial_rpc scripted 1 1 [] (start script)).0 ≡ ok 0 (65 ∷ 66 ∷ [])
unfolding serial_rpc rpc_loop attempt_rpc receive_body judge count_timeout count_retry count_tx
    count_rx next_seq frame_encode frame_header crc_bytes frame_decode wire_len crc16_block
    crc16_from crc16_update crc_table crc_init crc_shifts crc_shift
answered = refl

encodes : frame_encode 1 (next_seq 4) 0 0 [] ≡ some question
unfolding next_seq frame_encode frame_header crc_bytes crc16_block crc16_from crc16_update crc_table
    crc_init crc_shifts crc_shift
encodes = refl

abbrev first : Rpc (List (List ℕ))
first = numbered scripted 1 1 [] (start script)

-- After the attempt that reads nothing.
second : Rpc (List (List ℕ))
second = (attempt_rpc scripted 1 question 0 first).1

fails : Fails scripted 1 question 1 0 first second
unfolding second attempt_rpc count_timeout count_retry count_tx
fails = again refl here

answer : Arrives scripted 1 (next_seq 4) 0 (65 ∷ 66 ∷ []) (asked scripted 1 question 1 second).link
unfolding second asked attempt_rpc count_timeout count_retry count_tx next_seq frame_decode wire_len
    crc16_block crc16_from crc16_update crc_table crc_init crc_shifts crc_shift
answer = record {
  hdr = record { version = 1; flags = 0; seq = 5; command = 1; status = 0; payload_len = 2 };
  head_whole = refl;
  body_whole = refl;
  decodes = refl;
  seq_matches = refl;
  status_is = refl;
}

serial_rpc-Arrives_example :
    (frame : List ℕ) × (k : ℕ) × (s' : Rpc (List (List ℕ))) × (frame_encode 1 (next_seq 4) 0 0 []
      ≡ some frame)
    × (k < 10)
    × Fails scripted 1 frame k 0 first s'
    × Arrives scripted 1 (next_seq 4) 0 (65 ∷ 66 ∷ []) (asked scripted 1 frame k s').link
serial_rpc-Arrives_example = serial_rpc-Arrives scripted 1 1 [] (start script) answered

Arrives-serial_rpc_example : (serial_rpc scripted 1 1 [] (start script)).0 ≡ ok 0 (65 ∷ 66 ∷ [])
Arrives-serial_rpc_example =
    Arrives-serial_rpc scripted 1 1 [] (start script) second 1 encodes (omega arith) fails answer

abbrev big : List ℕ
big = replicate 513 0

serial_rpc-err_payload_example :
    (512 < length big
      → serial_rpc scripted 1 1 big (start [])
        ≡ (err_payload, numbered scripted 1 1 big (start [])))
    × ((serial_rpc scripted 1 1 big (start [])).0 ≡ err_payload → 512 < length big)
serial_rpc-err_payload_example = serial_rpc-err_payload scripted 1 1 big (start [])

-- A line that never delivers a byte.
abbrev pub dead : Link ℕ
dead = record {
  drain = λ port w. w;
  send_block = λ port buf w. w;
  recv_block = λ port len ticks w. ([], w);
  recv_short = λ port len ticks w. omega arith;
}

abbrev pub idle : Rpc ℕ
idle = record {
  link = 0;
  seq = 255;
  stats = record { tx_bytes = 0; rx_bytes = 0; crc_errs = 0; timeouts = 0; retries = 0 };
}

serial_rpc-silent_example : (serial_rpc dead 1 1 (7 ∷ []) idle).0 ≡ err_timeout
serial_rpc-silent_example =
    serial_rpc-silent dead 1 1 (7 ∷ []) (λ w. omega arith) idle (omega arith)

-- A line that delivers nothing and records what goes out.
abbrev pub recorder : Link (List (ℕ × List ℕ))
recorder = record {
  drain = λ port w. w;
  send_block = λ port buf w. w ++ (port, buf) ∷ [];
  recv_block = λ port len ticks w. ([], w);
  recv_short = λ port len ticks w. omega arith;
}

pub recorder-Logs : Logs recorder (λ w. w)
recorder-Logs = record {
  sends = λ port block w. refl;
  drains = λ port w. refl;
  receives = λ port len ticks w. refl;
}

abbrev pub recording : Rpc (List (ℕ × List ℕ))
recording = record {
  link = [];
  seq = 255;
  stats = record { tx_bytes = 0; rx_bytes = 0; crc_errs = 0; timeouts = 0; retries = 0 };
}

timed_out : (serial_rpc recorder 1 1 (7 ∷ []) recording).0 ≡ err_timeout
timed_out = serial_rpc-silent recorder 1 1 (7 ∷ []) (λ w. omega arith) recording (omega arith)

serial_rpc-timeout_example :
    let t = (serial_rpc recorder 1 1 (7 ∷ []) recording).1 in
    (frame : List ℕ) × (frame_encode 1 (next_seq 255) 0 0 (7 ∷ []) ≡ some frame)
    × (t.link ≡ replicate 10 (1, frame))
    × (t.stats.tx_bytes % 2 ^ 32 ≡ 130 % 2 ^ 32)
    × (t.stats.retries % 2 ^ 16 ≡ 9 % 2 ^ 16)
serial_rpc-timeout_example =
    serial_rpc-timeout recorder 1 1 (7 ∷ []) (λ w. w) recorder-Logs recording timed_out
