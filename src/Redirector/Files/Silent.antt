-- ===== src/Redirector/Files/Silent.antt =====
-- A read whose call is not answered, and the read of the whole program on a dead line.
use serial_dfs.Base.{
  ℕ, zero, suc, ◌+◌, ◌%◌, ◌^◌, ◌<◌, ◌==◌, true, false, List, length, ◌++◌, replicate, Option, some,
  ◌⊎◌, inl, inr, ◌≡◌, refl, ap, arith,
}
use serial_dfs.Command.{cmd_read}
use serial_dfs.Link.{Link}
use serial_dfs.Frame.{frame_encode}
use serial_dfs.Rpc.{Rpc, serial_rpc, err_timeout, next_seq}
use serial_dfs.Rpc.Log.{Logs}
use serial_dfs.Rpc.Call.{serial_rpc-silent, serial_rpc-timeout}
use serial_dfs.Redirector.State.{Call, Tsr, Reply, fail, sft_of}
use serial_dfs.Redirector.State.Ask.{ask_timeout}
use serial_dfs.Redirector.Files.{
  writing, read_request, chunk_size, read_reply, read_loop, al_readfil,
}

module _ {S : Type 0} (call : Call S) where
  -- The first request of a read.
  abbrev pub first_request : Tsr S → List ℕ
  first_request t = read_request (sft_of t) (chunk_size 512 t.regs.cx 0) 0

  read_loop-timeout :
      (fuel rs rl : ℕ) (t : Tsr S)
      → 0 < fuel
      → (call t.comport cmd_read (first_request t) t.rpc).0 ≡ err_timeout
      → read_loop call fuel rs rl 0 t
        ≡ some (fail 2 (record t { rpc = (call t.comport cmd_read (first_request t) t.rpc).1 }))
  unfolding read_loop read_reply
  read_loop-timeout zero rs rl t pos e = absurd (omega arith)
  read_loop-timeout (suc fuel) rs rl t pos e =
      ap after (ask_timeout call rs rl cmd_read (first_request t) t e)
    where
      go_on : Reply → Tsr S ⊎ (ℕ × Tsr S) → Option (Tsr S)
      go_on r x = elim x [
        | inl t' ↦ some t'
        | inr (totread', t2) ↦ read_loop call fuel r.rstatus r.replylen totread' t2
      ]

      after : Reply × Tsr S → Option (Tsr S)
      after r = go_on r.0 (read_reply (chunk_size 512 t.regs.cx 0) 0 r.0 r.1)

  pub al_readfil-timeout :
      (undef : ℕ) (t : Tsr S)
      → writing (sft_of t) ≡ 0
      → 0 < t.regs.cx
      → (call t.comport cmd_read (first_request t) t.rpc).0 ≡ err_timeout
      → al_readfil call undef t
        ≡ some (fail 2 (record t { rpc = (call t.comport cmd_read (first_request t) t.rpc).1 }))
  unfolding al_readfil
  al_readfil-timeout undef t readable wanted e =
      let open_for_reading : (writing (sft_of t) == 0) ≡ true = ground (arith, readable) in
      let some_wanted : (t.regs.cx == 0) ≡ false = ground (arith, wanted) in
      rw (open_for_reading, some_wanted) (read_loop-timeout t.regs.cx undef 0 t wanted e)

length-first_request : {S : Type 0} (call : Call S) (t : Tsr S) → length (first_request call t) ≡ 7
unfolding read_request
length-first_request call t = refl

-- The redirector over `serial_rpc` on a line that never delivers a whole header: a read of a file
-- open for reading, with a count that is not 0, ends after one request with the carry and error 2.
-- What has gone out over the link is the frame of the read's first request, ten times, and nothing
-- else; its 190 bytes and nine retries are counted, in counters of 32 and 16 bits. Nothing but the
-- registers and the state of the remote calls has changed.
pub al_readfil-silent :
    {W : Type 0} (io : Link W) (sent : W → List (ℕ × List ℕ)) (logs : Logs io sent) (undef : ℕ)
    (t : Tsr (Rpc W))
    → ((w : W) → length (io.recv_block t.comport 10 90 w).0 < 10)
    → writing (sft_of t) ≡ 0
    → 0 < t.regs.cx
    → (s : Rpc W) × (frame : List ℕ) × (al_readfil (serial_rpc io) undef t
        ≡ some (record t { regs = record (t.regs) { ax = 2; carry = true }; rpc = s }))
      × (frame_encode cmd_read
            (next_seq t.rpc.seq)
            0
            0
            (read_request (sft_of t) (chunk_size 512 t.regs.cx 0) 0)
          ≡ some frame)
      × (sent s.link ≡ sent t.rpc.link ++ replicate 10 (t.comport, frame))
      × (s.stats.tx_bytes % 2 ^ 32 ≡ (t.rpc.stats.tx_bytes + 190) % 2 ^ 32)
      × (s.stats.retries % 2 ^ 16 ≡ (t.rpc.stats.retries + 9) % 2 ^ 16)
al_readfil-silent io sent logs undef t silent readable wanted =
    let (frame, f, out, bytes, retries) =
      serial_rpc-timeout io t.comport cmd_read request sent logs t.rpc timed_out in
    (
      (serial_rpc io t.comport cmd_read request t.rpc).1,
      frame,
      al_readfil-timeout (serial_rpc io) undef t readable wanted timed_out,
      f,
      out,
      omega (arith, bytes, size),
      retries,
    )
  where
    request : List ℕ
    request = first_request (serial_rpc io) t

    size : length request ≡ 7
    size = length-first_request (serial_rpc io) t

    timed_out : (serial_rpc io t.comport cmd_read request t.rpc).0 ≡ err_timeout
    timed_out = serial_rpc-silent io t.comport cmd_read request silent t.rpc (omega (arith, size))
