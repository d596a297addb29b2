-- ===== src/Rpc/Call.antt =====
-- What `serial_rpc` promises its callers.
use serial_dfs.Base.{
  ℕ, zero, suc, ◌+◌, ◌*◌, ◌%◌, ◌^◌, ◌<◌, ◌≤◌, List, ◌++◌, replicate, Option, none, some, length,
  ◌≡◌, ◌≢◌, refl, ap, sym, ◌∙◌, arith,
}
use mathlib.Core.Path.{subst}
use serial_dfs.Frame.{frame_encode}
use serial_dfs.Frame.RoundTrip.{length-encode, encode_lem, encode-none}
use serial_dfs.Link.{Link}
use serial_dfs.Rpc.{Rpc, ok, err_timeout, err_payload, next_seq, attempt_rpc, rpc_loop, serial_rpc}
use native.Mathlib.Decide.{dec_lt}
use serial_dfs.Rpc.Log.{Logs, loop_log}
use serial_dfs.Rpc.Accept.{
  attempt-none, Arrives, asked, attempt-Arrives, Arrives-attempt, attempt_counts,
}
use serial_dfs.Rpc.Retry.{
  loop-ne-err_payload, loop_over, Fails, loop_some, loop_none, loop-Fails, loop-ok, Fails-seq,
  loop-gives_up,
}

module _ {W : Type 0} (io : Link W) (port cmd : ℕ) (payload : List ℕ) where
  -- The state with the new sequence number, in which the loop starts.
  abbrev pub numbered : Rpc W → Rpc W
  numbered s = record s { seq = next_seq s.seq }

  serial_rpc-loop :
      (s : Rpc W) {frame : List ℕ}
      → frame_encode cmd (next_seq s.seq) 0 0 payload ≡ some frame
      → serial_rpc io port cmd payload s ≡ rpc_loop io port frame 10 0 (numbered s)
  unfolding serial_rpc
  serial_rpc-loop s e = ground arith

  serial_rpc-frame :
      (s : Rpc W) {st : ℕ} {p : List ℕ}
      → (serial_rpc io port cmd payload s).0 ≡ ok st p
      → (frame : List ℕ) × (frame_encode cmd (next_seq s.seq) 0 0 payload ≡ some frame)
  unfolding serial_rpc
  serial_rpc-frame s e = ground arith

  -- The answer that a call returns is the payload and the status of a frame with a good CRC and
  -- with this call's own sequence number, which arrived in one of at most ten attempts.
  pub serial_rpc-Arrives :
      (s : Rpc W) {st : ℕ} {p : List ℕ}
      → (serial_rpc io port cmd payload s).0 ≡ ok st p
      → (frame : List ℕ) × (k : ℕ) × (s' : Rpc W) × (frame_encode cmd (next_seq s.seq) 0 0 payload
          ≡ some frame)
        × (k < 10)
        × Fails io port frame k 0 (numbered s) s'
        × Arrives io port (next_seq s.seq) st p (asked io port frame k s').link
  serial_rpc-Arrives s {st} {p} e =
      let (frame, f) = serial_rpc-frame s e in
      let (k, s', lt, fails, got) =
        loop-ok io port frame 10 0 (numbered s) (sym (ap (λ r. r.0) (serial_rpc-loop s f)) ∙ e) in
      (
        frame,
        k,
        s',
        f,
        lt,
        fails,
        subst (λ q. Arrives io port q st p (asked io port frame k s').link)
            (Fails-seq io port frame fails)
            (attempt-Arrives io port frame k s'
              (ap (λ n. (attempt_rpc io port frame n s').0) (omega arith) ∙ got)),
      )

  -- A payload of at most 512 bytes whose answer arrives in any of the ten attempts, the earlier
  -- ones having failed, is answered: the call returns that status and that payload.
  pub Arrives-serial_rpc :
      (s s' : Rpc W) (k : ℕ) {frame : List ℕ} {st : ℕ} {p : List ℕ}
      → frame_encode cmd (next_seq s.seq) 0 0 payload ≡ some frame
      → k < 10
      → Fails io port frame k 0 (numbered s) s'
      → Arrives io port (next_seq s.seq) st p (asked io port frame k s').link
      → (serial_rpc io port cmd payload s).0 ≡ ok st p
  Arrives-serial_rpc s s' k {frame} {st} {p} f lt fails a =
      ap (λ r. r.0) (serial_rpc-loop s f)
      ∙ loop-Fails io port frame 10 lt fails (
          ap (λ n. (attempt_rpc io port frame n s').0) (omega arith)
          ∙ Arrives-attempt io port frame k s' (
              subst (λ q. Arrives io port q st p (asked io port frame k s').link)
                (sym (Fails-seq io port frame fails)) a))

  -- The counters after the first round of a loop that gives up.
  first_round :
      (s : Rpc W) (frame : List ℕ)
      → (rpc_loop io port frame 10 0 s).0 ≡ err_timeout
      → let t = (rpc_loop io port frame 10 0 s).1 in
        (t.stats.tx_bytes % 2 ^ 32 ≡ (s.stats.tx_bytes + 10 * length frame) % 2 ^ 32)
        × (t.stats.retries % 2 ^ 16 ≡ (s.stats.retries + 9) % 2 ^ 16)
  first_round s frame e = by_answer (attempt_rpc io port frame 0 s).0 refl
    where
      by_answer :
          (o : Option (ℕ × List ℕ))
          → (attempt_rpc io port frame 0 s).0 ≡ o
          → let t = (rpc_loop io port frame 10 0 s).1 in
            (t.stats.tx_bytes % 2 ^ 32 ≡ (s.stats.tx_bytes + 10 * length frame) % 2 ^ 32)
            × (t.stats.retries % 2 ^ 16 ≡ (s.stats.retries + 9) % 2 ^ 16)
      by_answer none q =
          let eq = loop_none io port frame 9 0 s q in
          let h =
            loop-gives_up io port frame 9 0 (attempt_rpc io port frame 0 s).1
              (sym (ap (λ x. x.0) eq) ∙ e) in
          let c = attempt_counts io port frame 0 s in
          (
            omega (arith, ap (λ x. x.1.stats.tx_bytes % 2 ^ 32) eq, h.0, c.1),
            omega (arith, ap (λ x. x.1.stats.retries % 2 ^ 16) eq, h.1, c.2),
          )
      by_answer (some (u, v)) q =
          absurd (differ (sym e ∙ ap (λ x. x.0) (loop_some io port frame 9 0 s q)))
        where
          differ : err_timeout ≢ ok u v
          differ h = cc

  serial_rpc-timeout_frame :
      (s : Rpc W)
      → (serial_rpc io port cmd payload s).0 ≡ err_timeout
      → (frame : List ℕ) × (frame_encode cmd (next_seq s.seq) 0 0 payload ≡ some frame)
  unfolding serial_rpc
  serial_rpc-timeout_frame s e = ground arith

  -- A call that times out has sent its frame exactly ten times, to its port and with nothing in
  -- between, and has counted the bytes and nine retries, in counters of 32 and 16 bits. `sent` is
  -- what has gone out over the link.
  pub serial_rpc-timeout :
      (sent : W → List (ℕ × List ℕ)) (logs : Logs io sent) (s : Rpc W)
      → (serial_rpc io port cmd payload s).0 ≡ err_timeout
      → let t = (serial_rpc io port cmd payload s).1 in
        (frame : List ℕ) × (frame_encode cmd (next_seq s.seq) 0 0 payload ≡ some frame)
        × (sent t.link ≡ sent s.link ++ replicate 10 (port, frame))
        × (t.stats.tx_bytes % 2 ^ 32 ≡ (s.stats.tx_bytes + 10 * (12 + length payload)) % 2 ^ 32)
        × (t.stats.retries % 2 ^ 16 ≡ (s.stats.retries + 9) % 2 ^ 16)
  serial_rpc-timeout sent logs s e =
      let (frame, f) = serial_rpc-timeout_frame s e in
      let eq = serial_rpc-loop s f in
      let gave_up = sym (ap (λ x. x.0) eq) ∙ e in
      let h = first_round (numbered s) frame gave_up in
      let n = (length-encode cmd (next_seq s.seq) 0 0 payload f).0 in
      (
        frame,
        f,
        ap (λ x. sent x.1.link) eq ∙ loop_log io sent logs port frame 10 0 (numbered s) gave_up,
        omega (arith, ap (λ x. x.1.stats.tx_bytes % 2 ^ 32) eq, h.0, n),
        omega (arith, ap (λ x. x.1.stats.retries % 2 ^ 16) eq, h.1),
      )

  -- A payload of more than 512 bytes is refused, and then nothing is sent and only the sequence
  -- number moves; no other payload is refused so.
  pub serial_rpc-err_payload :
      (s : Rpc W)
      → (512 < length payload → serial_rpc io port cmd payload s ≡ (err_payload, numbered s))
        × ((serial_rpc io port cmd payload s).0 ≡ err_payload → 512 < length payload)
  serial_rpc-err_payload s = (refused, only)
    where
      refused : 512 < length payload → serial_rpc io port cmd payload s ≡ (err_payload, numbered s)
      refused lt =
          unfold serial_rpc in ground (arith, encode-none cmd (next_seq s.seq) 0 0 payload lt)

      only : (serial_rpc io port cmd payload s).0 ≡ err_payload → 512 < length payload
      only e = elim (dec_lt 512 (length payload)) [
        | yes lt ↦ lt
        | no ge ↦ absurd (
            loop-ne-err_payload io port _ 10 0 (numbered s) (
              sym (
                ap (λ r. r.0)
                  (serial_rpc-loop s (encode_lem cmd (next_seq s.seq) 0 0 payload (omega arith))))
              ∙ e))
      ]

module _ {W : Type 0} (io : Link W) (port cmd : ℕ) (payload : List ℕ)
    (silent : (w : W) → length (io.recv_block port 10 90 w).0 < 10) where
  silent_attempt : (frame : List ℕ) (a : ℕ) (s : Rpc W) → (attempt_rpc io port frame a s).0 ≡ none
  silent_attempt frame a s = attempt-none io port frame a s (silent (asked io port frame a s).link)

  silent_loop :
      (frame : List ℕ) (left a : ℕ) (s : Rpc W) → (rpc_loop io port frame left a s).0 ≡ err_timeout
  silent_loop frame zero a s = loop_over io port frame a s
  silent_loop frame (suc left) a s =
      ap (λ r. r.0) (loop_none io port frame left a s (silent_attempt frame a s))
      ∙ silent_loop frame left (suc a) (attempt_rpc io port frame a s).1

  -- On a line that never delivers a whole header, a call with a payload that fits a frame ends
  -- with a timeout.
  pub serial_rpc-silent :
      (s : Rpc W) → length payload ≤ 512 → (serial_rpc io port cmd payload s).0 ≡ err_timeout
  serial_rpc-silent s fits =
      ap (λ r. r.0)
        (serial_rpc-loop io port cmd payload s (encode_lem cmd (next_seq s.seq) 0 0 payload fits))
      ∙ silent_loop _ 10 0 (numbered io port cmd payload s)
