-- ===== src/Rpc.antt =====
-- dos/src/serrpc.h and dos/src/serrpc.c: one remote call with retries, as the resident program
-- builds it (with the counters of `glob_data`).
-- `serrpc_txbuf` and `serrpc_rxbuf` are written before each read of them within one attempt, so
-- they are values of the attempt here. The reply goes to the caller as a list, which the caller
-- copies over its `replybuf`; on an error the caller's variables keep their values.
pub mod Accept
pub mod Bounds
pub mod Retry
pub mod Log
pub mod Call
use serial_dfs.Base.{
  ℕ, zero, suc, ◌+◌, ◌%◌, ◌^◌, ◌==◌, ltb, not, ◌||◌, if◌then◌else◌, List, ◌++◌, Option, none, some,
  u8, u16, u32, byte_at, length,
}
use serial_dfs.Frame.{
  Decoded, frame_encode, frame_decode, wire_len, frame_hdr_size, frame_crc_size, frame_max_payload,
}
use serial_dfs.Link.{Link}

-- SERRPC_RETRIES and SERRPC_TICK_TIMEOUT.
abbrev pub serrpc_retries : ℕ
serrpc_retries = 10

abbrev pub tick_timeout : ℕ
tick_timeout = 90

-- The counters of `struct tsrshareddata`.
pub record Stats : Type 0 where
  pub tx_bytes : ℕ
  pub rx_bytes : ℕ
  pub crc_errs : ℕ
  pub timeouts : ℕ
  pub retries : ℕ

-- What a call of `serial_rpc` changes: the machine outside, `serrpc_seq` and the counters.
pub record Rpc (W : Type 0) : Type 0 where
  pub link : W
  pub seq : ℕ
  pub stats : Stats

-- SERRPC_OK with `*reply_status` and the `*replylen` bytes of the reply, and the two errors.
pub data RpcResult : Type 0 where
  ok : ℕ → List ℕ → RpcResult
  err_timeout err_payload : RpcResult

-- `serrpc_seq++`, on a byte, skipping 0.
unfoldable pub next_seq : ℕ → ℕ
next_seq seq = if u8 (seq + 1) == 0 then 1 else u8 (seq + 1)

module _ {W : Type 0} where
  unfoldable pub count_timeout : Rpc W → Rpc W
  count_timeout s = record s { stats = record (s.stats) { timeouts = u16 (s.stats.timeouts + 1) } }

  unfoldable pub count_crc_err : Rpc W → Rpc W
  count_crc_err s = record s { stats = record (s.stats) { crc_errs = u16 (s.stats.crc_errs + 1) } }

  unfoldable pub count_retry : ℕ → Rpc W → Rpc W
  count_retry zero s = s
  count_retry (suc attempt) s = record s {
    stats = record (s.stats) { retries = u16 (s.stats.retries + 1) };
  }

  unfoldable pub count_tx : ℕ → Rpc W → Rpc W
  count_tx n s = record s { stats = record (s.stats) { tx_bytes = u32 (s.stats.tx_bytes + n) } }

  unfoldable pub count_rx : ℕ → Rpc W → Rpc W
  count_rx n s = record s { stats = record (s.stats) { rx_bytes = u32 (s.stats.rx_bytes + n) } }

  -- From `frame_decode` to the end of the loop's body. `none` is `continue`.
  unfoldable pub judge : ℕ → Decoded → Rpc W → Option (ℕ × List ℕ) × Rpc W
  judge bodylen (Decoded.ok hdr rp) s =
      if not (hdr.seq == s.seq)
      then (none, s)
      else (some (hdr.status, rp), count_rx (frame_hdr_size + bodylen + frame_crc_size) s)
  judge bodylen _ s = (none, count_crc_err s)

  -- With the header `head` received: the rest of the loop's body.
  unfoldable pub receive_body : Link W → ℕ → List ℕ → Rpc W → Option (ℕ × List ℕ) × Rpc W
  receive_body io port head s =
      if not (byte_at head 0 == b'S') || not (byte_at head 1 == b'D')
      then (none, s)
      else let bodylen = wire_len head in
        if ltb frame_max_payload bodylen
        then (none, s)
        else let (got, w) = io.recv_block port (bodylen + frame_crc_size) tick_timeout s.link in
          let s' = record s { link = w } in
          if ltb (length got) (bodylen + frame_crc_size)
          then (none, count_timeout s')
          else judge bodylen (frame_decode (head ++ got)) s'

  -- One round of the loop: drain, send, receive.
  unfoldable pub attempt_rpc : Link W → ℕ → List ℕ → ℕ → Rpc W → Option (ℕ × List ℕ) × Rpc W
  attempt_rpc io port frame attempt s =
      let s1 = count_retry attempt s in
      let sent = io.send_block port frame (io.drain port s1.link) in
      let s2 = count_tx (length frame) (record s1 { link = sent }) in
      let (head, w) = io.recv_block port frame_hdr_size tick_timeout s2.link in
      let s3 = record s2 { link = w } in
      if ltb (length head) frame_hdr_size
      then (none, count_timeout s3)
      else receive_body io port head s3

  -- The loop at `attempt`, with `left` rounds to go.
  unfoldable pub rpc_loop : Link W → ℕ → List ℕ → ℕ → ℕ → Rpc W → RpcResult × Rpc W
  rpc_loop io port frame zero attempt s = (err_timeout, s)
  rpc_loop io port frame (suc left) attempt s =
      let (got, s') = attempt_rpc io port frame attempt s in
      elim got [
        | some (status, rp) ↦ (ok status rp, s')
        | none ↦ rpc_loop io port frame left (suc attempt) s'
      ]

  unfoldable pub serial_rpc : Link W → ℕ → ℕ → List ℕ → Rpc W → RpcResult × Rpc W
  serial_rpc io port cmd payload s =
      let s' = record s { seq = next_seq s.seq } in
      elim (frame_encode cmd (next_seq s.seq) 0 0 payload) [
        | none ↦ (err_payload, s')
        | some frame ↦ rpc_loop io port frame serrpc_retries 0 s'
      ]
