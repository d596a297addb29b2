-- ===== src/Rpc/Bounds.antt =====
-- The sequence number and the counters stay within their widths.
use serial_dfs.Base.{
  ℕ, zero, suc, ◌+◌, ◌^◌, ◌<◌, ◌==◌, ltb, not, ◌||◌, ◌++◌, if◌then◌else◌, Bool, true, false, List,
  length, byte_at, Option, some, none, arith,
}
use serial_dfs.Frame.{
  Decoded, frame_encode, frame_decode, wire_len, frame_hdr_size, frame_crc_size, frame_max_payload,
}
use serial_dfs.Link.{Link}
use serial_dfs.Rpc.{
  Rpc, RpcResult, ok, err_payload, next_seq, count_timeout, count_crc_err, count_retry, count_tx,
  count_rx, judge, receive_body, attempt_rpc, rpc_loop, serial_rpc, serrpc_retries, tick_timeout,
}
use serial_dfs.Rpc.Accept.{next_seq_range}

-- `serrpc_seq` is a byte, the counters are of 32 and of 16 bits.
pub record IsBounded {W : Type 0} (s : Rpc W) : Type 0 where
  pub seq_lt : s.seq < 2 ^ 8
  pub tx_lt : s.stats.tx_bytes < 2 ^ 32
  pub rx_lt : s.stats.rx_bytes < 2 ^ 32
  pub crc_lt : s.stats.crc_errs < 2 ^ 16
  pub timeouts_lt : s.stats.timeouts < 2 ^ 16
  pub retries_lt : s.stats.retries < 2 ^ 16

module _ {W : Type 0} where
  IsBounded-link : (s : Rpc W) (w : W) → IsBounded s → IsBounded (record s { link = w })
  IsBounded-link s w h = record {
    seq_lt = h.seq_lt;
    tx_lt = h.tx_lt;
    rx_lt = h.rx_lt;
    crc_lt = h.crc_lt;
    timeouts_lt = h.timeouts_lt;
    retries_lt = h.retries_lt;
  }

  IsBounded-count_timeout : (s : Rpc W) → IsBounded s → IsBounded (count_timeout s)
  unfolding count_timeout
  IsBounded-count_timeout s h = record {
    seq_lt = h.seq_lt;
    tx_lt = h.tx_lt;
    rx_lt = h.rx_lt;
    crc_lt = h.crc_lt;
    timeouts_lt = omega arith;
    retries_lt = h.retries_lt;
  }

  IsBounded-count_crc_err : (s : Rpc W) → IsBounded s → IsBounded (count_crc_err s)
  unfolding count_crc_err
  IsBounded-count_crc_err s h = record {
    seq_lt = h.seq_lt;
    tx_lt = h.tx_lt;
    rx_lt = h.rx_lt;
    crc_lt = omega arith;
    timeouts_lt = h.timeouts_lt;
    retries_lt = h.retries_lt;
  }

  IsBounded-count_retry : (n : ℕ) (s : Rpc W) → IsBounded s → IsBounded (count_retry n s)
  unfolding count_retry
  IsBounded-count_retry zero s h = h
  IsBounded-count_retry (suc n) s h = record {
    seq_lt = h.seq_lt;
    tx_lt = h.tx_lt;
    rx_lt = h.rx_lt;
    crc_lt = h.crc_lt;
    timeouts_lt = h.timeouts_lt;
    retries_lt = omega arith;
  }

  IsBounded-count_tx : (n : ℕ) (s : Rpc W) → IsBounded s → IsBounded (count_tx n s)
  unfolding count_tx
  IsBounded-count_tx n s h = record {
    seq_lt = h.seq_lt;
    tx_lt = omega arith;
    rx_lt = h.rx_lt;
    crc_lt = h.crc_lt;
    timeouts_lt = h.timeouts_lt;
    retries_lt = h.retries_lt;
  }

  IsBounded-count_rx : (n : ℕ) (s : Rpc W) → IsBounded s → IsBounded (count_rx n s)
  unfolding count_rx
  IsBounded-count_rx n s h = record {
    seq_lt = h.seq_lt;
    tx_lt = h.tx_lt;
    rx_lt = omega arith;
    crc_lt = h.crc_lt;
    timeouts_lt = h.timeouts_lt;
    retries_lt = h.retries_lt;
  }

  -- The state of a pair that a test chooses.
  IsBounded-if :
      {A : Type 0} (b : Bool) (x y : A × Rpc W)
      → IsBounded x.1
      → IsBounded y.1
      → IsBounded (if b then x else y).1
  IsBounded-if true x y h k = h
  IsBounded-if false x y h k = k

  IsBounded-judge : (n : ℕ) (d : Decoded) (s : Rpc W) → IsBounded s → IsBounded (judge n d s).1
  unfolding judge
  IsBounded-judge n (Decoded.ok hdr rp) s h =
      IsBounded-if (not (hdr.seq == s.seq)) (none, s)
        (some (hdr.status, rp), count_rx (frame_hdr_size + n + frame_crc_size) s) h
        (IsBounded-count_rx (frame_hdr_size + n + frame_crc_size) s h)
  IsBounded-judge n Decoded.short s h = IsBounded-count_crc_err s h
  IsBounded-judge n Decoded.bad_magic s h = IsBounded-count_crc_err s h
  IsBounded-judge n Decoded.bad_ver s h = IsBounded-count_crc_err s h
  IsBounded-judge n Decoded.bad_crc s h = IsBounded-count_crc_err s h
  IsBounded-judge n Decoded.too_long s h = IsBounded-count_crc_err s h

module _ {W : Type 0} (io : Link W) (port : ℕ) where
  IsBounded-receive_body :
      (head : List ℕ) (s : Rpc W) → IsBounded s → IsBounded (receive_body io port head s).1
  unfolding receive_body
  IsBounded-receive_body head s h =
      let bodylen = wire_len head in
      let (got, w) = io.recv_block port (bodylen + frame_crc_size) tick_timeout s.link in
      let s' : Rpc W = record s { link = w } in
      let k = IsBounded-link s w h in
      IsBounded-if (not (byte_at head 0 == b'S') || not (byte_at head 1 == b'D')) (none, s) _ h
        (IsBounded-if (ltb frame_max_payload bodylen) (none, s) _ h
          (IsBounded-if (ltb (length got) (bodylen + frame_crc_size)) (none, count_timeout s')
            (judge bodylen (frame_decode (head ++ got)) s') (IsBounded-count_timeout s' k)
            (IsBounded-judge bodylen (frame_decode (head ++ got)) s' k)))

  IsBounded-attempt_rpc :
      (frame : List ℕ) (attempt : ℕ) (s : Rpc W)
      → IsBounded s
      → IsBounded (attempt_rpc io port frame attempt s).1
  unfolding attempt_rpc
  IsBounded-attempt_rpc frame attempt s h =
      let s1 = count_retry attempt s in
      let sent = io.send_block port frame (io.drain port s1.link) in
      let s1' : Rpc W = record s1 { link = sent } in
      let s2 = count_tx (length frame) s1' in
      let (head, w) = io.recv_block port frame_hdr_size tick_timeout s2.link in
      let s3 : Rpc W = record s2 { link = w } in
      let k = IsBounded-link s2 w (
        IsBounded-count_tx (length frame) s1'
          (IsBounded-link s1 sent (IsBounded-count_retry attempt s h))) in
      IsBounded-if (ltb (length head) frame_hdr_size) (none, count_timeout s3)
        (receive_body io port head s3) (IsBounded-count_timeout s3 k)
        (IsBounded-receive_body head s3 k)

  IsBounded-rpc_loop :
      (frame : List ℕ) (left attempt : ℕ) (s : Rpc W)
      → IsBounded s
      → IsBounded (rpc_loop io port frame left attempt s).1
  unfolding rpc_loop
  IsBounded-rpc_loop frame zero attempt s h = h
  IsBounded-rpc_loop frame (suc left) attempt s h =
      by_answer (attempt_rpc io port frame attempt s).0
        (IsBounded-rpc_loop frame left (suc attempt) s' (IsBounded-attempt_rpc frame attempt s h))
    where
      s' : Rpc W
      s' = (attempt_rpc io port frame attempt s).1

      by_answer :
          (got : Option (ℕ × List ℕ))
          → IsBounded (rpc_loop io port frame left (suc attempt) s').1
          → IsBounded
              (elim got as (λ g. RpcResult × Rpc W) [
                | some (status, rp) ↦ (ok status rp, s')
                | none ↦ rpc_loop io port frame left (suc attempt) s'
              ]).1
      by_answer (some (status, rp)) k = IsBounded-attempt_rpc frame attempt s h
      by_answer none k = k

  -- Whatever the line does, a call keeps the sequence number a byte and the counters within their
  -- 32 and 16 bits.
  pub serial_rpc-IsBounded :
      (cmd : ℕ) (payload : List ℕ) (s : Rpc W)
      → IsBounded s
      → IsBounded (serial_rpc io port cmd payload s).1
  unfolding serial_rpc
  serial_rpc-IsBounded cmd payload s h = by_frame (frame_encode cmd (next_seq s.seq) 0 0 payload)
    where
      s' : Rpc W
      s' = record s { seq = next_seq s.seq }

      bounded : IsBounded s'
      bounded = record {
        seq_lt = omega (arith, next_seq_range s.seq);
        tx_lt = h.tx_lt;
        rx_lt = h.rx_lt;
        crc_lt = h.crc_lt;
        timeouts_lt = h.timeouts_lt;
        retries_lt = h.retries_lt;
      }

      by_frame :
          (frame : Option (List ℕ))
          → IsBounded
              (elim frame as (λ f. RpcResult × Rpc W) [
                | none ↦ (err_payload, s')
                | some f ↦ rpc_loop io port f serrpc_retries 0 s'
              ]).1
      by_frame none = bounded
      by_frame (some f) = IsBounded-rpc_loop f serrpc_retries 0 s' bounded
