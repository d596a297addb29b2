-- ===== src/Rpc/Accept.antt =====
-- What a reply that `serial_rpc` returns has passed.
use serial_dfs.Base.{
  ℕ, zero, suc, ◌+◌, ◌<◌, ◌≤◌, ◌==◌, if◌then◌else◌, List, ◌++◌, none, some, byte_at, length, ◌≡◌,
  ◌≢◌, refl, ap, sym, ◌∙◌, arith, get_or-append_lt, u16, u32,
}
use serial_dfs.Frame.{FrameHdr, Decoded, frame_decode, wire_len}
use serial_dfs.Frame.Valid.{IsFrame, decode-IsFrame}
use serial_dfs.Frame.RoundTrip.{wire_len-append}
use serial_dfs.Link.{Link}
use serial_dfs.Rpc.{
  Rpc, next_seq, count_timeout, count_crc_err, count_retry, count_tx, count_rx, judge, receive_body,
  attempt_rpc,
}

-- The sequence number is a byte and never 0.
pub next_seq_range : (seq : ℕ) → (1 ≤ next_seq seq) × (next_seq seq ≤ 255)
unfolding next_seq
next_seq_range seq = ground arith

pub next_seq_ne : (seq : ℕ) → 1 ≤ seq → seq ≤ 255 → next_seq seq ≢ seq
unfolding next_seq
next_seq_ne seq lo hi = ground arith

module _ {W : Type 0} (io : Link W) (port : ℕ) where
  abbrev body_of : List ℕ → W → List ℕ × W
  body_of head w = io.recv_block port (wire_len head + 2) 90 w

  abbrev head_of : W → List ℕ × W
  head_of w = io.recv_block port 10 90 w

  -- In the machine state `w`, after a request is sent, ten bytes of a header and then the body
  -- that it announces arrive, and together they decode to a frame with sequence number `seq`,
  -- status `st` and payload `p`.
  pub record Arrives (seq st : ℕ) (p : List ℕ) (w : W) : Type 0 where
    pub hdr : FrameHdr
    pub head_whole : length (head_of w).0 ≡ 10
    pub body_whole : length (body_of (head_of w).0 (head_of w).1).0 ≡ wire_len (head_of w).0 + 2
    pub decodes :
        frame_decode ((head_of w).0 ++ (body_of (head_of w).0 (head_of w).1).0) ≡ Decoded.ok hdr p
    pub seq_matches : hdr.seq ≡ seq
    pub status_is : hdr.status ≡ st

  judge-some :
      (n : ℕ) (d : Decoded) (s : Rpc W) {st : ℕ} {p : List ℕ}
      → (judge n d s).0 ≡ some (st, p)
      → (hdr : FrameHdr) × (d ≡ Decoded.ok hdr p) × (hdr.seq ≡ s.seq) × (hdr.status ≡ st)
  unfolding judge
  judge-some n (Decoded.ok hdr rp) s e = (hdr, ground arith, ground arith, ground arith)
  judge-some n _ s e = cc

  judge_link : (n : ℕ) (d : Decoded) (s : Rpc W) → (judge n d s).1.link ≡ s.link
  unfolding judge count_rx count_crc_err
  judge_link n (Decoded.ok hdr rp) s = ground arith
  judge_link n _ s = refl

  judge_accepts :
      (n : ℕ) (hdr : FrameHdr) (p : List ℕ) (s : Rpc W)
      → hdr.seq ≡ s.seq
      → (judge n (Decoded.ok hdr p) s).0 ≡ some (hdr.status, p)
  unfolding judge
  judge_accepts n hdr p s e = ground arith

  receive_body_judges :
      (head : List ℕ) (s : Rpc W) {x : ℕ × List ℕ}
      → (receive_body io port head s).0 ≡ some x
      → (wire_len head + 2 ≤ length (body_of head s.link).0)
        × ((judge
              (wire_len head)
              (frame_decode (head ++ (body_of head s.link).0))
              (record s { link = (body_of head s.link).1 })).0
            ≡ some x)
  unfolding receive_body
  receive_body_judges head s e = ground arith

  -- The state in which an attempt waits for the answer.
  unfoldable pub asked : List ℕ → ℕ → Rpc W → Rpc W
  unfolding count_tx count_retry
  asked frame attempt s = count_tx (length frame) (record (count_retry attempt s) {
    link = io.send_block port frame (io.drain port (count_retry attempt s).link);
  })

  attempt_receives :
      (frame : List ℕ) (attempt : ℕ) (s : Rpc W) {x : ℕ × List ℕ}
      → (attempt_rpc io port frame attempt s).0 ≡ some x
      → let t = asked frame attempt s in
        (10 ≤ length (head_of t.link).0)
        × ((receive_body io port (head_of t.link).0 (record t { link = (head_of t.link).1 })).0
            ≡ some x)
  unfolding attempt_rpc asked
  attempt_receives frame zero s e = ground arith
  attempt_receives frame (suc attempt) s e = ground arith

  asked_seq : (frame : List ℕ) (attempt : ℕ) (s : Rpc W) → (asked frame attempt s).seq ≡ s.seq
  unfolding asked
  asked_seq frame zero s = refl
  asked_seq frame (suc attempt) s = refl

  -- What one attempt returns has arrived.
  pub attempt-Arrives :
      (frame : List ℕ) (attempt : ℕ) (s : Rpc W) {st : ℕ} {p : List ℕ}
      → (attempt_rpc io port frame attempt s).0 ≡ some (st, p)
      → Arrives s.seq st p (asked frame attempt s).link
  attempt-Arrives frame attempt s {st} {p} e =
      let t = asked frame attempt s in
      let head = (head_of t.link).0 in
      let (whole, e1) = attempt_receives frame attempt s e in
      let (body_whole, e2) = receive_body_judges head (record t { link = (head_of t.link).1 }) e1 in
      let (hdr, d, q, r) = judge-some (wire_len head) _ _ e2 in
      record {
        hdr = hdr;
        head_whole = omega (arith, whole, io.recv_short port 10 90 t.link);
        body_whole =
            omega (arith, body_whole, io.recv_short port (wire_len head + 2) 90 (head_of t.link).1);
        decodes = d;
        seq_matches = q ∙ asked_seq frame attempt s;
        status_is = r;
      }

  receive_body_accepts :
      (head : List ℕ) (s : Rpc W) {x : ℕ × List ℕ}
      → byte_at head 0 ≡ b'S'
      → byte_at head 1 ≡ b'D'
      → wire_len head ≤ 512
      → wire_len head + 2 ≤ length (body_of head s.link).0
      → (judge
          (wire_len head)
          (frame_decode (head ++ (body_of head s.link).0))
          (record s { link = (body_of head s.link).1 })).0
        ≡ some x
      → (receive_body io port head s).0 ≡ some x
  unfolding receive_body
  receive_body_accepts head s m0 m1 fits whole e = ground arith

  attempt_accepts :
      (frame : List ℕ) (attempt : ℕ) (s : Rpc W) {x : ℕ × List ℕ}
      → let t = asked frame attempt s in
        10 ≤ length (head_of t.link).0
        → (receive_body io port (head_of t.link).0 (record t { link = (head_of t.link).1 })).0
          ≡ some x
        → (attempt_rpc io port frame attempt s).0 ≡ some x
  unfolding attempt_rpc asked
  attempt_accepts frame zero s h e = ground arith
  attempt_accepts frame (suc attempt) s h e = ground arith

  -- What has arrived, an attempt returns.
  pub Arrives-attempt :
      (frame : List ℕ) (attempt : ℕ) (s : Rpc W) {st : ℕ} {p : List ℕ}
      → Arrives s.seq st p (asked frame attempt s).link
      → (attempt_rpc io port frame attempt s).0 ≡ some (st, p)
  Arrives-attempt frame attempt s {st} {p} a =
      attempt_accepts frame attempt s (omega (arith, a.head_whole)) (
        receive_body_accepts head (record t { link = (head_of t.link).1 })
          (at 0 (omega arith) f.magic_0) (at 1 (omega arith) f.magic_1)
          (omega (arith, f.fits, same_len)) (omega (arith, a.body_whole))
          (ap
              (λ d.
                (judge (wire_len head) d
                  (record t { link = (body_of head (head_of t.link).1).1 })).0)
              a.decodes
            ∙ judge_accepts (wire_len head) a.hdr p
                (record t { link = (body_of head (head_of t.link).1).1 })
                (a.seq_matches ∙ sym (asked_seq frame attempt s))
            ∙ ap (λ x. some (x, p)) a.status_is))
    where
      t : Rpc W
      t = asked frame attempt s

      head : List ℕ
      head = (head_of t.link).0

      body : List ℕ
      body = (body_of head (head_of t.link).1).0

      f : IsFrame (head ++ body)
      f = (decode-IsFrame (head ++ body) a.hdr p a.decodes).0

      at : (i : ℕ) → i < 10 → {b : ℕ} → byte_at (head ++ body) i ≡ b → byte_at head i ≡ b
      at i lt e = sym (get_or-append_lt head body i 0 (omega (arith, a.head_whole))) ∙ e

      same_len : wire_len (head ++ body) ≡ wire_len head
      same_len = wire_len-append head body (omega (arith, a.head_whole))

  -- What the later steps of an attempt leave alone.
  abbrev Keeps : Rpc W → Rpc W → Type 0
  Keeps s t =
      (t.seq ≡ s.seq) × (t.stats.tx_bytes ≡ s.stats.tx_bytes) × (t.stats.retries ≡ s.stats.retries)

  judge-Keeps : (n : ℕ) (d : Decoded) (s : Rpc W) → Keeps s (judge n d s).1
  unfolding judge count_rx count_crc_err
  judge-Keeps n (Decoded.ok hdr rp) s = ground arith
  judge-Keeps n _ s = (refl, refl, refl)

  receive_body-Keeps : (head : List ℕ) (s : Rpc W) → Keeps s (receive_body io port head s).1
  unfolding receive_body count_timeout
  receive_body-Keeps head s = ground (
    arith,
    judge-Keeps (wire_len head) (frame_decode (head ++ (body_of head s.link).0))
        (record s { link = (body_of head s.link).1 }),
  )

  attempt-Keeps :
      (frame : List ℕ) (attempt : ℕ) (s : Rpc W)
      → Keeps (asked frame attempt s) (attempt_rpc io port frame attempt s).1
  unfolding attempt_rpc asked count_timeout
  attempt-Keeps frame zero s = ground (
    arith,
    receive_body-Keeps (head_of (asked frame zero s).link).0
        (record (asked frame zero s) { link = (head_of (asked frame zero s).link).1 }),
  )
  attempt-Keeps frame (suc attempt) s = ground (
    arith,
    receive_body-Keeps (head_of (asked frame (suc attempt) s).link).0
        (record (asked frame (suc attempt) s) {
          link = (head_of (asked frame (suc attempt) s).link).1;
        }),
  )

  -- Every attempt keeps the sequence number, counts the bytes that it sends, and counts as a retry
  -- if it is not the first.
  pub attempt_counts :
      (frame : List ℕ) (attempt : ℕ) (s : Rpc W)
      → let t = (attempt_rpc io port frame attempt s).1 in
        (t.seq ≡ s.seq)
        × (t.stats.tx_bytes ≡ u32 (s.stats.tx_bytes + length frame))
        × (t.stats.retries ≡ (if attempt == 0 then s.stats.retries else u16 (s.stats.retries + 1)))
  unfolding asked
  attempt_counts frame zero s = attempt-Keeps frame zero s
  attempt_counts frame (suc attempt) s = ground (arith, attempt-Keeps frame (suc attempt) s)

  pub attempt_retries :
      (frame : List ℕ) (attempt : ℕ) (s : Rpc W)
      → (attempt_rpc io port frame (suc attempt) s).1.stats.retries ≡ u16 (s.stats.retries + 1)
  attempt_retries frame attempt s = ground (arith, attempt_counts frame (suc attempt) s)

  -- A header that does not come whole ends the attempt.
  pub attempt-none :
      (frame : List ℕ) (attempt : ℕ) (s : Rpc W)
      → length (head_of (asked frame attempt s).link).0 < 10
      → (attempt_rpc io port frame attempt s).0 ≡ none
  unfolding attempt_rpc asked
  attempt-none frame zero s h = ground arith
  attempt-none frame (suc attempt) s h = ground arith
