-- ===== src/Tools/Serping/Answered.antt =====
-- When SERPING reports success.
use serial_dfs.Base.{
  ℕ, ◌+◌, ◌≤◌, ltb, if◌then◌else◌, true, false, Bool, some, List, [], ◌∷◌, ◌++◌, length, ◌≡◌, ◌↔◌,
  refl, sym, ap, ◌∙◌, arith,
}
use serial_dfs.Command.{cmd_ping}
use serial_dfs.Frame.{FrameHdr, Decoded, frame_encode, frame_decode, wire_len}
use serial_dfs.Link.{Link}
use serial_dfs.Tools.{line, parse_line}
use serial_dfs.Tools.Serping.{
  Said, fail_header, fail_oversized, fail_payload, main, judge, passed, receive, ping,
}

-- A PING answer with the program's sequence number and STATUS_OK.
pub record IsPong (r : Decoded) : Type 0 where
  pub hdr : FrameHdr
  pub payload : List ℕ
  pub decodes : r ≡ Decoded.ok hdr payload
  pub seq_is : hdr.seq ≡ 1
  pub command_is : hdr.command ≡ cmd_ping
  pub status_is : hdr.status ≡ 0

judge-IsPong : (t0 t1 : ℕ) (r : Decoded) → passed (judge t0 t1 r) ≡ true → IsPong r
unfolding judge passed
judge-IsPong t0 t1 (Decoded.ok hdr p) e = record {
  hdr = hdr;
  payload = p;
  decodes = refl;
  seq_is = ground (arith, e);
  command_is = ground (arith, e);
  status_is = ground (arith, e);
}
judge-IsPong t0 t1 Decoded.short e = cc
judge-IsPong t0 t1 Decoded.bad_magic e = cc
judge-IsPong t0 t1 Decoded.bad_ver e = cc
judge-IsPong t0 t1 Decoded.bad_crc e = cc
judge-IsPong t0 t1 Decoded.too_long e = cc

IsPong-judge : (t0 t1 : ℕ) (r : Decoded) → IsPong r → passed (judge t0 t1 r) ≡ true
unfolding judge passed
IsPong-judge t0 t1 r h = rw (h.decodes) (ground (arith, h.seq_is, h.command_is, h.status_is))

module _ {W : Type 0} (io : Link W) (ticks : W → ℕ) (port : ℕ) where
  -- In `w`, a header and the body that it announces arrive in time, and they are a PING answer.
  pub record PongArrives (w : W) : Type 0 where
    pub head_whole : length (io.recv_block port 10 36 w).0 ≡ 10
    pub fits : wire_len (io.recv_block port 10 36 w).0 ≤ 512
    pub body_whole :
        let (head, w1) = io.recv_block port 10 36 w in
        length (io.recv_block port (wire_len head + 2) 36 w1).0 ≡ wire_len head + 2
    pub pong :
        let (head, w1) = io.recv_block port 10 36 w in
        IsPong (frame_decode (head ++ (io.recv_block port (wire_len head + 2) 36 w1).0))

  gate : Bool → Bool → Bool → Said → W → W → Said × W
  gate b1 b2 b3 x w1 w2 =
      if b1
      then (fail_header, w1)
      else if b2
      then (fail_oversized, w1)
      else if b3
      then (fail_payload, w2)
      else (x, w2)

  gate-passed :
      (b1 b2 b3 : Bool) (x : Said) (w1 w2 : W)
      → passed (gate b1 b2 b3 x w1 w2).0 ≡ true
      → (b1 ≡ false) × (b2 ≡ false) × (b3 ≡ false) × (passed x ≡ true)
  unfolding gate passed
  gate-passed false false false x w1 w2 e = (refl, refl, refl, e)
  gate-passed true b2 b3 x w1 w2 e = absurd cc
  gate-passed false true b3 x w1 w2 e = absurd cc
  gate-passed false false true x w1 w2 e = absurd cc

  head_of : W → List ℕ × W
  head_of w = io.recv_block port 10 36 w

  body_of : W → List ℕ × W
  body_of w = io.recv_block port (wire_len (head_of w).0 + 2) 36 (head_of w).1

  receive-gate :
      (t0 : ℕ) (w : W)
      → receive io ticks port t0 w
        ≡ gate
            (ltb (length (head_of w).0) 10)
            (ltb 512 (wire_len (head_of w).0))
            (ltb (length (body_of w).0) (wire_len (head_of w).0 + 2))
            (judge t0 (ticks (body_of w).1) (frame_decode ((head_of w).0 ++ (body_of w).0)))
            (head_of w).1
            (body_of w).1
  unfolding receive gate head_of body_of
  receive-gate t0 w = refl

  receive-PongArrives :
      (t0 : ℕ) (w : W) → passed (receive io ticks port t0 w).0 ≡ true → PongArrives w
  unfolding head_of body_of
  receive-PongArrives t0 w e =
      let (b1, b2, b3, x) =
        gate-passed (ltb (length (head_of w).0) 10) (ltb 512 (wire_len (head_of w).0))
          (ltb (length (body_of w).0) (wire_len (head_of w).0 + 2))
          (judge t0 (ticks (body_of w).1) (frame_decode ((head_of w).0 ++ (body_of w).0)))
          (head_of w).1 (body_of w).1 (ap (λ r. passed r.0) (sym (receive-gate t0 w)) ∙ e) in
      record {
        head_whole = ground (arith, b1, io.recv_short port 10 36 w);
        fits = ground (arith, b2);
        body_whole =
            ground (arith, b3, io.recv_short port (wire_len (head_of w).0 + 2) 36 (head_of w).1);
        pong =
            judge-IsPong t0 (ticks (body_of w).1) (frame_decode ((head_of w).0 ++ (body_of w).0)) x;
      }

  PongArrives-receive :
      (t0 : ℕ) (w : W) → PongArrives w → passed (receive io ticks port t0 w).0 ≡ true
  unfolding head_of body_of gate
  PongArrives-receive t0 w h =
      ap (λ r. passed r.0) (receive-gate t0 w)
      ∙ rw (b1, b2, b3)
          (IsPong-judge t0 (ticks (body_of w).1) (frame_decode ((head_of w).0 ++ (body_of w).0))
            h.pong)
    where
      b1 : ltb (length (head_of w).0) 10 ≡ false
      b1 = ground (arith, h.head_whole)

      b2 : ltb 512 (wire_len (head_of w).0) ≡ false
      b2 = ground (arith, h.fits)

      b3 : ltb (length (body_of w).0) (wire_len (head_of w).0 + 2) ≡ false
      b3 = ground (arith, h.body_whole)

-- SERPING, its arguments understood, ends with the exit code 0 exactly if, after it has set up and
-- drained the port and sent the one frame of an empty PING with sequence number 1, a header and
-- its body arrive in time and decode to a PING answer with that number and STATUS_OK.
pub main-PongArrives :
    {W : Type 0} (io : Link W) (ticks : W → ℕ) (init : ℕ → ℕ → W → W) (port baud : List ℕ)
    (n div : ℕ) (w : W) (frame : List ℕ)
    → parse_line port baud ≡ line n div
    → frame_encode cmd_ping 1 0 0 [] ≡ some frame
    → ((main io ticks init (port ∷ baud ∷ []) w).exit ≡ 0)
      ↔ PongArrives io ticks n (io.send_block n frame (io.drain n (init n div w)))
unfolding main ping
main-PongArrives {W = W} io ticks init port baud n div w frame here encoded = (
  λ e.
      receive-PongArrives io ticks n (ticks w1) sent
        (exit_passed (passed (receive io ticks n (ticks w1) sent).0) (sym exit_is ∙ e)),
  λ h. exit_is ∙ ap (λ b. if b then 0 else 1) (PongArrives-receive io ticks n (ticks w1) sent h),
)
  where
    w1 : W
    w1 = io.drain n (init n div w)

    sent : W
    sent = io.send_block n frame w1

    exit_is :
        (main io ticks init (port ∷ baud ∷ []) w).exit
        ≡ (if passed (receive io ticks n (ticks w1) sent).0 then 0 else 1)
    exit_is = rw (main, here, ping, encoded)

    exit_code : Bool → ℕ
    exit_code b = if b then 0 else 1

    exit_passed : (b : Bool) → exit_code b ≡ 0 → b ≡ true
    exit_passed true e = refl
    exit_passed false e = ground (arith, e)
