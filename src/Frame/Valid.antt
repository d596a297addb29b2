-- ===== src/Frame/Valid.antt =====
-- A buffer that holds a valid frame, and the bytes of one.
use serial_dfs.Base.{
  ℕ, ◌+◌, ◌/◌, ◌^◌, ◌<◌, ◌≤◌, List, ◌++◌, u8, le16, byte_at, take, drop, length, ◌≡◌, refl, ap, ◌∙◌,
  arith, length-append, take-append, get_or-append_right,
}
use mathlib.Core.Path.{subst}
use serial_dfs.Crc.{crc16_block}
use serial_dfs.Frame.{FrameHdr, ok, frame_header, crc_bytes, frame_decode, wire_len, header_of}

abbrev pub crc_wire : List ℕ → ℕ
crc_wire buf = le16 (byte_at buf (10 + wire_len buf)) (byte_at buf (10 + wire_len buf + 1))

-- What `frame_decode` checks before it accepts.
pub record IsFrame (buf : List ℕ) : Type 0 where
  pub whole : 12 + wire_len buf ≤ length buf
  pub magic_0 : byte_at buf 0 ≡ b'S'
  pub magic_1 : byte_at buf 1 ≡ b'D'
  pub version_1 : byte_at buf 2 ≡ 1
  pub fits : wire_len buf ≤ 512
  pub checked : crc_wire buf ≡ crc16_block (take (10 + wire_len buf) buf)

pub IsFrame-decode :
    (buf : List ℕ)
    → IsFrame buf
    → frame_decode buf ≡ ok (header_of buf) (take (wire_len buf) (drop 10 buf))
unfolding frame_decode
IsFrame-decode buf f = ground arith

pub decode-IsFrame :
    (buf : List ℕ) (hdr : FrameHdr) (p : List ℕ)
    → frame_decode buf ≡ ok hdr p
    → IsFrame buf × (hdr ≡ header_of buf) × (p ≡ take (wire_len buf) (drop 10 buf))
unfolding frame_decode
decode-IsFrame buf hdr p e = ground arith

-- A frame of the bytes `body` and the CRC `c`, followed by `rest`, as one append.
module _ (cmd seq flags status : ℕ) (p rest : List ℕ) (c : ℕ) (fits : length p ≤ 512) where
  abbrev body : List ℕ
  body = frame_header cmd seq flags status (length p) ++ p

  abbrev wire : List ℕ
  wire = body ++ (crc_bytes c ++ rest)

  pub length-body : length body ≡ 10 + length p
  unfolding frame_header
  length-body = omega arith

  length-wire : length wire ≡ 12 + length p + length rest
  unfolding crc_bytes
  length-wire = omega (arith, length-append body (crc_bytes c ++ rest), length-body)

  pub wire_len-wire : wire_len wire ≡ length p
  unfolding frame_header wire_len
  wire_len-wire = omega arith

  take-wire : take (10 + length p) wire ≡ body
  take-wire = subst (λ n. take n wire ≡ body) length-body (take-append body (crc_bytes c ++ rest))

  byte_at-wire : (i : ℕ) → byte_at wire (10 + length p + i) ≡ byte_at (crc_bytes c ++ rest) i
  byte_at-wire i =
      subst (λ n. byte_at wire (n + i) ≡ byte_at (crc_bytes c ++ rest) i) length-body
        (get_or-append_right body (crc_bytes c ++ rest) i 0)

  low : byte_at wire (10 + length p) ≡ u8 c
  unfolding crc_bytes
  low = ap (byte_at wire) (omega arith) ∙ byte_at-wire 0

  high : byte_at wire (10 + length p + 1) ≡ u8 (c / 2 ^ 8)
  unfolding crc_bytes
  high = byte_at-wire 1

  pub payload-wire : take (length p) (drop 10 wire) ≡ p
  unfolding frame_header
  payload-wire = take-append p (crc_bytes c ++ rest)

  pub header_of-wire : header_of wire ≡ record {
    version = 1;
    flags = flags;
    seq = seq;
    command = cmd;
    status = status;
    payload_len = length p;
  }
  unfolding frame_header
  header_of-wire = ground arith

  pub wire-IsFrame : c < 2 ^ 16 → c ≡ crc16_block body → IsFrame wire
  wire-IsFrame lt e = record {
    whole = omega (arith, wire_len-wire, length-wire);
    magic_0 = unfold frame_header in refl;
    magic_1 = unfold frame_header in refl;
    version_1 = unfold frame_header in refl;
    fits = omega (arith, wire_len-wire);
    checked = rw (wire_len-wire, take-wire, low, high, ← e) (omega arith);
  }
