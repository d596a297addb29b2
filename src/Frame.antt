-- ===== src/Frame.antt =====
-- dos/src/serframe.h and dos/src/serframe.c: the frame codec.
-- A buffer is the list of its bytes, and `plen` or `len` is that list's length.
pub mod Valid
pub mod RoundTrip
pub mod Corrupt
use serial_dfs.Base.{
  ℕ, ◌+◌, ◌*◌, ◌/◌, ◌^◌, ◌==◌, ltb, not, ◌||◌, if◌then◌else◌, List, [], ◌∷◌, ◌++◌, Option, none,
  some, u8, le16, byte_at, take, drop, length,
}
use serial_dfs.Crc.{crc16_block}

abbrev pub frame_version : ℕ
frame_version = 1

abbrev pub frame_hdr_size : ℕ
frame_hdr_size = 10

abbrev pub frame_crc_size : ℕ
frame_crc_size = 2

abbrev pub frame_max_payload : ℕ
frame_max_payload = 512

abbrev pub frame_max_size : ℕ
frame_max_size = 524

-- `FrameHdr`.
pub record FrameHdr : Type 0 where
  pub version : ℕ
  pub flags : ℕ
  pub seq : ℕ
  pub command : ℕ
  pub status : ℕ
  pub payload_len : ℕ

-- What `frame_decode` returns: on FRAME_OK the header and the `plen` bytes at `*payload_out`.
pub data Decoded : Type 0 where
  ok : FrameHdr → List ℕ → Decoded
  short bad_magic bad_ver bad_crc too_long : Decoded

-- out[0..10), before the payload.
unfoldable pub frame_header : ℕ → ℕ → ℕ → ℕ → ℕ → List ℕ
frame_header cmd seq flags status plen =
    b'S' ∷ b'D' ∷ frame_version ∷ flags ∷ seq ∷ cmd ∷ status ∷ 0 ∷ u8 plen ∷ u8 (plen / 2 ^ 8) ∷ []

-- The two bytes of a CRC, low byte first.
unfoldable pub crc_bytes : ℕ → List ℕ
crc_bytes crc = u8 crc ∷ u8 (crc / 2 ^ 8) ∷ []

-- The bytes that `frame_encode` stores from out[0] on; their number is what it returns. `none` is
-- the return of 0.
unfoldable pub frame_encode : ℕ → ℕ → ℕ → ℕ → List ℕ → Option (List ℕ)
unfolding frame_header crc_bytes
frame_encode cmd seq flags status payload =
    if ltb frame_max_payload (length payload)
    then none
    else let body = frame_header cmd seq flags status (length payload) ++ payload in
      some (body ++ crc_bytes (crc16_block body))

-- `plen` as both `frame_decode` and `serial_rpc` read it from a header.
unfoldable pub wire_len : List ℕ → ℕ
wire_len buf = le16 (byte_at buf 8) (byte_at buf 9)

abbrev pub header_of : List ℕ → FrameHdr
header_of buf = record {
  version = byte_at buf 2;
  flags = byte_at buf 3;
  seq = byte_at buf 4;
  command = byte_at buf 5;
  status = byte_at buf 6;
  payload_len = le16 (byte_at buf 8) (byte_at buf 9);
}

unfoldable pub frame_decode : List ℕ → Decoded
frame_decode buf =
    if ltb (length buf) frame_hdr_size
    then short
    else if not (byte_at buf 0 == b'S') || not (byte_at buf 1 == b'D')
    then bad_magic
    else if not (byte_at buf 2 == frame_version)
    then bad_ver
    else let plen = wire_len buf in
      if ltb frame_max_payload plen
      then too_long
      else if ltb (length buf) (frame_hdr_size + plen + frame_crc_size)
      then short
      else let crc_wire =
          le16 (byte_at buf (frame_hdr_size + plen)) (byte_at buf (frame_hdr_size + plen + 1)) in
        if not (crc_wire == crc16_block (take (frame_hdr_size + plen) buf))
        then bad_crc
        else ok (header_of buf) (take plen (drop frame_hdr_size buf))
