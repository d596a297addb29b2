-- ===== src/Tests/Codec.antt =====
-- A frame with a payload of two bytes, the CRC of its bytes, and what a changed byte does to it.
use serial_dfs.Base.{ℕ, List, [], ◌∷◌, ◌++◌, some, set, ◌≡◌, ◌≢◌, refl, arith, take, length, ◌≤◌}
use serial_dfs.Crc.{
  crc16_block, crc16_from, crc16_update, crc_table, crc_init, crc_shifts, crc_shift,
}
use serial_dfs.Crc.Reference.{crc16_block-eq-crc_serial_from, crc_serial_from}
use serial_dfs.Crc.Detect.{crc16_block_single}
use serial_dfs.Frame.{
  FrameHdr, ok, bad_crc, frame_encode, frame_decode, frame_header, crc_bytes, wire_len,
}
use serial_dfs.Frame.RoundTrip.{length-encode, decode-encode, encode-decode}
use serial_dfs.Frame.Corrupt.{decode-set_corrupt}

-- A ping with the payload "AB" and the sequence number 5.
abbrev ping : List ℕ
ping = 83 ∷ 68 ∷ 1 ∷ 0 ∷ 5 ∷ 1 ∷ 0 ∷ 0 ∷ 2 ∷ 0 ∷ 65 ∷ 66 ∷ 109 ∷ 90 ∷ []

abbrev ping_hdr : FrameHdr
ping_hdr = record { version = 1; flags = 0; seq = 5; command = 1; status = 0; payload_len = 2 }

ping_encodes : frame_encode 1 5 0 0 (65 ∷ 66 ∷ []) ≡ some ping
unfolding frame_encode frame_header crc_bytes crc16_block crc16_from crc16_update crc_table crc_init
    crc_shifts crc_shift
ping_encodes = refl

ping_decodes : frame_decode ping ≡ ok ping_hdr (65 ∷ 66 ∷ [])
unfolding frame_decode wire_len crc16_block crc16_from crc16_update crc_table crc_init crc_shifts
    crc_shift
ping_decodes = refl

length-encode_example : (length ping ≡ 14) × (length ping ≤ 524)
length-encode_example = length-encode 1 5 0 0 (65 ∷ 66 ∷ []) ping_encodes

decode-encode_example : frame_decode (ping ++ 7 ∷ []) ≡ ok ping_hdr (65 ∷ 66 ∷ [])
decode-encode_example = decode-encode 1 5 0 0 (65 ∷ 66 ∷ []) (7 ∷ []) ping_encodes

encode-decode_example : frame_encode 1 5 0 0 (65 ∷ 66 ∷ []) ≡ some (take 14 ping)
encode-decode_example = encode-decode ping (omega arith) refl ping_decodes

decode-set_corrupt_example : frame_decode (set ping 10 97) ≡ bad_crc
decode-set_corrupt_example =
    decode-set_corrupt ping 10 97 (omega arith) ping_decodes (omega arith) (omega arith)
      (omega arith) (omega arith) (omega arith)

crc16_block_single_example : crc16_block (1 ∷ 2 ∷ 3 ∷ []) ≢ crc16_block (1 ∷ 9 ∷ 3 ∷ [])
crc16_block_single_example =
    crc16_block_single (1 ∷ []) 2 9 (3 ∷ []) (omega arith) (omega arith) (omega arith) (omega arith)

crc16_block-eq-crc_serial_from_example : crc16_block ping ≡ crc_serial_from 0xFFFF ping
crc16_block-eq-crc_serial_from_example = crc16_block-eq-crc_serial_from ping (omega arith)
