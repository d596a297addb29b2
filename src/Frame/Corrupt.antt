-- ===== src/Frame/Corrupt.antt =====
-- One changed byte in an accepted frame.
use serial_dfs.Base.{
  ℕ, suc, ◌+◌, ◌<◌, ◌≤◌, ◌==◌, ltb, if◌then◌else◌, List, ◌∷◌, ◌++◌, le16, byte_at, take, drop,
  length, set, ◌≡◌, ◌≢◌, ap, ap₂, sym, ◌∙◌, arith, length-set, length-take, AllBytes, byte_at-lt,
  AllBytes-take, AllBytes-drop, set_split, get_or-set_self, get_or-set_ne, get_or-take, ◌⊎◌, inl,
  inr, take-set_ge, take-set_lt,
}
use native.Mathlib.Decide.{dec_lt, ℕ_discrete}
use serial_dfs.Crc.{crc16_block}
use serial_dfs.Crc.Detect.{crc16_block_single}
use serial_dfs.Frame.{FrameHdr, Decoded, ok, bad_magic, bad_ver, bad_crc, frame_decode, wire_len}
use serial_dfs.Frame.Valid.{IsFrame, decode-IsFrame, crc_wire}

-- A whole frame that fails only the last test.
decode-bad_crc :
    (buf : List ℕ)
    → 12 + wire_len buf ≤ length buf
    → byte_at buf 0 ≡ b'S'
    → byte_at buf 1 ≡ b'D'
    → byte_at buf 2 ≡ 1
    → wire_len buf ≤ 512
    → crc_wire buf ≢ crc16_block (take (10 + wire_len buf) buf)
    → frame_decode buf ≡ bad_crc
unfolding frame_decode
decode-bad_crc buf whole m0 m1 v fits ne = ground arith

decode-bad_magic :
    (buf : List ℕ)
    → 10 ≤ length buf
    → (byte_at buf 0 ≢ b'S') ⊎ (byte_at buf 1 ≢ b'D')
    → frame_decode buf ≡ bad_magic
unfolding frame_decode
decode-bad_magic buf h ne = ground arith

decode-bad_ver :
    (buf : List ℕ)
    → 10 ≤ length buf
    → byte_at buf 0 ≡ b'S'
    → byte_at buf 1 ≡ b'D'
    → byte_at buf 2 ≢ 1
    → frame_decode buf ≡ bad_ver
unfolding frame_decode
decode-bad_ver buf h m0 m1 ne = ground arith

-- The refusal that a changed byte at index `i` meets first.
abbrev pub verdict : ℕ → Decoded
verdict i = if ltb i 2 then bad_magic else if i == 2 then bad_ver else bad_crc

module _ (buf : List ℕ) (i b : ℕ) (bytes : AllBytes buf) (f : IsFrame buf)
    (inside : i < 12 + wire_len buf) (byte : b < 256) (ne : b ≢ byte_at buf i) where
  abbrev n : ℕ
  n = wire_len buf

  abbrev hit : List ℕ
  hit = set buf i b

  at_i : byte_at hit i ≡ b
  at_i = get_or-set_self buf i b 0 (omega (arith, f.whole))

  same_at : (j : ℕ) → i ≢ j → byte_at hit j ≡ byte_at buf j
  same_at j p = get_or-set_ne buf i j b 0 p

  module _ (not_8 : i ≢ 8) (not_9 : i ≢ 9) where
    same_len : wire_len hit ≡ n
    unfolding wire_len
    same_len = ap₂ le16 (same_at 8 not_8) (same_at 9 not_9)

    -- The change lies in the bytes that the CRC covers.
    covered : i < 10 + n → crc_wire hit ≢ crc16_block (take (10 + wire_len hit) hit)
    covered lt e =
        crc16_block_single (take i front) (byte_at front i) b (drop (suc i) front)
          (AllBytes-drop (suc i) front (AllBytes-take (10 + n) buf bytes))
          (byte_at-lt front i (AllBytes-take (10 + n) buf bytes)) byte (λ q. ne (sym q ∙ front_at))
          (ap crc16_block (sym split.0)
            ∙ sym f.checked
            ∙ sym wire_same
            ∙ e
            ∙ ap crc16_block cut
            ∙ ap crc16_block split.1)
      where
        front : List ℕ
        front = take (10 + n) buf

        in_front : i < length front
        in_front = omega (arith, length-take (10 + n) buf, f.whole)

        split :
            (front ≡ take i front ++ byte_at front i ∷ drop (suc i) front)
            × (set front i b ≡ take i front ++ b ∷ drop (suc i) front)
        split = set_split 0 front i b in_front

        front_at : byte_at front i ≡ byte_at buf i
        front_at = get_or-take buf (10 + n) i 0 lt

        cut : take (10 + wire_len hit) hit ≡ set front i b
        cut = ap (λ k. take (10 + k) hit) same_len ∙ take-set_lt buf (10 + n) i b lt

        wire_same : crc_wire hit ≡ crc_wire buf
        wire_same =
            ap (λ k. le16 (byte_at hit (10 + k)) (byte_at hit (10 + k + 1))) same_len
            ∙ ap₂ le16 (same_at (10 + n) (omega arith)) (same_at (10 + n + 1) (omega arith))

    -- The change lies in the CRC itself.
    in_crc : 10 + n ≤ i → crc_wire hit ≢ crc16_block (take (10 + wire_len hit) hit)
    in_crc ge e = elim (ℕ_discrete i (10 + n)) [
      | yes p ↦ ne (
          omega (
            arith,
            ap (byte_at buf) p,
            sums,
            at_low p,
            same_at (10 + n + 1) (omega arith),
            low_lt,
            at_lt,
          ))
      | no p ↦ ne (
          omega
            (arith, ap (byte_at buf) (last p), sums, at_high p, same_at (10 + n) p, low_lt, at_lt))
    ]
      where
        last : i ≢ 10 + n → i ≡ 10 + n + 1
        last p = omega arith

        low_lt : byte_at buf (10 + n) < 256
        low_lt = byte_at-lt buf (10 + n) bytes

        at_lt : byte_at buf i < 256
        at_lt = byte_at-lt buf i bytes

        at_low : i ≡ 10 + n → byte_at hit (10 + n) ≡ b
        at_low p = ap (byte_at hit) (sym p) ∙ at_i

        at_high : i ≢ 10 + n → byte_at hit (10 + n + 1) ≡ b
        at_high p = ap (byte_at hit) (sym (last p)) ∙ at_i

        sums :
            le16 (byte_at hit (10 + n)) (byte_at hit (10 + n + 1))
            ≡ le16 (byte_at buf (10 + n)) (byte_at buf (10 + n + 1))
        sums =
            ap (λ k. le16 (byte_at hit (10 + k)) (byte_at hit (10 + k + 1))) (sym same_len)
            ∙ e
            ∙ ap (λ k. crc16_block (take (10 + k) hit)) same_len
            ∙ ap crc16_block (take-set_ge buf (10 + n) i b ge)
            ∙ sym f.checked

    body_refused : 2 < i → frame_decode hit ≡ bad_crc
    body_refused p =
        decode-bad_crc hit (omega (arith, same_len, length-set buf i b, f.whole))
          (same_at 0 (omega arith) ∙ f.magic_0) (same_at 1 (omega arith) ∙ f.magic_1)
          (same_at 2 (omega arith) ∙ f.version_1) (omega (arith, same_len, f.fits))
          (elim (dec_lt i (10 + n)) [ yes lt ↦ covered lt | no ge ↦ in_crc (omega arith) ])

  long : 10 ≤ length hit
  long = omega (arith, length-set buf i b, f.whole)

  head_refused : i ≤ 2 → frame_decode hit ≡ verdict i
  head_refused le = elim (ℕ_discrete i 0) [
    | yes p ↦
        decode-bad_magic hit long (
          inl (λ e.
            ne (sym at_i ∙ ap (byte_at hit) p ∙ e ∙ sym f.magic_0 ∙ ap (byte_at buf) (sym p))))
        ∙ ground arith
    | no p ↦ elim (ℕ_discrete i 1) [
      | yes q ↦
          decode-bad_magic hit long (
            inr (λ e.
              ne (sym at_i ∙ ap (byte_at hit) q ∙ e ∙ sym f.magic_1 ∙ ap (byte_at buf) (sym q))))
          ∙ ground arith
      | no q ↦
          decode-bad_ver hit long (same_at 0 p ∙ f.magic_0) (same_at 1 q ∙ f.magic_1) (λ e. ne (
            sym at_i
            ∙ ap (byte_at hit) (two p q)
            ∙ e
            ∙ sym f.version_1
            ∙ ap (byte_at buf) (sym (two p q))))
          ∙ ground arith
    ]
  ]
    where
      two : i ≢ 0 → i ≢ 1 → i ≡ 2
      two p q = omega arith

  hit_refused : i ≢ 8 → i ≢ 9 → frame_decode hit ≡ verdict i
  hit_refused p q = elim (dec_lt 2 i) [
    | yes lt ↦ body_refused p q lt ∙ ground arith
    | no ge ↦ head_refused (omega arith)
  ]

-- Change one byte of a frame that `frame_decode` accepts, anywhere but in the two bytes of the
-- length, to another byte: the magic, the version or the CRC test refuses it, as the place says.
pub decode-set_corrupt :
    (buf : List ℕ) (i b : ℕ) {hdr : FrameHdr} {p : List ℕ}
    → AllBytes buf
    → frame_decode buf ≡ ok hdr p
    → i < 12 + length p
    → i ≢ 8
    → i ≢ 9
    → b < 256
    → b ≢ byte_at buf i
    → frame_decode (set buf i b) ≡ verdict i
decode-set_corrupt buf i b {hdr} {p} bytes e inside not_8 not_9 byte ne =
    let (f, eh, ep) = decode-IsFrame buf hdr p e in
    hit_refused buf i b bytes f
      (omega (arith, inside, ap length ep, length-take (wire_len buf) (drop 10 buf))) byte ne not_8
      not_9
