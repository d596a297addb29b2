-- ===== src/Frame/RoundTrip.antt =====
-- `frame_encode` and `frame_decode` are inverse.
use serial_dfs.Base.{
  ℕ, suc, ◌+◌, ◌<◌, ◌≤◌, List, [], ◌∷◌, ◌++◌, none, some, le16, byte_at, take, drop, length, ◌≡◌,
  refl, ap, ap₂, sym, ◌∙◌, arith, get_or-append_lt, append_assoc, take-take-drop, take-drop-suc,
  length-append, length-take, length-drop, AllBytes, byte_at-lt, ◌≡⟨◌⟩◌, ◌∎,
}
use mathlib.Core.Path.{subst₂}
use serial_dfs.Crc.{crc16_block}
use serial_dfs.Crc.Detect.{crc16_block-lt}
use serial_dfs.Frame.{
  FrameHdr, ok, frame_header, crc_bytes, frame_encode, frame_decode, wire_len, header_of,
  frame_max_size,
}
use serial_dfs.Frame.Valid.{
  crc_wire, IsFrame, IsFrame-decode, decode-IsFrame, length-body, wire_len-wire, payload-wire,
  header_of-wire, wire-IsFrame,
}

pub encode_lem :
    (cmd seq flags status : ℕ) (p : List ℕ)
    → length p ≤ 512
    → frame_encode cmd seq flags status p
      ≡ some (
          (frame_header cmd seq flags status (length p) ++ p)
          ++ crc_bytes (crc16_block (frame_header cmd seq flags status (length p) ++ p)))
unfolding frame_encode
encode_lem cmd seq flags status p h = ground arith

pub encode-fits :
    (cmd seq flags status : ℕ) (p : List ℕ) {out : List ℕ}
    → frame_encode cmd seq flags status p ≡ some out
    → (length p ≤ 512)
      × (out
          ≡ (frame_header cmd seq flags status (length p) ++ p)
            ++ crc_bytes (crc16_block (frame_header cmd seq flags status (length p) ++ p)))
unfolding frame_encode
encode-fits cmd seq flags status p e = ground arith

-- The length that `frame_encode` returns is the payload's and twelve more, so at most 524.
pub length-encode :
    (cmd seq flags status : ℕ) (p : List ℕ) {out : List ℕ}
    → frame_encode cmd seq flags status p ≡ some out
    → (length out ≡ 12 + length p) × (length out ≤ frame_max_size)
unfolding crc_bytes
length-encode cmd seq flags status p {out} e =
    let h = encode-fits cmd seq flags status p e in
    let b = frame_header cmd seq flags status (length p) ++ p in
    omega (
      arith,
      h.0,
      ap length h.1,
      length-append b (crc_bytes (crc16_block b)),
      length-body cmd seq flags status p [] 0 h.0,
    )

-- Any frame that `frame_encode` builds is accepted, whatever bytes follow it in the buffer, and
-- gives back the header's fields and the payload.
pub decode-encode :
    (cmd seq flags status : ℕ) (p rest : List ℕ) {out : List ℕ}
    → frame_encode cmd seq flags status p ≡ some out
    → frame_decode (out ++ rest)
      ≡ ok
          (record {
            version = 1;
            flags = flags;
            seq = seq;
            command = cmd;
            status = status;
            payload_len = length p;
          })
          p
decode-encode cmd seq flags status p rest {out} e =
    frame_decode (out ++ rest)
    ≡⟨ ap (λ o. frame_decode (o ++ rest)) h.1 ⟩ frame_decode ((b ++ crc_bytes c) ++ rest)
    ≡⟨ ap frame_decode (append_assoc b (crc_bytes c) rest) ⟩ frame_decode w
    ≡⟨ IsFrame-decode w (wire-IsFrame cmd seq flags status p rest c h.0 (crc16_block-lt b) refl) ⟩
      ok (header_of w) (take (wire_len w) (drop 10 w))
    ≡⟨ ap₂ ok (header_of-wire cmd seq flags status p rest c h.0) (
        ap (λ n. take n (drop 10 w)) (wire_len-wire cmd seq flags status p rest c h.0)
        ∙ payload-wire cmd seq flags status p rest c h.0) ⟩
      ok _ p ∎
  where
    h :
        (length p ≤ 512)
        × (out
            ≡ (frame_header cmd seq flags status (length p) ++ p)
              ++ crc_bytes (crc16_block (frame_header cmd seq flags status (length p) ++ p)))
    h = encode-fits cmd seq flags status p e

    b : List ℕ
    b = frame_header cmd seq flags status (length p) ++ p

    c : ℕ
    c = crc16_block b

    w : List ℕ
    w = b ++ (crc_bytes c ++ rest)

-- The first bytes of a buffer, one by one.
take-ten :
    (buf : List ℕ)
    → 10 ≤ length buf
    → take 10 buf
      ≡ byte_at buf 0
        ∷ byte_at buf 1
        ∷ byte_at buf 2
        ∷ byte_at buf 3
        ∷ byte_at buf 4
        ∷ byte_at buf 5
        ∷ byte_at buf 6
        ∷ byte_at buf 7
        ∷ byte_at buf 8
        ∷ byte_at buf 9
        ∷ []
take-ten buf h = cut 9 0 (omega arith) (
    cut 8 1 (omega arith) (
      cut 7 2 (omega arith) (
        cut 6 3 (omega arith) (
          cut 5 4 (omega arith) (
            cut 4 5 (omega arith) (
              cut 3 6 (omega arith)
                (cut 2 7 (omega arith) (cut 1 8 (omega arith) (cut 0 9 (omega arith) refl)))))))))
  where
    cut :
        (n i : ℕ)
        → i < length buf
        → {t : List ℕ} → take n (drop (suc i) buf) ≡ t
        → take (suc n) (drop i buf) ≡ byte_at buf i ∷ t
    cut n i lt e = take-drop-suc 0 n i buf lt ∙ ap (λ t. byte_at buf i ∷ t) e

module _ (buf : List ℕ) (bytes : AllBytes buf) (reserved : byte_at buf 7 ≡ 0)
    (f : IsFrame buf) where
  abbrev n : ℕ
  n = wire_len buf

  abbrev payload : List ℕ
  payload = take n (drop 10 buf)

  length-payload : length payload ≡ n
  length-payload = omega (arith, length-take n (drop 10 buf), length-drop 10 buf, f.whole)

  header-take :
      frame_header (byte_at buf 5) (byte_at buf 4) (byte_at buf 3) (byte_at buf 6) n ≡ take 10 buf
  unfolding frame_header wire_len
  header-take = ground (
    arith,
    take-ten buf (omega (arith, f.whole)),
    f.magic_0,
    f.magic_1,
    f.version_1,
    byte_at-lt buf 8 bytes,
    byte_at-lt buf 9 bytes,
  )

  body-take :
      frame_header (byte_at buf 5) (byte_at buf 4) (byte_at buf 3) (byte_at buf 6) n ++ payload
      ≡ take (10 + n) buf
  body-take = ap (λ t. t ++ payload) header-take ∙ take-take-drop 10 n buf

  crc-take : crc_bytes (crc_wire buf) ≡ take 2 (drop (10 + n) buf)
  unfolding crc_bytes
  crc-take = ground (
    arith,
    take-drop-suc 0 1 (10 + n) buf (omega (arith, f.whole)),
    take-drop-suc 0 0 (suc (10 + n)) buf (omega (arith, f.whole)),
    byte_at-lt buf (10 + n) bytes,
    byte_at-lt buf (10 + n + 1) bytes,
    ap (byte_at buf) next,
  )
    where
      next : 10 + n + 1 ≡ suc (10 + n)
      next = omega arith

  frame-take :
      (take (10 + n) buf) ++ crc_bytes (crc16_block (take (10 + n) buf)) ≡ take (12 + n) buf
  frame-take =
      ap (λ c. take (10 + n) buf ++ crc_bytes c) (sym f.checked)
      ∙ ap (λ t. take (10 + n) buf ++ t) crc-take
      ∙ take-take-drop (10 + n) 2 buf
      ∙ ap (λ k. take k buf) (omega arith)

  encode-header_of :
      frame_encode (byte_at buf 5) (byte_at buf 4) (byte_at buf 3) (byte_at buf 6) payload
      ≡ some (take (12 + length payload) buf)
  encode-header_of =
      encode_lem (byte_at buf 5) (byte_at buf 4) (byte_at buf 3) (byte_at buf 6) payload
        (omega (arith, length-payload, f.fits))
      ∙ rw (length-payload, body-take) (ap some frame-take)

-- A buffer of bytes whose reserved byte is 0 and that `frame_decode` accepts starts with exactly
-- the frame that `frame_encode` builds from the decoded fields.
pub encode-decode :
    (buf : List ℕ) {hdr : FrameHdr} {p : List ℕ}
    → AllBytes buf
    → byte_at buf 7 ≡ 0
    → frame_decode buf ≡ ok hdr p
    → frame_encode hdr.command hdr.seq hdr.flags hdr.status p ≡ some (take (12 + length p) buf)
encode-decode buf {hdr} {p} h r e =
    let (f, eh, ep) = decode-IsFrame buf hdr p e in
    subst₂
      (λ (k : FrameHdr) q.
        frame_encode k.command k.seq k.flags k.status q ≡ some (take (12 + length q) buf))
      (sym eh) (sym ep) (encode-header_of buf h r f)

pub wire_len-append :
    (head tail : List ℕ) → 10 ≤ length head → wire_len (head ++ tail) ≡ wire_len head
unfolding wire_len
wire_len-append head tail h =
    ap₂ le16 (get_or-append_lt head tail 8 0 (omega arith))
      (get_or-append_lt head tail 9 0 (omega arith))

pub encode-none :
    (cmd seq flags status : ℕ) (p : List ℕ)
    → 512 < length p
    → frame_encode cmd seq flags status p ≡ none
unfolding frame_encode
encode-none cmd seq flags status p h = ground arith
