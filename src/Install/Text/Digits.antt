-- ===== src/Install/Text/Digits.antt =====
-- The digits that the installer prints, read by the loop that it reads numbers with.
use serial_dfs.Base.{
  ℕ, zero, suc, ◌+◌, ◌*◌, ◌/◌, ◌%◌, ◌^◌, ◌<◌, ◌≤◌, ltb, leb, ◌&&◌, Bool-cases, inl, inr, true,
  false, List, [], ◌∷◌, ◌++◌, drop, length, length-append, ◌≡◌, refl, ap, ◌∙◌, arith,
}
use serial_dfs.Rpc.{Rpc, Stats}
use serial_dfs.Rpc.Bounds.{IsBounded}
use serial_dfs.Install.{baud_value}
use serial_dfs.Install.Text.{digits_from, appendulong, traffic_line, errors_line}

-- What `left` decimal digits can hold.
abbrev capacity : ℕ → ℕ
capacity zero = 1
capacity (suc left) = 10 * capacity left

read_digit :
    (c : ℕ) (p : List ℕ) (v : ℕ)
    → c < 10
    → v * 10 + c < 2 ^ 32
    → baud_value ((b'0' + c) ∷ p) v ≡ baud_value p (v * 10 + c)
unfolding baud_value
read_digit c p v lt small = rw (low, high) (ap (baud_value p) (omega arith))
  where
    low : leb b'0' (b'0' + c) ≡ true
    low = ground arith

    high : leb (b'0' + c) b'9' ≡ true
    high = ground arith

digits-read :
    (left val : ℕ) (out : List ℕ)
    → val < capacity left
    → 0 < left
    → val < 2 ^ 32
    → baud_value (digits_from left val out) 0 ≡ baud_value out val
unfolding digits_from
digits-read zero val out few pos small = absurd (omega arith)
digits-read (suc zero) val out few pos small =
    let last : ltb 0 (val / 10) ≡ false = ground arith in
    rw last (
      read_digit (val % 10) out 0 (omega arith) (omega arith)
      ∙ ap (baud_value out) (omega (arith, few)))
digits-read (suc (suc left)) val out few pos small = elim (Bool-cases (ltb 0 (val / 10))) [
  | inl more ↦ rw more (
      digits-read (suc left) (val / 10) ((b'0' + val % 10) ∷ out) (omega (arith, few)) (omega arith)
        (omega arith)
      ∙ read_digit (val % 10) out (val / 10) (omega arith) (omega arith)
      ∙ ap (baud_value out) (omega arith))
  | inr last ↦ rw last (
      read_digit (val % 10) out 0 (omega arith) (omega arith)
      ∙ ap (baud_value out) (ground (arith, last)))
]

digits-append :
    (left val : ℕ) (out tail : List ℕ)
    → digits_from left val out ++ tail ≡ digits_from left val (out ++ tail)
unfolding digits_from
digits-append zero val out tail = refl
digits-append (suc left) val out tail = elim (Bool-cases (ltb 0 (val / 10))) [
  | inl more ↦ rw more (digits-append left (val / 10) ((b'0' + val % 10) ∷ out) tail)
  | inr last ↦ rw last
]

length-digits_from :
    (left val : ℕ) (out : List ℕ) → length (digits_from left val out) ≤ left + length out
unfolding digits_from
length-digits_from zero val out = omega arith
length-digits_from (suc left) val out = elim (Bool-cases (ltb 0 (val / 10))) [
  | inl more ↦ rw more (omega (arith, length-digits_from left (val / 10) ((b'0' + val % 10) ∷ out)))
  | inr last ↦ rw last (omega arith)
]

-- A number and what stands behind it.
number-read :
    (v c : ℕ) (tail : List ℕ)
    → v < 2 ^ 32
    → (leb b'0' c && leb c b'9') ≡ false
    → baud_value (appendulong v ++ c ∷ tail) 0 ≡ (v, c ∷ tail)
unfolding appendulong baud_value
number-read v c tail small ends =
    ap (λ p. baud_value p 0) (digits-append 10 v [] (c ∷ tail))
    ∙ digits-read 10 v (c ∷ tail) (omega arith) (omega arith) small
    ∙ stops
  where
    stops : baud_value (c ∷ tail) v ≡ (v, c ∷ tail)
    stops = rw (baud_value, ends)

length-appendulong : (v : ℕ) → length (appendulong v) ≤ 10
unfolding appendulong
length-appendulong v = length-digits_from 10 v []

-- The number that a text holds from its byte `off` on, and the text behind it.
abbrev pub number_at : ℕ → List ℕ → ℕ × List ℕ
number_at off text = baud_value (drop off text) 0

-- The lines of /STATS fit the 48 bytes of their buffer, and reading the numbers of a line by the
-- loop that `parseargv` has for a baud rate gives the counters, all digits of them.
pub lines-read :
    {W : Type 0} (s : Rpc W)
    → IsBounded s
    → let traffic = traffic_line s.stats in
      let errors = errors_line s.stats in
      (length traffic ≤ 48)
      × (length errors ≤ 48)
      × ((number_at 3 traffic).0 ≡ s.stats.tx_bytes)
      × ((number_at 4 (number_at 3 traffic).1).0 ≡ s.stats.rx_bytes)
      × ((number_at 3 errors).0 ≡ s.stats.timeouts)
      × ((number_at 4 (number_at 3 errors).1).0 ≡ s.stats.retries)
      × ((number_at 4 (number_at 4 (number_at 3 errors).1).1).0 ≡ s.stats.crc_errs)
unfolding traffic_line errors_line
lines-read s h = (
  omega (
    arith,
    length-append (appendulong c.tx_bytes) (b' ' ∷ b'R' ∷ b'X' ∷ b':' ∷ rx_text),
    length-append (appendulong c.rx_bytes) line_end,
    length-appendulong c.tx_bytes,
    length-appendulong c.rx_bytes,
  ),
  omega (
    arith,
    length-append (appendulong c.timeouts) (b' ' ∷ b'R' ∷ b'T' ∷ b':' ∷ retries_text),
    length-append (appendulong c.retries) (b' ' ∷ b'C' ∷ b'E' ∷ b':' ∷ crc_text),
    length-append (appendulong c.crc_errs) line_end,
    length-appendulong c.timeouts,
    length-appendulong c.retries,
    length-appendulong c.crc_errs,
  ),
  ap (λ r. r.0) tx,
  ap (λ r. (number_at 4 r.1).0) tx ∙ ap (λ r. r.0) rx,
  ap (λ r. r.0) to,
  ap (λ r. (number_at 4 r.1).0) to ∙ ap (λ r. r.0) rt,
  ap (λ r. (number_at 4 (number_at 4 r.1).1).0) to
      ∙ ap (λ r. (number_at 4 r.1).0) rt
      ∙ ap (λ r. r.0) ce,
)
  where
    c : Stats
    c = s.stats

    line_end : List ℕ
    line_end = 13 ∷ 10 ∷ b'$' ∷ []

    rx_text : List ℕ
    rx_text = appendulong c.rx_bytes ++ line_end

    crc_text : List ℕ
    crc_text = appendulong c.crc_errs ++ line_end

    retries_text : List ℕ
    retries_text = appendulong c.retries ++ (b' ' ∷ b'C' ∷ b'E' ∷ b':' ∷ crc_text)

    tx : number_at 3 (traffic_line c) ≡ (c.tx_bytes, b' ' ∷ b'R' ∷ b'X' ∷ b':' ∷ rx_text)
    tx = number-read c.tx_bytes b' ' (b'R' ∷ b'X' ∷ b':' ∷ rx_text) h.tx_lt refl

    rx : baud_value rx_text 0 ≡ (c.rx_bytes, line_end)
    rx = number-read c.rx_bytes 13 (10 ∷ b'$' ∷ []) h.rx_lt refl

    to : number_at 3 (errors_line c) ≡ (c.timeouts, b' ' ∷ b'R' ∷ b'T' ∷ b':' ∷ retries_text)
    to =
        number-read c.timeouts b' ' (b'R' ∷ b'T' ∷ b':' ∷ retries_text)
          (omega (arith, h.timeouts_lt)) refl

    rt : baud_value retries_text 0 ≡ (c.retries, b' ' ∷ b'C' ∷ b'E' ∷ b':' ∷ crc_text)
    rt =
        number-read c.retries b' ' (b'C' ∷ b'E' ∷ b':' ∷ crc_text) (omega (arith, h.retries_lt))
          refl

    ce : baud_value crc_text 0 ≡ (c.crc_errs, line_end)
    ce = number-read c.crc_errs 13 (10 ∷ b'$' ∷ []) (omega (arith, h.crc_lt)) refl
