-- ===== src/Install/Options.antt =====
-- What each option of the command line does to the installer's arguments.
use serial_dfs.Base.{
  ℕ, ◌-◌, ◌*◌, ◌==◌, ltb, not, ◌&&◌, ◌||◌, if◌then◌else◌, Bool, Bool-cases, true, false, List, [],
  ◌∷◌, length, length-set, set, get_or-set_self, get_or-set_ne, byte_at, drop, bit_and, bit_or, ◌<◌,
  ◌≤◌, ◌≡◌, ◌≢◌, ◌⊎◌, inl, inr, refl, sym, ap, ◌∙◌, arith,
}
use serial_dfs.Uart.{baud_to_div}
use serial_dfs.Install.{
  Args, starts_with, is_upper, baud_value, parse_drive, parse_baud, parse_option, parse_arg,
}
use serial_dfs.Install.Text.{rate_of}

-- A map of 26 drives, each free or a drive of the server, a port that exists or none, and no
-- divisor or that of a rate.
pub record IsArgs (s : Args) : Type 0 where
  pub letters : length s.ldrv ≡ 26
  pub drives : (i : ℕ) → i < 26 → (byte_at s.ldrv i ≡ 0xFF) ⊎ (byte_at s.ldrv i < 26)
  pub ports : s.comport ≤ 2
  pub divisor : (s.baudiv ≡ 0) ⊎ (s.baudiv * rate_of s.baudiv ≡ 115200)

-- What a drive has been mapped to stays.
unfoldable pub Keeps : Args → Args → Type 0
Keeps s s' = (i : ℕ) → byte_at s.ldrv i ≢ 0xFF → byte_at s'.ldrv i ≡ byte_at s.ldrv i

unfoldable pub Good : Args → ℕ ⊎ Args → Type 0
Good s (inl error) = Unit
Good s (inr s') = IsArgs s' × Keeps s s'

Good-if : (b : Bool) (s : Args) (x y : ℕ ⊎ Args) → Good s x → Good s y → Good s (if b then x else y)
Good-if true s x y h k = h
Good-if false s x y h k = k

IsDivisor : ℕ → Type 0
IsDivisor n = (n ≡ 0) ⊎ (n * rate_of n ≡ 115200)

IsDivisor-if : (b : Bool) (m n : ℕ) → IsDivisor m → IsDivisor n → IsDivisor (if b then m else n)
IsDivisor-if true m n h k = h
IsDivisor-if false m n h k = k

baud_to_div-IsDivisor : (b : ℕ) → IsDivisor (baud_to_div b)
unfolding baud_to_div rate_of IsDivisor
baud_to_div-IsDivisor b = IsDivisor-if (b == 9600) 12 _ (inr refl) (
    IsDivisor-if (b == 19200) 6 _ (inr refl) (
      IsDivisor-if (b == 38400) 3 _ (inr refl) (
        IsDivisor-if (b == 57600) 2 _ (inr refl)
          (IsDivisor-if (b == 115200) 1 0 (inr refl) (inl refl)))))

Good-flags : (s : Args) (f : ℕ) → IsArgs s → Good s (inr (record s { flags = f }))
unfolding Good Keeps
Good-flags s f h = (
  record { letters = h.letters; drives = h.drives; ports = h.ports; divisor = h.divisor },
  λ i e. refl,
)

Good-port : (s : Args) (n : ℕ) → n ≤ 2 → IsArgs s → Good s (inr (record s { comport = n }))
unfolding Good Keeps
Good-port s n le h = (
  record { letters = h.letters; drives = h.drives; ports = le; divisor = h.divisor },
  λ i e. refl,
)

Good-baud : (s : Args) (b : ℕ) → IsArgs s → Good s (inr (record s { baudiv = baud_to_div b }))
unfolding Good Keeps IsDivisor
Good-baud s b h = (
  record {
    letters = h.letters;
    drives = h.drives;
    ports = h.ports;
    divisor = baud_to_div-IsDivisor b;
  },
  λ i e. refl,
)

refusal : (s : Args) (n : ℕ) → Good s (inl n)
unfolding Good
refusal s n = tt

Good-parse_drive : (a : List ℕ) (s : Args) → IsArgs s → Good s (parse_drive a s)
unfolding parse_drive Good Keeps
Good-parse_drive a s h =
    by_letters (Bool-cases (ltb 25 ldrv || ltb 25 rdrv)) (Bool-cases (byte_at s.ldrv ldrv == 0xFF))
  where
    rdrv : ℕ
    rdrv = byte_at a 0 - b'A'

    ldrv : ℕ
    ldrv = byte_at a 2 - b'A'

    s' : Args
    s' = record s { ldrv = set s.ldrv ldrv rdrv; mapped = true }

    mapped_at :
        rdrv < 26
        → ldrv < 26
        → (i : ℕ) → i < 26
        → (byte_at s'.ldrv i ≡ 0xFF) ⊎ (byte_at s'.ldrv i < 26)
    mapped_at r l i lt = elim (Bool-cases (ldrv == i)) [
      | inl here ↦
          let same : i ≡ ldrv = ground (arith, here) in
          inr (
            omega (
              arith,
              ap (byte_at s'.ldrv) same,
              get_or-set_self s.ldrv ldrv rdrv 0 (omega (arith, l, h.letters)),
              r,
            ))
      | inr other ↦
          let e = get_or-set_ne s.ldrv ldrv i rdrv 0 (ground (arith, other)) in
          elim (h.drives i lt) [ inl free ↦ inl (e ∙ free) | inr lt' ↦ inr (omega (arith, e, lt')) ]
    ]

    kept :
        byte_at s.ldrv ldrv ≡ 0xFF
        → (i : ℕ) → byte_at s.ldrv i ≢ 0xFF
        → byte_at s'.ldrv i ≡ byte_at s.ldrv i
    kept free i used =
        get_or-set_ne s.ldrv ldrv i rdrv 0 (λ e. used (ap (byte_at s.ldrv) (sym e) ∙ free))

    mapped_drive : rdrv < 26 → ldrv < 26 → byte_at s.ldrv ldrv ≡ 0xFF → Good s (inr s')
    mapped_drive r l free = (
      record {
        letters = length-set s.ldrv ldrv rdrv ∙ h.letters;
        drives = mapped_at r l;
        ports = h.ports;
        divisor = h.divisor;
      },
      kept free,
    )

    by_letters :
        ((ltb 25 ldrv || ltb 25 rdrv) ≡ true) ⊎ ((ltb 25 ldrv || ltb 25 rdrv) ≡ false)
        → ((byte_at s.ldrv ldrv == 0xFF) ≡ true) ⊎ ((byte_at s.ldrv ldrv == 0xFF) ≡ false)
        → Good s (
            if ltb 25 ldrv || ltb 25 rdrv
            then inl 2
            else if not (byte_at s.ldrv ldrv == 0xFF)
            then inl 2
            else inr s')
    by_letters (inl big) f = rw big (refusal s 2)
    by_letters (inr small) (inr used) = rw (small, used) (refusal s 2)
    by_letters (inr small) (inl free) =
        rw (small, free)
          (mapped_drive (ground (arith, small)) (ground (arith, small)) (ground (arith, free)))

Good-parse_baud : (p : List ℕ) (s : Args) → IsArgs s → Good s (parse_baud p s)
unfolding parse_baud
Good-parse_baud p s h =
    let (baud, rest) = baud_value p 0 in
    Good-if (byte_at p 0 == 0) s (inl 4) _ (refusal s 4) (
      Good-if (not (byte_at rest 0 == 0)) s (inl 4) _ (refusal s 4) (
        Good-if (baud_to_div baud == 0) s (inl 4) (inr (record s { baudiv = baud_to_div baud }))
          (refusal s 4) (Good-baud s baud h)))

Good-parse_option : (a : List ℕ) (s : Args) → IsArgs s → Good s (parse_option a s)
unfolding parse_option
Good-parse_option a s h =
    Good-if (starts_with (b'C' ∷ b'O' ∷ b'M' ∷ []) a) s _ _
      (Good-if (byte_at a 3 == b'1' && byte_at a 4 == 0) s _ _ (Good-port s 1 (omega arith) h) (
        Good-if (byte_at a 3 == b'2' && byte_at a 4 == 0) s _ _ (Good-port s 2 (omega arith) h)
          (refusal s 4)))
      (Good-if (starts_with (b'B' ∷ b'A' ∷ b'U' ∷ b'D' ∷ b':' ∷ []) a) s _ _
        (Good-parse_baud (drop 5 a) s h)
        (Good-if (starts_with (b'S' ∷ b'T' ∷ b'A' ∷ b'T' ∷ b'S' ∷ 0 ∷ []) a) s _ _
          (Good-flags s (bit_or s.flags 8) h)
          (Good-if (starts_with (b'S' ∷ b'T' ∷ b'A' ∷ b'T' ∷ b'U' ∷ b'S' ∷ 0 ∷ []) a) s _ _
            (Good-flags s (bit_or s.flags 4) h)
            (Good-if
              (starts_with (b'N' ∷ b'O' ∷ b'S' ∷ b'T' ∷ b'A' ∷ b'T' ∷ b'U' ∷ b'S' ∷ 0 ∷ []) a) s _ _
              (Good-flags s (bit_and s.flags 0xFB) h)
              (Good-if ((byte_at a 0 == b'q' || byte_at a 0 == b'Q') && byte_at a 1 == 0) s _ _
                (Good-flags s (bit_or s.flags 1) h)
                (Good-if ((byte_at a 0 == b'u' || byte_at a 0 == b'U') && byte_at a 1 == 0) s _ _
                  (Good-flags s (bit_or s.flags 2) h) (refusal s 5)))))))

pub Good-parse_arg : (a : List ℕ) (s : Args) → IsArgs s → Good s (parse_arg a s)
unfolding parse_arg
Good-parse_arg a s h =
    Good-if
      (is_upper (byte_at a 0)
        && (byte_at a 1 == b'-' && (is_upper (byte_at a 2) && byte_at a 3 == 0)))
      s _ _ (Good-parse_drive a s h)
      (Good-if (not (byte_at a 0 == b'/')) s _ _ (refusal s 3) (Good-parse_option (drop 1 a) s h))
