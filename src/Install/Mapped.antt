-- ===== src/Install/Mapped.antt =====
-- The drives that a command line maps: what the arguments of the form of "C-X" ask for.
use serial_dfs.Base.{
  ℕ, ◌-◌, ◌==◌, ltb, ◌&&◌, ◌||◌, if◌then◌else◌, Bool, Bool-cases, true, false, List, [], ◌∷◌, set,
  get_or-set_self, byte_at, ◌<◌, ◌≤◌, ◌≡◌, ◌≢◌, ◌⊎◌, inl, inr, refl, sym, ap, ◌∙◌, arith,
}
use serial_dfs.Install.{Args, is_upper, parse_drive, parse_arg}
use serial_dfs.Install.Options.{IsArgs, Keeps}

-- An argument of the form of "C-X", and the letters that it names.
abbrev pub is_mapping : List ℕ → Bool
is_mapping a =
    is_upper (byte_at a 0) && (byte_at a 1 == b'-' && (is_upper (byte_at a 2) && byte_at a 3 == 0))

abbrev pub remote_drive : List ℕ → ℕ
remote_drive a = byte_at a 0 - b'A'

abbrev pub local_drive : List ℕ → ℕ
local_drive a = byte_at a 2 - b'A'

-- An argument of that form is accepted only for a letter that was free, which it maps.
pub parse_arg-maps :
    (a : List ℕ) (s s' : Args)
    → IsArgs s
    → is_mapping a ≡ true
    → parse_arg a s ≡ inr s'
    → (byte_at s.ldrv (local_drive a) ≡ 0xFF)
      × (byte_at s'.ldrv (local_drive a) ≡ remote_drive a)
      × (remote_drive a < 26)
unfolding parse_arg parse_drive
parse_arg-maps a s s' h m e = by_test (Bool-cases (byte_at s.ldrv l == 0xFF)) drive_parsed
  where
    l : ℕ
    l = local_drive a

    small : (l ≤ 25) × (remote_drive a ≤ 25)
    small = ground (arith, m)

    in_range : (ltb 25 l || ltb 25 (remote_drive a)) ≡ false
    in_range = ground (arith, small.0, small.1)

    drive_parsed : parse_drive a s ≡ inr s'
    drive_parsed = ground (arith, e, m)

    stored :
        parse_drive a s ≡ inr s' → byte_at s.ldrv l ≡ 0xFF → set s.ldrv l (remote_drive a) ≡ s'.ldrv
    stored p free = ground (arith, p, in_range, free)

    not_taken : parse_drive a s ≡ inr s' → (byte_at s.ldrv l == 0xFF) ≡ false → ⊥
    not_taken p used = ground (arith, p, in_range, used)

    by_test :
        ((byte_at s.ldrv l == 0xFF) ≡ true) ⊎ ((byte_at s.ldrv l == 0xFF) ≡ false)
        → parse_drive a s ≡ inr s'
        → (byte_at s.ldrv l ≡ 0xFF) × (byte_at s'.ldrv l ≡ remote_drive a) × (remote_drive a < 26)
    by_test (inl free) p = (
      ground (arith, free),
      ap (λ t. byte_at t l) (sym (stored p (ground (arith, free))))
          ∙ get_or-set_self s.ldrv l (remote_drive a) 0 (omega (arith, small.0, h.letters)),
      omega (arith, small.1),
    )
    by_test (inr used) p = absurd (not_taken p used)

-- The letters that the arguments map, in order.
pub mapped_letters : List (List ℕ) → List ℕ
mapped_letters [] = []
mapped_letters (a ∷ argv) =
    let rest = mapped_letters argv in if is_mapping a then local_drive a ∷ rest else rest

-- `l` is none of them.
pub Avoids : ℕ → List ℕ → Type 0
Avoids l [] = Unit
Avoids l (k ∷ ls) = (l ≢ k) × Avoids l ls

pub AllDifferent : List ℕ → Type 0
AllDifferent [] = Unit
AllDifferent (l ∷ ls) = Avoids l ls × AllDifferent ls

-- If `mapping`, the argument `a` maps a letter, which was free in `s`, to its drive in `s'`.
pub MappedIf : Bool → List ℕ → Args → Args → Type 0
MappedIf false a s s' = Unit
MappedIf true a s s' =
    (byte_at s.ldrv (local_drive a) ≡ 0xFF) × (byte_at s'.ldrv (local_drive a) ≡ remote_drive a)

-- Every argument of the form of "C-X" maps X, which was free in `s`, to C in `s'`.
pub AllMapped : List (List ℕ) → Args → Args → Type 0
AllMapped [] s s' = Unit
AllMapped (a ∷ argv) s s' = MappedIf (is_mapping a) a s s' × AllMapped argv s s'

-- What is free after a step that keeps was free before it.
free-before :
    (s s1 : Args) (l : ℕ) → Keeps s s1 → byte_at s1.ldrv l ≡ 0xFF → byte_at s.ldrv l ≡ 0xFF
unfolding Keeps
free-before s s1 l k free = elim (Bool-cases (byte_at s.ldrv l == 0xFF)) [
  | inl e ↦ ground (arith, e)
  | inr e ↦
      let used : byte_at s.ldrv l ≢ 0xFF = λ f. ground (arith, e, f) in
      absurd (used (sym (k l used) ∙ free))
]

MappedIf-before :
    (b : Bool) (a : List ℕ) (s s1 s' : Args) → Keeps s s1 → MappedIf b a s1 s' → MappedIf b a s s'
unfolding MappedIf
MappedIf-before false a s s1 s' k h = tt
MappedIf-before true a s s1 s' k h = (free-before s s1 (local_drive a) k h.0, h.1)

pub AllMapped-before :
    (argv : List (List ℕ)) (s s1 s' : Args)
    → Keeps s s1
    → AllMapped argv s1 s'
    → AllMapped argv s s'
unfolding AllMapped
AllMapped-before [] s s1 s' k h = tt
AllMapped-before (a ∷ argv) s s1 s' k h =
    (MappedIf-before (is_mapping a) a s s1 s' k h.0, AllMapped-before argv s s1 s' k h.1)

MappedIf-Avoids :
    (b : Bool) (a : List ℕ) (ls : List ℕ) (s s' : Args) (l : ℕ)
    → byte_at s.ldrv l ≢ 0xFF
    → MappedIf b a s s'
    → Avoids l ls
    → Avoids l (if b then local_drive a ∷ ls else ls)
unfolding MappedIf Avoids
MappedIf-Avoids false a ls s s' l used h k = k
MappedIf-Avoids true a ls s s' l used h k = (λ e. used (ap (byte_at s.ldrv) e ∙ h.0), k)

-- A letter that is taken already no later argument maps.
pub AllMapped-Avoids :
    (argv : List (List ℕ)) (s s' : Args) (l : ℕ)
    → byte_at s.ldrv l ≢ 0xFF
    → AllMapped argv s s'
    → Avoids l (mapped_letters argv)
unfolding AllMapped Avoids mapped_letters
AllMapped-Avoids [] s s' l used h = tt
AllMapped-Avoids (a ∷ argv) s s' l used h =
    MappedIf-Avoids (is_mapping a) a (mapped_letters argv) s s' l used h.0
      (AllMapped-Avoids argv s s' l used h.1)

AllDifferent-if :
    (b : Bool) (l : ℕ) (ls : List ℕ)
    → (b ≡ true → Avoids l ls)
    → AllDifferent ls
    → AllDifferent (if b then l ∷ ls else ls)
unfolding AllDifferent
AllDifferent-if true l ls h k = (h refl, k)
AllDifferent-if false l ls h k = k

mapped_here :
    (b : Bool) (a : List ℕ) (s s' : Args)
    → (b ≡ true
        → (byte_at s.ldrv (local_drive a) ≡ 0xFF)
          × (byte_at s'.ldrv (local_drive a) ≡ remote_drive a))
    → MappedIf b a s s'
unfolding MappedIf
mapped_here true a s s' h = h refl
mapped_here false a s s' h = tt

pub nothing_mapped : (s s' : Args) → AllMapped [] s s' × AllDifferent (mapped_letters [])
unfolding AllMapped AllDifferent mapped_letters
nothing_mapped s s' = (tt, tt)

-- One argument and the ones behind it.
pub mapped_then :
    (a : List ℕ) (argv : List (List ℕ)) (s s1 s' : Args)
    → IsArgs s
    → parse_arg a s ≡ inr s1
    → Keeps s s1
    → Keeps s1 s'
    → AllMapped argv s1 s' × AllDifferent (mapped_letters argv)
    → AllMapped (a ∷ argv) s s' × AllDifferent (mapped_letters (a ∷ argv))
unfolding AllMapped mapped_letters Keeps
mapped_then a argv s s1 s' h e k k' rest = (
  (
    mapped_here (is_mapping a) a s s' (λ m. (
      (parse_arg-maps a s s1 h m e).0,
      k' (local_drive a) (taken m) ∙ (parse_arg-maps a s s1 h m e).1,
    )),
    AllMapped-before argv s s1 s' k rest.0,
  ),
  AllDifferent-if (is_mapping a) (local_drive a) (mapped_letters argv)
      (λ m. AllMapped-Avoids argv s1 s' (local_drive a) (taken m) rest.0) rest.1,
)
  where
    taken : is_mapping a ≡ true → byte_at s1.ldrv (local_drive a) ≢ 0xFF
    taken m f = let (x, y, z) = parse_arg-maps a s s1 h m e in omega (arith, y, z, f)
