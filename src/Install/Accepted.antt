-- ===== src/Install/Accepted.antt =====
-- What `parseargv` guarantees of a command line that it accepts.
use serial_dfs.Base.{
  ℕ, ◌==◌, not, ◌&&◌, if◌then◌else◌, Bool, Bool-cases, true, false, List, [], ◌∷◌, bit_and, ◌≡◌,
  ◌⊎◌, inl, inr, refl, sym, ◌∙◌, arith,
}
use mathlib.Core.Path.{subst}
use serial_dfs.Install.{Args, parse_arg, check_args, parseargv}
use serial_dfs.Install.Text.{rate_of}
use serial_dfs.Install.Mapped.{mapped_letters, AllMapped, AllDifferent, mapped_then, nothing_mapped}
use serial_dfs.Install.Options.{IsArgs, Keeps, Good, Good-parse_arg}

-- What the installer needs: to unload no drive is named, to query nothing more is, and to install
-- there are a drive, a port and a divisor.
pub complete : Args → Bool
complete s =
    if not (bit_and s.flags 2 == 0)
    then not s.mapped
    else if not (bit_and s.flags 8 == 0)
    then true
    else s.mapped && (not (s.comport == 0) && not (s.baudiv == 0))

Checked : Args → ℕ ⊎ Args → Type 0
Checked s (inl error) = Unit
Checked s (inr s') = IsArgs s' × Keeps s s' × (complete s' ≡ true)

Checked-if :
    (b : Bool) (s : Args) (x y : ℕ ⊎ Args)
    → (b ≡ true → Checked s x)
    → (b ≡ false → Checked s y)
    → Checked s (if b then x else y)
Checked-if true s x y h k = h refl
Checked-if false s x y h k = k refl

not-Checked : (s : Args) (n : ℕ) → Checked s (inl n)
unfolding Checked
not-Checked s n = tt

as_it_is : (s : Args) → IsArgs s → complete s ≡ true → Checked s (inr s)
unfolding Checked Keeps
as_it_is s h c = (h, λ i e. refl, c)

complete_unload :
    (s : Args) → not (bit_and s.flags 2 == 0) ≡ true → s.mapped ≡ false → complete s ≡ true
unfolding complete
complete_unload s unload m = rw (unload, m)

complete_query :
    (s : Args)
    → not (bit_and s.flags 2 == 0) ≡ false
    → not (bit_and s.flags 8 == 0) ≡ true
    → complete s ≡ true
unfolding complete
complete_query s install query = rw (install, query)

complete_install :
    (s : Args)
    → not (bit_and s.flags 2 == 0) ≡ false
    → not (bit_and s.flags 8 == 0) ≡ false
    → not s.mapped ≡ false
    → (s.comport == 0) ≡ false
    → (s.baudiv == 0) ≡ false
    → complete s ≡ true
unfolding complete
complete_install s install n m p b =
    let m' : s.mapped ≡ true = ground (arith, m) in rw (install, n, m', p, b)

with_divisor :
    (s : Args)
    → IsArgs s
    → not (bit_and s.flags 2 == 0) ≡ false
    → not (bit_and s.flags 8 == 0) ≡ false
    → not s.mapped ≡ false
    → (s.comport == 0) ≡ false
    → Checked s (inr (if s.baudiv == 0 then record s { baudiv = 12 } else s))
unfolding Checked Keeps rate_of
with_divisor s h install n m p = elim (Bool-cases (s.baudiv == 0)) [
  | inl none_given ↦ rw none_given (
    record { letters = h.letters; drives = h.drives; ports = h.ports; divisor = inr refl },
    λ i e. refl,
    complete_install (record s { baudiv = 12 }) install n m p refl,
  )
  | inr given ↦ rw given (as_it_is s h (complete_install s install n m p given))
]

Checked-check_args : (s : Args) → IsArgs s → Checked s (check_args s)
unfolding check_args
Checked-check_args s h =
    Checked-if (not (bit_and s.flags 2 == 0)) s (if s.mapped then inl 1 else inr s) _
      (λ unload.
        Checked-if s.mapped s (inl 1) (inr s) (λ m. not-Checked s 1)
          λ m. as_it_is s h (complete_unload s unload m))
      λ install.
        Checked-if (not (bit_and s.flags 8 == 0)) s (inr s) _
          (λ query. as_it_is s h (complete_query s install query))
          λ n.
            Checked-if (not s.mapped) s (inl 6) _ (λ m. not-Checked s 6)
              λ m.
                Checked-if (s.comport == 0) s (inl 7) _ (λ p. not-Checked s 7)
                  λ p. with_divisor s h install n m p

Keeps-then : (s s' s'' : Args) → Keeps s s' → Keeps s' s'' → Keeps s s''
unfolding Keeps
Keeps-then s s' s'' h k i e = k i (λ free. e (sym (h i e) ∙ free)) ∙ h i e

Checked-from : (s s' : Args) (x : ℕ ⊎ Args) → Keeps s s' → Checked s' x → Checked s x
unfolding Checked
Checked-from s s' (inl error) h k = tt
Checked-from s s' (inr u) h k = (k.0, Keeps-then s s' u h k.1, k.2)

parseargv-Checked : (argv : List (List ℕ)) (s : Args) → IsArgs s → Checked s (parseargv argv s)
unfolding parseargv Good Checked
parseargv-Checked [] s h = Checked-check_args s h
parseargv-Checked (a ∷ argv) s h =
    go (λ s' h'. parseargv-Checked argv s' h') (parse_arg a s) (Good-parse_arg a s h)
  where
    go :
        ((s' : Args) → IsArgs s' → Checked s' (parseargv argv s'))
        → (x : ℕ ⊎ Args) → Good s x
        → Checked s (elim x [ inl error ↦ inl error | inr s' ↦ parseargv argv s' ])
    go ih (inl error) g = tt
    go ih (inr s') g = Checked-from s s' (parseargv argv s') g.1 (ih s' g.0)

parseargv-maps :
    (argv : List (List ℕ)) (s s' : Args)
    → IsArgs s
    → parseargv argv s ≡ inr s'
    → AllMapped argv s s' × AllDifferent (mapped_letters argv)
unfolding parseargv Good Checked
parseargv-maps [] s s' h e = nothing_mapped s s'
parseargv-maps (a ∷ argv) s s' h e =
    go (λ s1 h1 p. parseargv-maps argv s1 s' h1 p) (parse_arg a s) refl (Good-parse_arg a s h) e
  where
    go :
        ((s1 : Args)
          → IsArgs s1
          → parseargv argv s1 ≡ inr s'
          → AllMapped argv s1 s' × AllDifferent (mapped_letters argv))
        → (x : ℕ ⊎ Args) → parse_arg a s ≡ x
        → Good s x
        → elim x [ inl error ↦ inl error | inr s1 ↦ parseargv argv s1 ] ≡ inr s'
        → AllMapped (a ∷ argv) s s' × AllDifferent (mapped_letters (a ∷ argv))
    go ih (inl error) q g p = absurd (ground (arith, p))
    go ih (inr s1) q g p =
        mapped_then a argv s s1 s' h q g.1 (subst (Checked s1) p (parseargv-Checked argv s1 g.0)).1
          (ih s1 g.0 p)

-- A command line that `parseargv` accepts, from the state with 26 free letters or any other that
-- fits: the port is COM1 or COM2 or none, the divisor is 0 or that of a rate, and each letter is
-- free or a drive A to Z of the server. No two arguments of the form of "C-X" name the same X; each
-- names one that was free and is now mapped to C, and what was mapped before stays. What the command
-- needs is there: no drive to unload, nothing more to query, and to install a drive, a port and a
-- divisor.
pub parseargv-IsArgs :
    (argv : List (List ℕ)) (s s' : Args)
    → IsArgs s
    → parseargv argv s ≡ inr s'
    → IsArgs s'
      × Keeps s s'
      × AllMapped argv s s'
      × AllDifferent (mapped_letters argv)
      × (complete s' ≡ true)
unfolding Checked
parseargv-IsArgs argv s s' h e =
    let (a, b, c) = subst (Checked s) e (parseargv-Checked argv s h) in
    let (d, f) = parseargv-maps argv s s' h e in (a, b, d, f, c)
