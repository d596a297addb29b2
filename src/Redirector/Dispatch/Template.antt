-- ===== src/Redirector/Dispatch/Template.antt =====
-- The search template that `inthandler` makes of a path, and the FCB name of a directory entry.
use serial_dfs.Base.{
  ℕ, ◌+◌, ◌≤◌, ◌==◌, ltb, if◌then◌else◌, Bool-cases, true, false, inl, inr, List, [], ◌∷◌, ◌++◌,
  append-nil, length, set, replicate, ◌≡◌, ◌≢◌, refl, sym, ap, ◌∙◌, arith,
}
use serial_dfs.Redirector.Names.{name83_to_fcb, fcb_match}
use serial_dfs.Redirector.Names.Layout.{
  Plain, puts, layout, dotted, name_field, name83-layout, fcb_match_same,
}
use serial_dfs.Redirector.Dispatch.{last_component, spread_fcb, normalise_fcb}

abbrev pub NoNul : List ℕ → Type 0
NoNul [] = Unit
NoNul (c ∷ s) = (c ≢ 0) × NoNul s

-- No backslash, and no NUL.
abbrev IsName : List ℕ → Type 0
IsName [] = Unit
IsName (c ∷ s) = (c ≢ b'\\') × IsName s

component_end : (name path : List ℕ) → IsName name → last_component name path ≡ path
unfolding last_component
component_end [] path h = refl
component_end (c ∷ name) path h = elim (Bool-cases (c == 0)) [
  | inl nul ↦ rw nul
  | inr more ↦
      let plain : (c == b'\\') ≡ false = ground (arith, h.0) in
      rw (more, plain) (component_end name path h.1)
]

component_name :
    (dir name path : List ℕ)
    → NoNul dir
    → IsName name
    → last_component (dir ++ b'\\' ∷ name) path ≡ name
unfolding last_component
component_name [] name path h k = component_end name name k
component_name (c ∷ dir) name path h k =
    let more : (c == 0) ≡ false = ground (arith, h.0) in
    rw more (component_name dir name (if c == b'\\' then dir ++ b'\\' ∷ name else path) h.1 k)

spread-puts :
    (base rest : List ℕ) (i : ℕ) (fcb : List ℕ)
    → Plain base
    → i + length base ≤ 11
    → spread_fcb (base ++ rest) i fcb ≡ spread_fcb rest (i + length base) (puts i base fcb)
unfolding spread_fcb puts
spread-puts [] rest i fcb h few = ap (λ k. spread_fcb rest k fcb) (omega arith)
spread-puts (c ∷ base) rest i fcb h few =
    let more : (c == 0) ≡ false = ground (arith, h.0) in
    let plain : (c == b'.') ≡ false = ground (arith, h.1) in
    let lt : ltb i 11 ≡ true = ground (arith, few) in
    rw (more, plain, lt)
      (spread-puts base rest (i + 1) (set fcb i c) h.3 (omega (arith, few))
        ∙ ap (λ k. spread_fcb rest k (puts (i + 1) base (set fcb i c))) (omega arith))

spread_ext :
    (f : List ℕ) (j : ℕ) (ext : List ℕ)
    → Plain ext
    → length ext ≤ 3
    → spread_fcb (dotted ext) j f ≡ puts 8 ext f
unfolding spread_fcb puts
spread_ext f j [] h few = refl
spread_ext f j (c ∷ ext) h few =
    ap (λ p. spread_fcb p 8 f) (sym (append-nil (c ∷ ext)))
    ∙ spread-puts (c ∷ ext) [] 8 f h (omega (arith, few))

Plain-IsName : (s : List ℕ) → Plain s → IsName s
Plain-IsName [] h = tt
Plain-IsName (c ∷ s) h = (h.2, Plain-IsName s h.3)

IsName-dotted : (base ext : List ℕ) → Plain base → Plain ext → IsName (base ++ dotted ext)
IsName-dotted [] [] h k = tt
IsName-dotted [] (c ∷ ext) h k = (λ e. absurd (omega (arith, e)), Plain-IsName (c ∷ ext) k)
IsName-dotted (c ∷ base) ext h k = (h.2, IsName-dotted base ext h.3 k)

-- A path that ends in an 8.3 name and a directory entry of that name, whatever follows the name's
-- field: the template that the path is made into is the FCB form of the entry's name, and it
-- matches it. So a search for a file by its own name can find it.
pub normalise-name83 :
    (dir base ext tail : List ℕ) (plain : Plain base) (plain' : Plain ext) (few : length base ≤ 8)
    (few' : length ext ≤ 3)
    → NoNul dir
    → let template = normalise_fcb (dir ++ b'\\' ∷ (base ++ dotted ext)) in
      let entry = name83_to_fcb (name_field base ext tail plain plain' few few' ++ tail) in
      (template ≡ entry) × (fcb_match template entry ≡ true)
unfolding normalise_fcb layout
normalise-name83 dir base ext tail plain plain' few few' clean =
    let same = template_is ∙ sym (name83-layout base ext tail plain plain' few few') in
    (same, ap (λ t. fcb_match t entry) same ∙ fcb_match_same entry)
  where
    entry : List ℕ
    entry = name83_to_fcb (name_field base ext tail plain plain' few few' ++ tail)

    path : List ℕ
    path = dir ++ b'\\' ∷ (base ++ dotted ext)

    template_is : normalise_fcb path ≡ layout base ext
    template_is =
        ap (λ p. spread_fcb p 0 (replicate 11 b' '))
          (component_name dir (base ++ dotted ext) path clean (IsName-dotted base ext plain plain'))
        ∙ spread-puts base (dotted ext) 0 (replicate 11 b' ') plain (omega (arith, few))
        ∙ spread_ext (puts 0 base (replicate 11 b' ')) (0 + length base) ext plain' few'
