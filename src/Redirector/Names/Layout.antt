-- ===== src/Redirector/Names/Layout.antt =====
-- The FCB form of an 8.3 name, as a layout: the name from byte 0 and the extension from byte 8.
use serial_dfs.Base.{
  ℕ, zero, suc, ◌+◌, ◌-◌, ◌≤◌, ◌==◌, ltb, not, ◌&&◌, ◌||◌, if◌then◌else◌, Bool, true, false, List,
  [], ◌∷◌, ◌++◌, byte_at, append_assoc, length, length-append, length-replicate, take, take-append,
  drop, set, replicate, ◌≡◌, ◌≢◌, refl, sym, ap, ◌∙◌, arith,
}
use serial_dfs.Redirector.Names.{
  name_part, ext_part, after_name, name83_to_fcb, match_bytes, fcb_match,
}

-- No NUL, no dot and no backslash.
abbrev pub Plain : List ℕ → Type 0
Plain [] = Unit
Plain (c ∷ s) = (c ≢ 0) × (c ≢ b'.') × (c ≢ b'\\') × Plain s

-- The bytes of `s` in the places from `i` on.
unfoldable pub puts : ℕ → List ℕ → List ℕ → List ℕ
puts i [] fcb = fcb
puts i (c ∷ s) fcb = puts (i + 1) s (set fcb i c)

unfoldable pub layout : List ℕ → List ℕ → List ℕ
layout base ext = puts 8 ext (puts 0 base (replicate 11 b' '))

-- An extension with its dot, if there is one.
abbrev pub dotted : List ℕ → List ℕ
dotted [] = []
dotted (c ∷ ext) = b'.' ∷ c ∷ ext

name_part-puts :
    (base rest : List ℕ) (j : ℕ) (fcb : List ℕ)
    → Plain base
    → j + length base ≤ 8
    → name_part (base ++ rest) j fcb ≡ name_part rest (j + length base) (puts j base fcb)
unfolding name_part puts
name_part-puts [] rest j fcb h few = ap (λ k. name_part rest k fcb) (omega arith)
name_part-puts (c ∷ base) rest j fcb h few =
    let go : (c == 0 || c == b'.') ≡ false = ground (arith, h.0, h.1) in
    let lt : ltb j 8 ≡ true = ground (arith, few) in
    rw (go, lt)
      (name_part-puts base rest (j + 1) (set fcb j c) h.3 (omega (arith, few))
        ∙ ap (λ k. name_part rest k (puts (j + 1) base (set fcb j c))) (omega arith))

ext_part-puts :
    (ext : List ℕ) (n j : ℕ) (fcb : List ℕ)
    → Plain ext
    → j + length ext ≤ 11
    → ext_part (ext ++ replicate n 0) j fcb ≡ puts j ext fcb
unfolding ext_part puts
ext_part-puts [] zero j fcb h few = refl
ext_part-puts [] (suc n) j fcb h few = refl
ext_part-puts (c ∷ ext) n j fcb h few =
    let go : (c == 0) ≡ false = ground (arith, h.0) in
    let lt : ltb j 11 ≡ true = ground (arith, few) in
    rw (go, lt) (ext_part-puts ext n (j + 1) (set fcb j c) h.3 (omega (arith, few)))

length-dotted : (e : List ℕ) → length e ≤ 3 → length (dotted e) ≤ 4
length-dotted [] h = omega arith
length-dotted (c ∷ e) h = omega (arith, h)

-- What follows the name in the field: nothing, NULs, or a dot and the extension.
ext_layout :
    (f : List ℕ) (j n : ℕ) (ext : List ℕ)
    → Plain ext
    → length ext ≤ 3
    → let r = name_part (dotted ext ++ replicate n 0) j f in after_name r.1 r.0 ≡ puts 8 ext f
unfolding name_part after_name puts
ext_layout f j zero [] h few = refl
ext_layout f j (suc n) [] h few = refl
ext_layout f j n (c ∷ ext) h few = ext_part-puts (c ∷ ext) n 8 f h (omega (arith, few))

module _ (base ext tail : List ℕ) (plain : Plain base) (plain' : Plain ext) (few : length base ≤ 8)
    (few' : length ext ≤ 3) where
  -- The name field of a directory entry: 12 bytes, filled up with NUL.
  pub name_field : List ℕ
  name_field = (base ++ dotted ext) ++ replicate (12 - length (base ++ dotted ext)) 0

  length-name_field : length name_field ≡ 12
  unfolding name_field
  length-name_field = omega (
    arith,
    length-append (base ++ dotted ext) (replicate (12 - length (base ++ dotted ext)) 0),
    length-append base (dotted ext),
    length-dotted ext few',
    length-replicate {A = ℕ} (12 - length (base ++ dotted ext)) 0,
    few,
  )

  pub name83-layout : name83_to_fcb (name_field ++ tail) ≡ layout base ext
  unfolding name83_to_fcb name_field layout after_name
  name83-layout =
      ap of_field (
        ap (λ k. take k (name_field ++ tail)) (sym length-name_field) ∙ take-append name_field tail)
      ∙ ap of_field (append_assoc base (dotted ext) (replicate n 0))
      ∙ ap (λ r. after_name r.1 r.0)
          (name_part-puts base (dotted ext ++ replicate n 0) 0 (replicate 11 b' ') plain
            (omega (arith, few)))
      ∙ ext_layout (puts 0 base (replicate 11 b' ')) (0 + length base) n ext plain' few'
    where
      n : ℕ
      n = 12 - length (base ++ dotted ext)

      of_field : List ℕ → List ℕ
      of_field field = let r = name_part field 0 (replicate 11 b' ') in after_name r.1 r.0

match_bytes_same : (n : ℕ) (name : List ℕ) → match_bytes n name name ≡ true
unfolding match_bytes
match_bytes_same zero name = refl
match_bytes_same (suc n) name =
    let same : (byte_at name 0 == byte_at name 0) ≡ true = ground arith in
    rw (match_bytes_same n (drop 1 name), same) (by_wildcard (byte_at name 0 == b'?'))
  where
    by_wildcard : (b : Bool) → (if not b && false then false else true) ≡ true
    by_wildcard true = refl
    by_wildcard false = refl

-- A template without wildcards lets its own name through.
pub fcb_match_same : (name : List ℕ) → fcb_match name name ≡ true
unfolding fcb_match
fcb_match_same name = match_bytes_same 11 name
