-- ===== src/Base/Lists.antt =====
-- Lists measured and indexed by native numbers, under the library's names.
use Prim.Native.Nat.{ℕ, zero, suc, ◌+◌, ◌-◌, ◌<◌, ◌≤◌, min}
use mathlib.Core.Path.{◌≡◌, refl, ap}
use mathlib.Core.Logic.{◌≢◌}
use mathlib.Core.List.{List, [], ◌∷◌, ◌++◌}
use native.Mathlib.Omega.{arith}

module _ {ℓ} {A : Type ℓ} where
  abbrev pub length : List A → ℕ
  length [] = 0
  length (x ∷ xs) = suc (length xs)

  abbrev pub get_or : List A → ℕ → A → A
  get_or [] i d = d
  get_or (x ∷ xs) zero d = x
  get_or (x ∷ xs) (suc i) d = get_or xs i d

  -- A write out of bounds changes nothing.
  abbrev pub set : List A → ℕ → A → List A
  set [] i v = []
  set (x ∷ xs) zero v = v ∷ xs
  set (x ∷ xs) (suc i) v = x ∷ set xs i v

  abbrev pub take : ℕ → List A → List A
  take zero xs = []
  take (suc n) [] = []
  take (suc n) (x ∷ xs) = x ∷ take n xs

  abbrev pub drop : ℕ → List A → List A
  drop zero xs = xs
  drop (suc n) [] = []
  drop (suc n) (x ∷ xs) = drop n xs

  abbrev pub replicate : ℕ → A → List A
  replicate zero a = []
  replicate (suc n) a = a ∷ replicate n a

  -- `copybytes(buf + off, src, length src)`: what falls outside `buf` is dropped.
  abbrev pub overlay : ℕ → List A → List A → List A
  overlay off src [] = []
  overlay zero [] (y ∷ ys) = y ∷ ys
  overlay zero (x ∷ xs) (y ∷ ys) = x ∷ overlay zero xs ys
  overlay (suc off) src (y ∷ ys) = y ∷ overlay off src ys

module _ {ℓ} {A : Type ℓ} where
  pub length-append : (xs ys : List A) → length (xs ++ ys) ≡ length xs + length ys
  length-append [] ys = omega arith
  length-append (x ∷ xs) ys = omega (arith, length-append xs ys)

  pub length-set : (xs : List A) (i : ℕ) (v : A) → length (set xs i v) ≡ length xs
  length-set [] i v = refl
  length-set (x ∷ xs) zero v = refl
  length-set (x ∷ xs) (suc i) v = ap suc (length-set xs i v)

  pub length-take : (n : ℕ) (xs : List A) → length (take n xs) ≡ min n (length xs)
  length-take zero xs = omega arith
  length-take (suc n) [] = omega arith
  length-take (suc n) (x ∷ xs) = omega (arith, length-take n xs)

  pub length-drop : (n : ℕ) (xs : List A) → length (drop n xs) ≡ length xs - n
  length-drop zero xs = omega arith
  length-drop (suc n) [] = omega arith
  length-drop (suc n) (x ∷ xs) = omega (arith, length-drop n xs)

  pub length-replicate : (n : ℕ) (a : A) → length (replicate n a) ≡ n
  length-replicate zero a = refl
  length-replicate (suc n) a = ap suc (length-replicate n a)

  pub overlay_nil : (ys : List A) → overlay 0 [] ys ≡ ys
  overlay_nil [] = refl
  overlay_nil (y ∷ ys) = refl

  pub length-overlay : (off : ℕ) (src ys : List A) → length (overlay off src ys) ≡ length ys
  length-overlay zero src [] = refl
  length-overlay (suc off) src [] = refl
  length-overlay zero [] (y ∷ ys) = refl
  length-overlay zero (x ∷ xs) (y ∷ ys) = ap suc (length-overlay zero xs ys)
  length-overlay (suc off) src (y ∷ ys) = ap suc (length-overlay off src ys)

  pub take-length : (xs : List A) → take (length xs) xs ≡ xs
  take-length [] = refl
  take-length (x ∷ xs) = ap (λ t. x ∷ t) (take-length xs)

  -- The first `length xs` of an append.
  pub take-append : (xs ys : List A) → take (length xs) (xs ++ ys) ≡ xs
  take-append [] ys = refl
  take-append (x ∷ xs) ys = ap (λ t. x ∷ t) (take-append xs ys)

  pub drop-append : (xs ys : List A) → drop (length xs) (xs ++ ys) ≡ ys
  drop-append [] ys = refl
  drop-append (x ∷ xs) ys = drop-append xs ys

  pub take-append-drop : (n : ℕ) (xs : List A) → take n xs ++ drop n xs ≡ xs
  take-append-drop zero xs = refl
  take-append-drop (suc n) [] = refl
  take-append-drop (suc n) (x ∷ xs) = ap (λ t. x ∷ t) (take-append-drop n xs)

  pub drop-drop : (m n : ℕ) (xs : List A) → drop n (drop m xs) ≡ drop (m + n) xs
  drop-drop zero n xs = ap (λ k. drop k xs) (omega arith)
  drop-drop (suc m) zero [] = let e : suc m + 0 ≡ suc m = omega arith in rw e
  drop-drop (suc m) (suc n) [] = let e : suc m + suc n ≡ suc (m + suc n) = omega arith in rw e
  drop-drop (suc m) n (x ∷ xs) =
      let e : suc m + n ≡ suc (m + n) = omega arith in rw e (drop-drop m n xs)

  pub take-take-drop : (m n : ℕ) (xs : List A) → take m xs ++ take n (drop m xs) ≡ take (m + n) xs
  take-take-drop zero n xs = ap (λ k. take k xs) (omega arith)
  take-take-drop (suc m) zero [] = let e : suc m + 0 ≡ suc m = omega arith in rw e
  take-take-drop (suc m) (suc n) [] = let e : suc m + suc n ≡ suc (m + suc n) = omega arith in rw e
  take-take-drop (suc m) n (x ∷ xs) =
      let e : suc m + n ≡ suc (m + n) = omega arith in
      rw e (ap (λ t. x ∷ t) (take-take-drop m n xs))

  pub take-take : (m n : ℕ) (xs : List A) → m ≤ n → take m (take n xs) ≡ take m xs
  take-take zero n xs h = refl
  take-take (suc m) zero xs h = absurd (omega arith)
  take-take (suc m) (suc n) [] h = refl
  take-take (suc m) (suc n) (x ∷ xs) h = ap (λ t. x ∷ t) (take-take m n xs (omega arith))

  pub take_all : (n : ℕ) (xs : List A) → length xs ≤ n → take n xs ≡ xs
  take_all zero [] h = refl
  take_all zero (x ∷ xs) h = absurd (omega arith)
  take_all (suc n) [] h = refl
  take_all (suc n) (x ∷ xs) h = ap (λ t. x ∷ t) (take_all n xs (omega arith))

  pub drop_all : (n : ℕ) (xs : List A) → length xs ≤ n → drop n xs ≡ []
  drop_all zero [] h = refl
  drop_all zero (x ∷ xs) h = absurd (omega arith)
  drop_all (suc n) [] h = refl
  drop_all (suc n) (x ∷ xs) h = drop_all n xs (omega arith)

  pub get_or-append_lt :
      (xs ys : List A) (i : ℕ) (d : A) → i < length xs → get_or (xs ++ ys) i d ≡ get_or xs i d
  get_or-append_lt [] ys i d h = absurd (omega arith)
  get_or-append_lt (x ∷ xs) ys zero d h = refl
  get_or-append_lt (x ∷ xs) ys (suc i) d h = get_or-append_lt xs ys i d (omega arith)

  pub get_or-append_right :
      (xs ys : List A) (i : ℕ) (d : A) → get_or (xs ++ ys) (length xs + i) d ≡ get_or ys i d
  get_or-append_right [] ys i d = ap (λ k. get_or ys k d) (omega arith)
  get_or-append_right (x ∷ xs) ys i d =
      let e : length (x ∷ xs) + i ≡ suc (length xs + i) = omega arith in
      rw e (get_or-append_right xs ys i d)

  -- What an overlay at 0 leaves in front, when it fits.
  pub overlay_fits :
      (src ys : List A) → length src ≤ length ys → overlay 0 src ys ≡ src ++ drop (length src) ys
  overlay_fits [] [] h = refl
  overlay_fits [] (y ∷ ys) h = refl
  overlay_fits (x ∷ xs) [] h = absurd (omega arith)
  overlay_fits (x ∷ xs) (y ∷ ys) h = ap (λ t. x ∷ t) (overlay_fits xs ys (omega arith))

  pub overlay_at :
      (front src ys : List A)
      → length src ≤ length ys
      → overlay (length front) src (front ++ ys) ≡ front ++ (src ++ drop (length src) ys)
  overlay_at [] src ys h = overlay_fits src ys h
  overlay_at (x ∷ xs) src ys h = ap (λ t. x ∷ t) (overlay_at xs src ys h)

  pub take-drop-suc :
      (d : A) (n i : ℕ) (xs : List A)
      → i < length xs
      → take (suc n) (drop i xs) ≡ get_or xs i d ∷ take n (drop (suc i) xs)
  take-drop-suc d n i [] h = absurd (omega arith)
  take-drop-suc d n zero (x ∷ xs) h = refl
  take-drop-suc d n (suc i) (x ∷ xs) h = take-drop-suc d n i xs (omega arith)

  -- A write in range, with the list cut at its place.
  pub set_split :
      (d : A) (xs : List A) (i : ℕ) (v : A)
      → i < length xs
      → (xs ≡ take i xs ++ get_or xs i d ∷ drop (suc i) xs)
        × (set xs i v ≡ take i xs ++ v ∷ drop (suc i) xs)
  set_split d [] i v h = absurd (omega arith)
  set_split d (x ∷ xs) zero v h = (refl, refl)
  set_split d (x ∷ xs) (suc i) v h =
      let ih = set_split d xs i v (omega arith) in (ap (λ t. x ∷ t) ih.0, ap (λ t. x ∷ t) ih.1)

  pub get_or-set_self :
      (xs : List A) (i : ℕ) (v d : A) → i < length xs → get_or (set xs i v) i d ≡ v
  get_or-set_self [] i v d h = absurd (omega arith)
  get_or-set_self (x ∷ xs) zero v d h = refl
  get_or-set_self (x ∷ xs) (suc i) v d h = get_or-set_self xs i v d (omega arith)

  pub get_or-set_ne :
      (xs : List A) (i j : ℕ) (v d : A) → i ≢ j → get_or (set xs i v) j d ≡ get_or xs j d
  get_or-set_ne [] i j v d h = refl
  get_or-set_ne (x ∷ xs) zero zero v d h = absurd (h refl)
  get_or-set_ne (x ∷ xs) zero (suc j) v d h = refl
  get_or-set_ne (x ∷ xs) (suc i) zero v d h = refl
  get_or-set_ne (x ∷ xs) (suc i) (suc j) v d h = get_or-set_ne xs i j v d (λ e. h (ap suc e))

  pub take-set_ge : (xs : List A) (n i : ℕ) (v : A) → n ≤ i → take n (set xs i v) ≡ take n xs
  take-set_ge xs zero i v h = refl
  take-set_ge [] (suc n) i v h = refl
  take-set_ge (x ∷ xs) (suc n) zero v h = absurd (omega arith)
  take-set_ge (x ∷ xs) (suc n) (suc i) v h = ap (λ t. x ∷ t) (take-set_ge xs n i v (omega arith))

  pub take-set_lt :
      (xs : List A) (n i : ℕ) (v : A) → i < n → take n (set xs i v) ≡ set (take n xs) i v
  take-set_lt xs zero i v h = absurd (omega arith)
  take-set_lt [] (suc n) i v h = refl
  take-set_lt (x ∷ xs) (suc n) zero v h = refl
  take-set_lt (x ∷ xs) (suc n) (suc i) v h = ap (λ t. x ∷ t) (take-set_lt xs n i v (omega arith))

  pub get_or-take : (xs : List A) (n i : ℕ) (d : A) → i < n → get_or (take n xs) i d ≡ get_or xs i d
  get_or-take xs zero i d h = absurd (omega arith)
  get_or-take [] (suc n) i d h = refl
  get_or-take (x ∷ xs) (suc n) zero d h = refl
  get_or-take (x ∷ xs) (suc n) (suc i) d h = get_or-take xs n i d (omega arith)

module _ {ℓ} {A : Type ℓ} where
  -- Two writes one behind the other are one write.
  pub overlay-overlay :
      (q p ys : List A) → overlay (length q) p (overlay 0 q ys) ≡ overlay 0 (q ++ p) ys
  overlay-overlay [] p [] = refl
  overlay-overlay [] p (y ∷ ys) = refl
  overlay-overlay (x ∷ q) p [] = refl
  overlay-overlay (x ∷ q) p (y ∷ ys) = ap (λ t. y_front x t) (overlay-overlay q p ys)
    where
      y_front : A → List A → List A
      y_front a t = a ∷ t

  pub take-overlay :
      (src ys : List A) → length src ≤ length ys → take (length src) (overlay 0 src ys) ≡ src
  take-overlay [] ys h = refl
  take-overlay (x ∷ src) [] h = absurd (omega arith)
  take-overlay (x ∷ src) (y ∷ ys) h = ap (λ t. x ∷ t) (take-overlay src ys (omega arith))

  pub take-append_le : (n : ℕ) (b junk : List A) → n ≤ length b → take n (b ++ junk) ≡ take n b
  take-append_le zero b junk h = refl
  take-append_le (suc n) [] junk h = absurd (omega arith)
  take-append_le (suc n) (x ∷ b) junk h = ap (λ t. x ∷ t) (take-append_le n b junk (omega arith))

  pub drop-append_le :
      (n : ℕ) (b junk : List A) → n ≤ length b → drop n (b ++ junk) ≡ drop n b ++ junk
  drop-append_le zero b junk h = refl
  drop-append_le (suc n) [] junk h = absurd (omega arith)
  drop-append_le (suc n) (x ∷ b) junk h = drop-append_le n b junk (omega arith)

  -- What `take` gives, and what is left behind it.
  pub take-drop_taken : (n : ℕ) (xs : List A) → take n xs ++ drop (length (take n xs)) xs ≡ xs
  take-drop_taken zero xs = refl
  take-drop_taken (suc n) [] = refl
  take-drop_taken (suc n) (x ∷ xs) = ap (λ t. x ∷ t) (take-drop_taken n xs)
