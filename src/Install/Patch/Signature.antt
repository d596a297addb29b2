-- ===== src/Install/Patch/Signature.antt =====
-- A patched handler, found again.
use serial_dfs.Base.{
  ℕ, zero, suc, ◌+◌, ◌^◌, ◌==◌, ◌&&◌, Bool-cases, some, List, [], ◌∷◌, byte_at, word_at, word_bytes,
  overlay, length, length-overlay, ◌<◌, ◌≤◌, ◌≡◌, inl, inr, refl, ap, ap₂, ◌∙◌, arith,
}
use serial_dfs.Install.Patch.{
  Signature4, has_signature, patch_from, patchhandlerds, sigoff_from, sigoff,
}

byte_at-overlay_before :
    (off : ℕ) (src ys : List ℕ) (j : ℕ) → j < off → byte_at (overlay off src ys) j ≡ byte_at ys j
byte_at-overlay_before zero src ys j h = absurd (omega arith)
byte_at-overlay_before (suc off) src [] j h = refl
byte_at-overlay_before (suc off) src (y ∷ ys) zero h = refl
byte_at-overlay_before (suc off) src (y ∷ ys) (suc j) h =
    byte_at-overlay_before off src ys j (omega arith)

word_at-overlay :
    (off n : ℕ) (ys : List ℕ)
    → n < 2 ^ 16
    → off + 2 ≤ length ys
    → word_at (overlay off (word_bytes n) ys) off ≡ n
word_at-overlay zero n [] small room = absurd (omega arith)
word_at-overlay zero n (y ∷ []) small room = absurd (omega arith)
word_at-overlay zero n (y ∷ z ∷ ys) small room = omega arith
word_at-overlay (suc off) n [] small room = absurd (omega arith)
word_at-overlay (suc off) n (y ∷ ys) small room =
    let e : suc off + 1 ≡ suc (off + 1) = omega arith in
    rw e (word_at-overlay off n ys small (omega arith))

module _ (handler : List ℕ) (s : Signature4) (newds : ℕ) where
  patched : ℕ → List ℕ
  patched i = overlay (i + 6) (word_bytes newds) handler

  -- The signature's bytes, up to where the patch is, are as before.
  signature_kept : (i k : ℕ) → k ≤ i → has_signature (patched i) s k ≡ has_signature handler s k
  unfolding has_signature patched
  signature_kept i k le =
      ap₂ (λ a b. a && b) (test k s.s0 (omega arith))
        (ap₂ (λ a b. a && b) (test (k + 1) s.s1 (omega arith))
          (ap₂ (λ a b. a && b) (test (k + 2) s.s2 (omega arith)) (test (k + 3) s.s3 (omega arith))))
    where
      test :
          (j c : ℕ)
          → j < i + 6
          → (byte_at (overlay (i + 6) (word_bytes newds) handler) j == c) ≡ (byte_at handler j == c)
      test j c lt =
          ap (λ b. b == c) (byte_at-overlay_before (i + 6) (word_bytes newds) handler j lt)

  patch-sigoff :
      (left k : ℕ) {out : List ℕ}
      → patch_from handler s newds left k ≡ some out
      → (i : ℕ) × (k ≤ i) × (i < k + left) × (out ≡ patched i) × (sigoff_from out s left k ≡ some i)
  unfolding patch_from sigoff_from patched
  patch-sigoff zero k e = absurd cc
  patch-sigoff (suc left) k {out} e = elim (Bool-cases (has_signature handler s k)) [
    | inl found ↦
        let is : out ≡ patched k = ground (arith, e, found) in
        (k, omega arith, omega arith, is, rw is (rw (signature_kept k k (omega arith), found)))
    | inr absent ↦
        let later : patch_from handler s newds left (k + 1) ≡ some out =
          ground (arith, e, absent) in
        let (i, lo, hi, is, again) = patch-sigoff left (k + 1) later in
        (
          i,
          omega (arith, lo),
          omega (arith, hi),
          is,
          rw (ap (λ h. has_signature h s k) is ∙ signature_kept i k (omega (arith, lo)), absent)
              again,
        )
  ]

-- A handler of at least 36 bytes that is patched at its signature SDFS: /UNLOAD finds the
-- signature again, at an offset of at most 28, the word six bytes behind is the new data segment,
-- the bytes in front of that word are as before and the size is the same.
pub sigoff-patchhandlerds :
    (handler out : List ℕ) (newds : ℕ)
    → newds < 2 ^ 16
    → 36 ≤ length handler
    → patchhandlerds handler (record { s0 = b'S'; s1 = b'D'; s2 = b'F'; s3 = b'S' }) newds
      ≡ some out
    → (i : ℕ) × (i ≤ 28)
      × (sigoff out ≡ some i)
      × (word_at out (i + 6) ≡ newds)
      × ((j : ℕ) → j < i + 6 → byte_at out j ≡ byte_at handler j)
      × (length out ≡ length handler)
unfolding patchhandlerds sigoff patched
sigoff-patchhandlerds handler out newds small room e =
    let (i, lo, hi, is, found) =
      patch-sigoff handler (record { s0 = b'S'; s1 = b'D'; s2 = b'F'; s3 = b'S' }) newds 29 0 e in
    (
      i,
      omega (arith, hi),
      found,
      ap (λ h. word_at h (i + 6)) is
          ∙ word_at-overlay (i + 6) newds handler small (omega (arith, hi)),
      λ j lt.
          ap (λ h. byte_at h j) is ∙ byte_at-overlay_before (i + 6) (word_bytes newds) handler j lt,
      ap length is ∙ length-overlay (i + 6) (word_bytes newds) handler,
    )
