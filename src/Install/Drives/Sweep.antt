-- ===== src/Install/Drives/Sweep.antt =====
-- A loop over the drive letters that changes each entry of the table on its own.
use serial_dfs.Base.{
  ℕ, zero, suc, ◌+◌, ◌==◌, not, if◌then◌else◌, Bool, Bool-cases, true, false, List, byte_at, ◌<◌,
  ◌≤◌, ◌≡◌, ◌≢◌, ◌⊎◌, inl, inr, refl, sym, ap, ◌∙◌, arith,
}
use serial_dfs.Redirector.State.{update}
use serial_dfs.Redirector.State.Update.{update_at}
use serial_dfs.Install.Drives.{has_cds, Cds, Dos, available, check_drives}

-- A drive letter that the command line maps.
abbrev pub is_mapped : List ℕ → ℕ → Bool
is_mapped ldrv i = not (byte_at ldrv i == 0xFF)

update_other : {A : Type 0} (f : ℕ → A) (p q : ℕ) (v : A) → p ≢ q → update f p v q ≡ f q
update_other f p q v h = let e : (p == q) ≡ false = ground (arith, h) in rw e

module _ (ldrv : List ℕ) where
  check_step :
      (d : Dos) (left i : ℕ)
      → check_drives ldrv d (suc left) i ≡ available
      → (check_drives ldrv d left (i + 1) ≡ available)
        × (is_mapped ldrv i ≡ true → (has_cds d i ≡ true) × ((d.cds i).flags ≡ 0))
  unfolding check_drives
  check_step d left i e = elim (Bool-cases (byte_at ldrv i == 0xFF)) [
    | inl free ↦ (ground (arith, e, free), λ m. ground (arith, m, free))
    | inr used ↦ (ground (arith, e, used), λ m. (ground (arith, e, used), ground (arith, e, used)))
  ]

  -- What the check guarantees of a mapped drive.
  pub checked :
      (d : Dos) (left i j : ℕ)
      → check_drives ldrv d left i ≡ available
      → i ≤ j
      → j < i + left
      → is_mapped ldrv j ≡ true
      → (has_cds d j ≡ true) × ((d.cds j).flags ≡ 0)
  checked d zero i j e lo hi m = absurd (omega arith)
  checked d (suc left) i j e lo hi m = elim (Bool-cases (i == j)) [
    | inl here ↦
        let same : j ≡ i = ground (arith, here) in
        rw same ((check_step d left i e).1 (ap (is_mapped ldrv) (sym same) ∙ m))
    | inr later ↦
        checked d left (i + 1) j (check_step d left i e).0 (ground (arith, later, lo))
          (omega (arith, hi)) m
  ]

-- A loop that changes the CDS of the drives that it does not skip.
module _ (skip : Dos → ℕ → Bool) (change : ℕ → Cds → Cds)
    (stable : (d : Dos) (c : ℕ → Cds) (i : ℕ) → skip (record d { cds = c }) i ≡ skip d i) where
  unfoldable pub stepped : Bool → Dos → ℕ → Dos
  stepped b d i = if b then d else record d { cds = update d.cds i (change i (d.cds i)) }

  unfoldable pub sweep : ℕ → ℕ → Dos → Dos
  sweep zero i d = d
  sweep (suc left) i d = sweep left (i + 1) (stepped (skip d i) d i)

  stepped-other : (b : Bool) (d : Dos) (i j : ℕ) → i ≢ j → (stepped b d i).cds j ≡ d.cds j
  unfolding stepped
  stepped-other true d i j h = refl
  stepped-other false d i j h = update_other d.cds i j (change i (d.cds i)) h

  stepped-skip : (b : Bool) (d : Dos) (i j : ℕ) → skip (stepped b d i) j ≡ skip d j
  unfolding stepped
  stepped-skip true d i j = refl
  stepped-skip false d i j = stable d (update d.cds i (change i (d.cds i))) j

  stepped-has_cds : (b : Bool) (d : Dos) (i j : ℕ) → has_cds (stepped b d i) j ≡ has_cds d j
  unfolding stepped
  stepped-has_cds true d i j = refl
  stepped-has_cds false d i j = refl

  pub sweep-has_cds : (left i : ℕ) (d : Dos) (j : ℕ) → has_cds (sweep left i d) j ≡ has_cds d j
  unfolding sweep
  sweep-has_cds zero i d j = refl
  sweep-has_cds (suc left) i d j =
      sweep-has_cds left (i + 1) (stepped (skip d i) d i) j ∙ stepped-has_cds (skip d i) d i j

  pub sweep_outside :
      (left i : ℕ) (d : Dos) (j : ℕ) → (j < i) ⊎ (i + left ≤ j) → (sweep left i d).cds j ≡ d.cds j
  unfolding sweep
  sweep_outside zero i d j h = refl
  sweep_outside (suc left) i d j h =
      sweep_outside left (i + 1) (stepped (skip d i) d i) j (further h)
      ∙ stepped-other (skip d i) d i j (elsewhere h)
    where
      further : (j < i) ⊎ (i + suc left ≤ j) → (j < i + 1) ⊎ (i + 1 + left ≤ j)
      further (inl lt) = inl (omega (arith, lt))
      further (inr le) = inr (omega (arith, le))

      elsewhere : (j < i) ⊎ (i + suc left ≤ j) → i ≢ j
      elsewhere (inl lt) e = omega (arith, lt, e)
      elsewhere (inr le) e = omega (arith, le, e)

  pub sweep_inside :
      (left i : ℕ) (d : Dos) (j : ℕ)
      → i ≤ j
      → j < i + left
      → (sweep left i d).cds j ≡ (if skip d j then d.cds j else change j (d.cds j))
  unfolding sweep stepped
  sweep_inside zero i d j lo hi = absurd (omega arith)
  sweep_inside (suc left) i d j lo hi = elim (Bool-cases (i == j)) [
    | inl here ↦
        let same : j ≡ i = ground (arith, here) in
        sweep_outside left (i + 1) (stepped (skip d i) d i) j (inl (omega (arith, same)))
        ∙ rw same (changed (skip d i))
    | inr later ↦
        sweep_inside left (i + 1) (stepped (skip d i) d i) j (ground (arith, later, lo))
          (omega (arith, hi))
        ∙ by_skip (ground (arith, later))
  ]
    where
      changed : (b : Bool) → (stepped b d i).cds i ≡ (if b then d.cds i else change i (d.cds i))
      changed true = refl
      changed false = update_at d.cds i (change i (d.cds i))

      by_skip :
          i ≢ j
          → (if skip (stepped (skip d i) d i) j
              then (stepped (skip d i) d i).cds j
              else change j ((stepped (skip d i) d i).cds j))
            ≡ (if skip d j then d.cds j else change j (d.cds j))
      by_skip h = rw (stepped-skip (skip d i) d i j, stepped-other (skip d i) d i j h)
