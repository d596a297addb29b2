-- ===== src/Install/Drives/Restore.antt =====
-- What installing and unloading do to the drives.
use serial_dfs.Base.{
  ℕ, zero, suc, ◌+◌, ◌==◌, ltb, not, ◌&&◌, if◌then◌else◌, Bool, Bool-cases, true, false, List,
  byte_at, ◌≡◌, ◌⊎◌, inl, inr, refl, sym, ap, ◌∙◌, arith,
}
use serial_dfs.Install.Drives.{
  Cds, Dos, has_cds, available, check_drives, network_cds, mark_drives, release_drives,
}
use serial_dfs.Install.Drives.Sweep.{
  is_mapped, checked, stepped, sweep, sweep-has_cds, sweep_outside, sweep_inside,
}

abbrev free_letter : List ℕ → Dos → ℕ → Bool
free_letter ldrv d i = byte_at ldrv i == 0xFF

released : ℕ → Cds → Cds
released i c = record c { flags = 0 }

abbrev not_released : List ℕ → Dos → ℕ → Bool
not_released ldrv d i = if byte_at ldrv i == 0xFF then true else not (has_cds d i)

mark-sweep :
    (ldrv : List ℕ) (left i : ℕ) (d : Dos)
    → mark_drives ldrv d left i ≡ sweep (free_letter ldrv) network_cds (λ d c i. refl) left i d
unfolding mark_drives sweep stepped
mark-sweep ldrv zero i d = refl
mark-sweep ldrv (suc left) i d =
    mark-sweep ldrv left (i + 1)
      (stepped (free_letter ldrv) network_cds (λ d c i. refl) (byte_at ldrv i == 0xFF) d i)

release-sweep :
    (ldrv : List ℕ) (left i : ℕ) (d : Dos)
    → release_drives ldrv d left i ≡ sweep (not_released ldrv) released (λ d c i. refl) left i d
unfolding release_drives sweep stepped released
release-sweep ldrv zero i d = refl
release-sweep ldrv (suc left) i d =
    release-sweep ldrv left (i + 1)
      (stepped (not_released ldrv) released (λ d c i. refl) (not_released ldrv d i) d i)

-- The letters that the loops go over and the command line maps.
abbrev pub taken : List ℕ → ℕ → Bool
taken ldrv j = ltb j 26 && is_mapped ldrv j

module _ (ldrv : List ℕ) (d : Dos) (ok : check_drives ldrv d 26 0 ≡ available) where
  installed : Dos
  installed = mark_drives ldrv d 26 0

  marked : (j : ℕ) → (installed.cds j).flags ≡ (if taken ldrv j then 0xC000 else (d.cds j).flags)
  unfolding installed network_cds
  marked j = ap (λ u. (u.cds j).flags) (mark-sweep ldrv 26 0 d) ∙ by_range (Bool-cases (ltb j 26))
    where
      swept : Dos
      swept = sweep (free_letter ldrv) network_cds (λ d c i. refl) 26 0 d

      by_letter :
          (b : Bool)
          → (if b then d.cds j else network_cds j (d.cds j)).flags
            ≡ (if not b then 0xC000 else (d.cds j).flags)
      by_letter true = refl
      by_letter false = refl

      by_range :
          (ltb j 26 ≡ true) ⊎ (ltb j 26 ≡ false)
          → (swept.cds j).flags ≡ (if taken ldrv j then 0xC000 else (d.cds j).flags)
      by_range (inl lt) =
          ap (λ c. c.flags)
            (sweep_inside (free_letter ldrv) network_cds (λ d c i. refl) 26 0 d j (omega arith)
              (ground (arith, lt)))
          ∙ rw lt (by_letter (byte_at ldrv j == 0xFF))
      by_range (inr ge) = rw ge (
          ap (λ c. c.flags)
            (sweep_outside (free_letter ldrv) network_cds (λ d c i. refl) 26 0 d j
              (inr (ground (arith, ge)))))

  installed-has_cds : (j : ℕ) → has_cds installed j ≡ has_cds d j
  unfolding installed
  installed-has_cds j =
      ap (λ u. has_cds u j) (mark-sweep ldrv 26 0 d)
      ∙ sweep-has_cds (free_letter ldrv) network_cds (λ d c i. refl) 26 0 d j

  unloaded : Dos
  unloaded = release_drives ldrv installed 26 0

  restored : (j : ℕ) → (unloaded.cds j).flags ≡ (d.cds j).flags
  unfolding unloaded released
  restored j =
      ap (λ u. (u.cds j).flags) (release-sweep ldrv 26 0 installed)
      ∙ by_range (Bool-cases (ltb j 26))
    where
      swept : Dos
      swept = sweep (not_released ldrv) released (λ d c i. refl) 26 0 installed

      by_letter :
          ltb j 26 ≡ true
          → (is_mapped ldrv j ≡ true) ⊎ (is_mapped ldrv j ≡ false)
          → (if not_released ldrv installed j
              then installed.cds j
              else released j (installed.cds j)).flags
            ≡ (d.cds j).flags
      by_letter lt (inl m) =
          let k = checked ldrv d 26 0 j ok (omega arith) (ground (arith, lt)) m in
          let used : (byte_at ldrv j == 0xFF) ≡ false = ground (arith, m) in
          let has : has_cds installed j ≡ true = installed-has_cds j ∙ k.0 in
          rw (used, has) (sym k.1)
      by_letter lt (inr f) =
          let unused : (byte_at ldrv j == 0xFF) ≡ true = ground (arith, f) in
          rw unused (marked j ∙ rw (lt, unused) refl)

      by_range : (ltb j 26 ≡ true) ⊎ (ltb j 26 ≡ false) → (swept.cds j).flags ≡ (d.cds j).flags
      by_range (inl lt) =
          ap (λ c. c.flags)
            (sweep_inside (not_released ldrv) released (λ d c i. refl) 26 0 installed j
              (omega arith) (ground (arith, lt)))
          ∙ by_letter lt (Bool-cases (is_mapped ldrv j))
      by_range (inr ge) =
          ap (λ c. c.flags)
            (sweep_outside (not_released ldrv) released (λ d c i. refl) 26 0 installed j
              (inr (ground (arith, ge))))
          ∙ marked j
          ∙ rw ge refl

-- A command line whose drives pass the check: after the installation the CDS of each of the 26
-- letters that it maps is that of a network drive and the other CDS keep their flags, and after
-- /UNLOAD all flags are what they were before.
pub mark-release :
    (ldrv : List ℕ) (d : Dos) (j : ℕ)
    → check_drives ldrv d 26 0 ≡ available
    → let installed = mark_drives ldrv d 26 0 in
      ((installed.cds j).flags ≡ (if taken ldrv j then 0xC000 else (d.cds j).flags))
      × (((release_drives ldrv installed 26 0).cds j).flags ≡ (d.cds j).flags)
unfolding installed unloaded
mark-release ldrv d j ok = (marked ldrv d ok j, restored ldrv d ok j)
