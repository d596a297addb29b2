-- ===== src/Install/Drives.antt =====
-- dos/src/serdfs.c, `main`: the loops over the drives, which check, mark and release their CDS.
pub mod Sweep
pub mod Restore
use serial_dfs.Base.{
  ℕ, zero, suc, ◌+◌, ◌==◌, ltb, leb, not, ◌&&◌, if◌then◌else◌, Bool, Bool-cases, true, false, List,
  [], ◌∷◌, byte_at, ◌<◌, ◌≤◌, ◌≡◌, ◌≢◌, ◌⊎◌, inl, inr, refl, sym, ap, ◌∙◌, arith, overlay, ==_iff,
}
use serial_dfs.Redirector.State.{update}

-- The fields of `struct cdsstruct` in use.
pub record Cds : Type 0 where
  pub current_path : List ℕ
  pub flags : ℕ

-- Whether DOS has a list of CDS (INT 21h, AH=52h, gives FFFF:FFFF for none), its drives, up to
-- `lastdrv`, and the CDS of each.
pub record Dos : Type 0 where
  pub has_list : Bool
  pub lastdrv : ℕ
  pub cds : ℕ → Cds

-- `getcds(drive)` is not NULL.
abbrev pub has_cds : Dos → ℕ → Bool
has_cds d i = d.has_list && leb i d.lastdrv

-- What the check of the drives finds.
pub data DriveCheck : Type 0 where
  available no_drive in_use : DriveCheck

-- The loop that checks the drives, with `left` letters to go from `i` on.
unfoldable pub check_drives : List ℕ → Dos → ℕ → ℕ → DriveCheck
check_drives ldrv d zero i = available
check_drives ldrv d (suc left) i =
    let rest = check_drives ldrv d left (i + 1) in
    if byte_at ldrv i == 0xFF
    then rest
    else if not (has_cds d i)
    then no_drive
    else if not ((d.cds i).flags == 0)
    then in_use
    else rest

-- The CDS of the drive `i` as a network drive: CDSFLAG_NET | CDSFLAG_PHY, and its root.
pub network_cds : ℕ → Cds → Cds
network_cds i c = record c {
  flags = 0xC000;
  current_path = overlay 0 ((b'A' + i) ∷ b':' ∷ b'\\' ∷ 0 ∷ []) c.current_path;
}

-- The loop that marks them, run only after the check.
pub mark_drives : List ℕ → Dos → ℕ → ℕ → Dos
mark_drives ldrv d zero i = d
mark_drives ldrv d (suc left) i =
    let d' : Dos = record d { cds = update d.cds i (network_cds i (d.cds i)) } in
    mark_drives ldrv (if byte_at ldrv i == 0xFF then d else d') left (i + 1)

-- The loop of /UNLOAD.
pub release_drives : List ℕ → Dos → ℕ → ℕ → Dos
release_drives ldrv d zero i = d
release_drives ldrv d (suc left) i =
    let d' : Dos = record d { cds = update d.cds i (record (d.cds i) { flags = 0 }) } in
    let skip = if byte_at ldrv i == 0xFF then true else not (has_cds d i) in
    release_drives ldrv (if skip then d else d') left (i + 1)
