-- ===== src/Tests/Setup.antt =====
-- The installer with one drive: the server's C as X.
use serial_dfs.Base.{
  ℕ, zero, suc, ◌+◌, ◌<◌, ◌≤◌, ltb, if◌then◌else◌, Bool, true, false, List, [], ◌∷◌, ◌++◌, length,
  replicate, set, byte_at, word_at, some, ◌≡◌, ◌⊎◌, inl, inr, refl, arith,
}
use serial_dfs.Rpc.{serial_rpc}
use serial_dfs.Rpc.Bounds.{IsBounded}
use serial_dfs.Install.{
  Args, parseargv, parse_arg, parse_drive, parse_option, check_args, starts_with,
}
use serial_dfs.Install.Options.{IsArgs, Keeps}
use serial_dfs.Install.Mapped.{mapped_letters, AllMapped, AllDifferent}
use serial_dfs.Install.Accepted.{complete, parseargv-IsArgs}
use serial_dfs.Install.Drives.{Dos, check_drives, available, mark_drives, release_drives}
use serial_dfs.Install.Drives.Restore.{taken, mark-release}
use serial_dfs.Install.Text.{traffic_line, errors_line}
use serial_dfs.Install.Text.Digits.{number_at, lines-read}
use serial_dfs.Install.Multiplex.{findfreemultiplex}
use serial_dfs.Install.Multiplex.Found.{int2f, findfreemultiplex-inthandler}
use serial_dfs.Install.Patch.{patchhandlerds, patch_from, has_signature, sigoff}
use serial_dfs.Install.Patch.Signature.{sigoff-patchhandlerds}
use serial_dfs.Tests.State.{state}
use serial_dfs.Tests.Calls.{dead, idle}

abbrev no_drives : List ℕ
no_drives = replicate 26 0xFF

abbrev one_drive : List ℕ
one_drive = set no_drives 23 2

abbrev args : ℕ → ℕ → List ℕ → Bool → Args
args comport baudiv ldrv mapped = record {
  comport = comport;
  baudiv = baudiv;
  flags = 0;
  ldrv = ldrv;
  mapped = mapped;
}

-- "C-X /COM2"
abbrev argv : List (List ℕ)
argv = (b'C' ∷ b'-' ∷ b'X' ∷ []) ∷ (b'/' ∷ b'C' ∷ b'O' ∷ b'M' ∷ b'2' ∷ []) ∷ []

accepted : parseargv argv (args 0 0 no_drives false) ≡ inr (args 2 12 one_drive true)
unfolding parseargv parse_arg parse_drive parse_option check_args starts_with
accepted = refl

free :
    (n i : ℕ) → i < n → (byte_at (replicate n 0xFF) i ≡ 0xFF) ⊎ (byte_at (replicate n 0xFF) i < 26)
free zero i h = absurd (omega arith)
free (suc n) zero h = inl refl
free (suc n) (suc i) h = free n i (omega arith)

fresh : IsArgs (args 0 0 no_drives false)
fresh = record { letters = refl; drives = free 26; ports = omega arith; divisor = inl refl }

parseargv-IsArgs_example :
    IsArgs (args 2 12 one_drive true)
    × Keeps (args 0 0 no_drives false) (args 2 12 one_drive true)
    × AllMapped argv (args 0 0 no_drives false) (args 2 12 one_drive true)
    × AllDifferent (mapped_letters argv)
    × (complete (args 2 12 one_drive true) ≡ true)
parseargv-IsArgs_example =
    parseargv-IsArgs argv (args 0 0 no_drives false) (args 2 12 one_drive true) fresh accepted

-- A DOS with the drives A to Z, of which A to C are in use.
abbrev dos : Dos
dos = record {
  has_list = true;
  lastdrv = 25;
  cds = λ i. record { current_path = replicate 67 0; flags = if ltb i 3 then 0x4000 else 0 };
}

letter_free : check_drives one_drive dos 26 0 ≡ available
unfolding check_drives
letter_free = refl

mark-release_example :
    let installed = mark_drives one_drive dos 26 0 in
    ((installed.cds 23).flags ≡ (if taken one_drive 23 then 0xC000 else (dos.cds 23).flags))
    × (((release_drives one_drive installed 26 0).cds 23).flags ≡ (dos.cds 23).flags)
mark-release_example = mark-release one_drive dos 23 letter_free

idle-IsBounded : IsBounded idle
idle-IsBounded = record {
  seq_lt = omega arith;
  tx_lt = omega arith;
  rx_lt = omega arith;
  crc_lt = omega arith;
  timeouts_lt = omega arith;
  retries_lt = omega arith;
}

lines-read_example :
    (length (traffic_line idle.stats) ≤ 48)
    × (length (errors_line idle.stats) ≤ 48)
    × ((number_at 3 (traffic_line idle.stats)).0 ≡ 0)
    × ((number_at 4 (number_at 3 (traffic_line idle.stats)).1).0 ≡ 0)
    × ((number_at 3 (errors_line idle.stats)).0 ≡ 0)
    × ((number_at 4 (number_at 3 (errors_line idle.stats)).1).0 ≡ 0)
    × ((number_at 4 (number_at 4 (number_at 3 (errors_line idle.stats)).1).1).0 ≡ 0)
lines-read_example = lines-read idle idle-IsBounded

findfreemultiplex-inthandler_example :
    findfreemultiplex (int2f (serial_rpc dead) 9 0 68 0x1234 0x100 0x5000 (state 0 [] idle))
    ≡ (0xC0, 1)
findfreemultiplex-inthandler_example =
    findfreemultiplex-inthandler (serial_rpc dead) 9 0 68 0x1234 0x100 0x5000 (state 0 [] idle)
      (omega arith)

-- A handler whose signature stands behind 24 bytes.
abbrev handler : ℕ → ℕ → List ℕ
handler lo hi =
    replicate 24 0x90
    ++ (b'S' ∷ b'D' ∷ b'F' ∷ b'S' ∷ 0x50 ∷ 0xB8 ∷ lo ∷ hi ∷ 0x8E ∷ 0xD8 ∷ 0x58 ∷ 0x90 ∷ [])

patches :
    patchhandlerds (handler 0 0) (record { s0 = b'S'; s1 = b'D'; s2 = b'F'; s3 = b'S' }) 0x1234
    ≡ some (handler 0x34 0x12)
unfolding patchhandlerds patch_from has_signature
patches = refl

sigoff-patchhandlerds_example :
    (i : ℕ) × (i ≤ 28)
    × (sigoff (handler 0x34 0x12) ≡ some i)
    × (word_at (handler 0x34 0x12) (i + 6) ≡ 0x1234)
    × ((j : ℕ) → j < i + 6 → byte_at (handler 0x34 0x12) j ≡ byte_at (handler 0 0) j)
    × (length (handler 0x34 0x12) ≡ length (handler 0 0))
sigoff-patchhandlerds_example =
    sigoff-patchhandlerds (handler 0 0) (handler 0x34 0x12) 0x1234 (omega arith) (omega arith)
      patches
