-- ===== src/Install/Patch.antt =====
-- dos/src/serdfs.c: `patchhandlerds`, and the scan of /UNLOAD for the same signature.
-- A handler is the list of its bytes.
pub mod Signature
use serial_dfs.Base.{
  ℕ, zero, suc, ◌+◌, ◌==◌, ◌&&◌, if◌then◌else◌, Bool, Option, some, none, List, byte_at, drop,
  word_bytes, overlay,
}

-- The four bytes of a signature.
pub record Signature4 : Type 0 where
  pub s0 : ℕ
  pub s1 : ℕ
  pub s2 : ℕ
  pub s3 : ℕ

-- The test of both loops on the bytes from `handler + i` on.
unfoldable pub has_signature : List ℕ → Signature4 → ℕ → Bool
has_signature handler s i =
    byte_at handler i == s.s0
    && (byte_at handler (i + 1) == s.s1
        && (byte_at handler (i + 2) == s.s2 && byte_at handler (i + 3) == s.s3))

-- The loop of `patchhandlerds` with `left` offsets to go from `i` on: the handler with the word at
-- the signature's seventh byte set, or `none` for the return of -1.
unfoldable pub patch_from : List ℕ → Signature4 → ℕ → ℕ → ℕ → Option (List ℕ)
patch_from handler s newds zero i = none
patch_from handler s newds (suc left) i =
    let rest = patch_from handler s newds left (i + 1) in
    if has_signature handler s i then some (overlay (i + 6) (word_bytes newds) handler) else rest

unfoldable pub patchhandlerds : List ℕ → Signature4 → ℕ → Option (List ℕ)
patchhandlerds handler s newds = patch_from handler s newds 29 0

-- The loop of /UNLOAD: `sigoff`, or `none` for -1.
pub sigoff_from : List ℕ → Signature4 → ℕ → ℕ → Option ℕ
sigoff_from base s zero i = none
sigoff_from base s (suc left) i =
    let rest = sigoff_from base s left (i + 1) in if has_signature base s i then some i else rest

pub sigoff : List ℕ → Option ℕ
sigoff base = sigoff_from base (record { s0 = b'S'; s1 = b'D'; s2 = b'F'; s3 = b'S' }) 29 0
