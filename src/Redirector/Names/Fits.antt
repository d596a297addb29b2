-- ===== src/Redirector/Names/Fits.antt =====
-- How long the paths of the requests get.
use serial_dfs.Base.{
  ℕ, suc, ◌+◌, ◌-◌, ◌≤◌, ◌==◌, ltb, not, ◌&&◌, List, [], ◌∷◌, length, drop, true, Bool-cases, inl,
  inr, ◌≡◌, arith,
}
use Prim.Native.Nat.{max}
use serial_dfs.Redirector.Names.{copy_path, copy_fn1_path}

length-copy_path : (fn : List ℕ) (at : ℕ) → length (copy_path fn at) ≤ max 1 (510 - at)
unfolding copy_path
length-copy_path [] at = omega arith
length-copy_path (c ∷ fn) at = elim (Bool-cases (not (c == 0) && ltb at 509)) [
  | inl e ↦ rw e (omega (arith, length-copy_path fn (at + 1), below e))
  | inr e ↦ rw e (omega arith)
]
  where
    below : (not (c == 0) && ltb at 509) ≡ true → suc at ≤ 509
    below e = ground (arith, e)

-- A path copied to the offset `off` of the request buffer ends before its 511th byte, or is empty.
pub length-path : (off : ℕ) (fn1 : List ℕ) → length (copy_fn1_path off fn1) ≤ max 1 (510 - off)
unfolding copy_fn1_path
length-path off fn1 = length-copy_path (drop 2 fn1) off
