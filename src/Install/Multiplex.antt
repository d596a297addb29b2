-- ===== src/Install/Multiplex.antt =====
-- dos/src/serdfs.c: `findfreemultiplex`, the search for a multiplex number.
pub mod Found
use serial_dfs.Base.{ℕ, zero, suc, ◌+◌, ◌==◌, ◌&&◌, Bool, if◌then◌else◌}

-- The registers after INT 2Fh with AL = 0.
pub record Mux : Type 0 where
  pub ah : ℕ
  pub al : ℕ
  pub bx : ℕ
  pub cx : ℕ

-- SerialDFS answers with AL = FFh and SDF_MUXBX and SDF_MUXCX.
pub is_serdfs : Mux → Bool
is_serdfs r = r.al == 0xFF && (r.bx == 0x4453 && r.cx == 0x0001)

-- The loop at `checkid` with `left` numbers to go: `freeid` and `pflag`. `int2f` is INT 2Fh as a
-- function of AH. A number that is free is kept, so the last one wins.
pub check_ids : (ℕ → Mux) → ℕ → ℕ → ℕ → ℕ × ℕ
check_ids int2f zero id freeid = (freeid, 0)
check_ids int2f (suc left) id freeid =
    let r = int2f id in
    let rest = check_ids int2f left (id + 1) (if r.al == 0 then r.ah else freeid) in
    if r.al == 0 then rest else if is_serdfs r then (id, 1) else rest

-- From C0h until `id` wraps round to 0.
pub findfreemultiplex : (ℕ → Mux) → ℕ × ℕ
findfreemultiplex int2f = check_ids int2f 64 0xC0 0
