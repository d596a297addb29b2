-- ===== src/StatusBar.antt =====
-- dos/src/serdfs.c: the status bar on the last row of the screen, and the hooks of INT 1Ch and INT 28h
-- that mark it and draw it. The row is the list of the cells written so far, so `col` is its length.
pub mod Width
use serial_dfs.Base.{
  ℕ, zero, suc, ◌+◌, ◌/◌, ◌%◌, ◌==◌, ltb, not, ◌&&◌, ◌||◌, if◌then◌else◌, Bool, true, false, List,
  [], ◌∷◌, ◌++◌, length, bit_or,
}
use serial_dfs.Rpc.{Stats}

-- A cell: yellow on blue.
abbrev pub cell : ℕ → ℕ
cell ch = bit_or 0x1E00 ch

pub vga_putch : List ℕ → ℕ → List ℕ
vga_putch row ch = if ltb (length row) 80 then row ++ cell ch ∷ [] else row

-- `tmp` of `vga_putnum`, from `tmp[10 - n]` on: the lowest digit first, ten at most.
pub num_digits : ℕ → ℕ → List ℕ
num_digits zero val = []
num_digits (suc n) val =
    let rest = num_digits n (val / 10) in (b'0' + val % 10) ∷ (if val / 10 == 0 then [] else rest)

-- The loop that writes `tmp` from its end.
pub put_reversed : List ℕ → List ℕ → List ℕ
put_reversed row [] = row
put_reversed row (d ∷ tmp) = vga_putch (put_reversed row tmp) d

pub vga_putnum : List ℕ → ℕ → List ℕ
vga_putnum row val = put_reversed row (num_digits 10 val)

pub vga_putstr : List ℕ → List ℕ → List ℕ
vga_putstr row [] = row
vga_putstr row (c ∷ s) =
    let rest = vga_putstr (row ++ cell c ∷ []) s in
    if not (c == 0) && ltb (length row) 80 then rest else row

-- The loop that fills the row with blanks, `n` rounds of it.
pub fill_row : ℕ → List ℕ → List ℕ
fill_row zero row = row
fill_row (suc n) row =
    let rest = fill_row n (vga_putch row b' ') in if ltb (length row) 80 then rest else row

-- The cells that `status_render_if_safe` writes.
pub status_row : Stats → List ℕ
status_row s =
    let row1 =
      vga_putnum (vga_putstr [] (b'S' ∷ b'D' ∷ b'F' ∷ b' ' ∷ b'T' ∷ b'X' ∷ b':' ∷ [])) s.tx_bytes in
    let row2 = vga_putnum (vga_putstr row1 (b' ' ∷ b'R' ∷ b'X' ∷ b':' ∷ [])) s.rx_bytes in
    let row3 = vga_putnum (vga_putstr row2 (b' ' ∷ b'T' ∷ b'O' ∷ b':' ∷ [])) s.timeouts in
    let row4 = vga_putnum (vga_putstr row3 (b' ' ∷ b'R' ∷ b'T' ∷ b':' ∷ [])) s.retries in
    let row5 = vga_putnum (vga_putstr row4 (b' ' ∷ b'C' ∷ b'E' ∷ b':' ∷ [])) s.crc_errs in
    fill_row 80 row5

-- `stat_dirty`, `stat_enabled` and the last row of the screen.
pub record Bar : Type 0 where
  pub stat_dirty : ℕ
  pub stat_enabled : ℕ
  pub row : List ℕ

-- `indos` and `video_mode` are the bytes that DOS and the BIOS keep.
pub status_render_if_safe : ℕ → ℕ → Stats → Bar → Bar
status_render_if_safe indos video_mode s b =
    if not (indos == 0)
    then b
    else if not (video_mode == 3)
    then b
    else record b { stat_dirty = 0; row = status_row s }

-- Both then chain to the handler before them.
pub int1ch_handler : Bar → Bar
int1ch_handler b = if not (b.stat_enabled == 0) then record b { stat_dirty = 1 } else b

pub int28h_handler : ℕ → ℕ → Stats → Bar → Bar
int28h_handler indos video_mode s b =
    if not (b.stat_dirty == 0) && not (b.stat_enabled == 0)
    then status_render_if_safe indos video_mode s b
    else b
