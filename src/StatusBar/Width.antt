-- ===== src/StatusBar/Width.antt =====
-- How many cells of the screen the status bar takes.
use serial_dfs.Base.{ℕ, zero, suc, ◌+◌, ◌≤◌, List, [], ◌∷◌, ◌++◌, length, length-append, ◌≡◌, arith}
use serial_dfs.Rpc.{Stats}
use serial_dfs.StatusBar.{
  cell, vga_putch, put_reversed, num_digits, vga_putnum, vga_putstr, fill_row, status_row,
}

length-vga_putch : (row : List ℕ) (ch : ℕ) → length row ≤ 80 → length (vga_putch row ch) ≤ 80
unfolding vga_putch
length-vga_putch row ch fits = ground (arith, length-append row (cell ch ∷ []))

length-put_reversed : (row tmp : List ℕ) → length row ≤ 80 → length (put_reversed row tmp) ≤ 80
unfolding put_reversed
length-put_reversed row [] fits = fits
length-put_reversed row (d ∷ tmp) fits =
    length-vga_putch (put_reversed row tmp) d (length-put_reversed row tmp fits)

length-vga_putnum : (row : List ℕ) (val : ℕ) → length row ≤ 80 → length (vga_putnum row val) ≤ 80
unfolding vga_putnum
length-vga_putnum row val fits = length-put_reversed row (num_digits 10 val) fits

length-vga_putstr : (row s : List ℕ) → length row ≤ 80 → length (vga_putstr row s) ≤ 80
unfolding vga_putstr
length-vga_putstr row [] fits = fits
length-vga_putstr row (c ∷ s) fits =
    ground (arith, length-append row (cell c ∷ []), length-vga_putstr (row ++ cell c ∷ []) s)

length-fill_row :
    (n : ℕ) (row : List ℕ) → length row ≤ 80 → 80 ≤ length row + n → length (fill_row n row) ≡ 80
unfolding fill_row vga_putch
length-fill_row zero row fits enough = omega arith
length-fill_row (suc n) row fits enough =
    ground (arith, length-append row (cell b' ' ∷ []), length-fill_row n (row ++ cell b' ' ∷ []))

-- Whatever the counters, the bar takes exactly the 80 cells of its row.
pub length-status_row : (s : Stats) → length (status_row s) ≡ 80
unfolding status_row
length-status_row s =
    length-fill_row 80 _
      (length-vga_putnum _ s.crc_errs (
        length-vga_putstr _ _ (
          length-vga_putnum _ s.retries (
            length-vga_putstr _ _ (
              length-vga_putnum _ s.timeouts (
                length-vga_putstr _ _ (
                  length-vga_putnum _ s.rx_bytes (
                    length-vga_putstr _ _
                      (length-vga_putnum _ s.tx_bytes (length-vga_putstr _ _ (omega arith)))))))))))
      (omega arith)
