-- ===== src/Redirector/Names/Status.antt =====
-- The map from status bytes to DOS errors, against the table of protocol/spec.txt.
use serial_dfs.Base.{ℕ, ◌==◌, if◌then◌else◌, List, [], ◌∷◌, ◌≡◌, ◌↔◌, arith}
use serial_dfs.Redirector.Names.{dos_err_from_status}

-- The table of protocol/spec.txt, section 4, with the DOS errors in decimal.
abbrev pub error_table : List (ℕ × ℕ)
error_table =
    (0x00, 0)
    ∷ (0x01, 2)
    ∷ (0x02, 5)
    ∷ (0x03, 6)
    ∷ (0x04, 80)
    ∷ (0x05, 29)
    ∷ (0x06, 23)
    ∷ (0x07, 21)
    ∷ (0x08, 1)
    ∷ (0x09, 3)
    ∷ (0x0A, 11)
    ∷ []

abbrev pub lookup : List (ℕ × ℕ) → ℕ → ℕ → ℕ
lookup [] st other = other
lookup ((k, v) ∷ rest) st other = if k == st then v else lookup rest st other

-- What the table says, but 2 for ERR_PROTOCOL and for a status that the table has not.
abbrev pub table_but_protocol : ℕ → ℕ
table_but_protocol st = if st == 0x0A then 2 else lookup error_table st 2

pub dos_err-table : (st : ℕ) → dos_err_from_status st ≡ table_but_protocol st
unfolding dos_err_from_status
dos_err-table st = ground arith

pub dos_err_zero : (st : ℕ) → (dos_err_from_status st ≡ 0) ↔ (st ≡ 0)
unfolding dos_err_from_status
dos_err_zero st = ground arith
