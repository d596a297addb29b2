-- ===== src/Tests/State.antt =====
-- A state of the resident program, for a given state of the remote calls.
use serial_dfs.Base.{ℕ, List, [], ◌∷◌, replicate, false}
use serial_dfs.Redirector.State.{Tsr, Sdb, Sft, FoundFile}

abbrev pub no_file : FoundFile
no_file = record {
  fname = replicate 11 32;
  fattr = 0;
  time_lstupd = 0;
  date_lstupd = 0;
  start_clstr = 0;
  fsize = 0;
}

-- The SFT of a file of 9 bytes, open as handle 7 in the mode `mode` at position 2.
abbrev pub open_file : ℕ → Sft
open_file mode = record {
  handle_count = 1;
  open_mode = mode;
  file_attr = 0x20;
  dev_info_word = 0x8043;
  dev_drvr_ptr = 0;
  start_sector = 7;
  file_time = 0;
  file_size = 9;
  file_pos = 2;
  rel_sector = 0xFFFF;
  abs_sector = 0xFFFF;
  dir_sector = 0;
  dir_entry_no = 0xFF;
  file_name = replicate 11 32;
}

-- A search record with the template "A", position 0.
abbrev pub search_record : Sdb
search_record = record {
  drv_lett = 0x83;
  srch_tmpl = 65 ∷ replicate 10 32;
  srch_attr = 0;
  dir_entry = 0;
  par_clstr = 0;
  found = no_file;
}

-- CX is 4, the paths are "D:\A", and `entries` is the batch of one entry in the cache.
abbrev pub state : {S : Type 0} → ℕ → List ℕ → S → Tsr S
state mode entries s = record {
  regs = record { ax = 0; bx = 0; cx = 4; dx = 0; es = 0; di = 64; carry = false };
  sda = record {
    curr_dta = 64;
    fn1 = 68 ∷ 58 ∷ 92 ∷ 65 ∷ 0 ∷ [];
    fn2 = 68 ∷ 58 ∷ 92 ∷ 65 ∷ 0 ∷ [];
    sdb = 64;
    found_file = no_file;
    fcb_fn1 = 65 ∷ replicate 10 32;
    srch_attr = 0;
    spop_act = 0x12;
  };
  sft = λ p. open_file mode;
  sdb = λ p. search_record;
  dta = 11 ∷ 12 ∷ 13 ∷ 14 ∷ 15 ∷ [];
  batch = record { entries = entries; count = 1; idx = 0; more = 0; hid = 3 };
  rep = replicate 512 0;
  reqdrv = 3;
  reqstkword = 0;
  comport = 1;
  ldrv = replicate 26 3;
  multiplexid = 0xC0;
  rpc = s;
}
