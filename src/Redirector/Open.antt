-- ===== src/Redirector/Open.antt =====
-- dos/src/serdfs.c, `process2f`: AL_OPEN, AL_CREATE and AL_SPOPNFIL, which open a handle at the
-- server and fill the SFT at ES:DI.
pub mod Kept
pub mod Leak
use serial_dfs.Base.{
  ℕ, zero, suc, ◌+◌, ◌*◌, ◌/◌, ◌%◌, ◌^◌, ◌==◌, ltb, not, ◌&&◌, ◌||◌, if◌then◌else◌, Bool, true,
  false, List, [], ◌∷◌, byte_at, word_at, dword_at, u8, bit_and, bit_or, overlay, take,
}
use serial_dfs.Command.{cmd_open, cmd_create, cmd_close, cmd_get_attr}
use serial_dfs.Redirector.Names.{bad_name, copy_fn1_path, dos_err_from_status}
use serial_dfs.Redirector.State.{
  Call, Tsr, Reply, Regs, Sft, ask, refused, fail, set_cx, set_sft, sft_of,
}

-- The SFT of an open file: handle `hid`, the mode asked for, the drive, the name and the reply to
-- CMD_GET_ATTR in `rep`.
pub fill_sft : ℕ → ℕ → ℕ → List ℕ → List ℕ → Sft → Sft
fill_sft hid open_mode_byte drive fcb rep f = record f {
  file_attr = byte_at rep 0;
  dev_info_word = bit_or 0x8040 drive;
  dev_drvr_ptr = 0;
  start_sector = hid;
  file_size = dword_at rep 1;
  file_time = word_at rep 5 * 2 ^ 16 + word_at rep 7;
  file_pos = 0;
  open_mode = bit_or (bit_and f.open_mode 0xFF00) open_mode_byte;
  rel_sector = 0xFFFF;
  abs_sector = 0xFFFF;
  dir_sector = 0;
  dir_entry_no = 0xFF;
  file_name = overlay 0 (take 11 fcb) f.file_name;
}

module _ {S : Type 0} (call : Call S) where
  -- With the handle `hid` open: ask for the attributes and fill the SFT, or close the handle.
  pub finish_open : ℕ → ℕ → ℕ → ℕ → Tsr S → Tsr S
  finish_open rstatus replylen hid open_mode_byte t =
      let (r, t1) = ask call rstatus replylen cmd_get_attr (0 ∷ copy_fn1_path 1 t.sda.fn1) t in
      if refused r || ltb r.replylen 9
      then fail 2 (ask call 0 0 cmd_close (hid ∷ []) t1).1
      else set_sft (fill_sft hid open_mode_byte t1.reqdrv t1.sda.fcb_fn1 t1.rep (sft_of t1)) t1

  -- `case AL_OPEN`.
  pub al_open : ℕ → Tsr S → Tsr S
  al_open undef t =
      if bad_name t.sda.fn1
      then fail 3 t
      else let mode = bit_and (sft_of t).open_mode 0x03 in
        let (r, t1) = ask call undef 0 cmd_open (mode ∷ copy_fn1_path 1 t.sda.fn1) t in
        if refused r || ltb r.replylen 1
        then fail (dos_err_from_status r.rstatus) t1
        else finish_open r.rstatus r.replylen (byte_at t1.rep 0) mode t1

  -- `case AL_CREATE`.
  pub al_create : ℕ → Tsr S → Tsr S
  al_create undef t =
      if bad_name t.sda.fn1
      then fail 3 t
      else let (r, t1) = ask call undef 0 cmd_create (1 ∷ copy_fn1_path 1 t.sda.fn1) t in
        if refused r || ltb r.replylen 1
        then fail (dos_err_from_status r.rstatus) t1
        else finish_open r.rstatus r.replylen (byte_at t1.rep 0) 1 t1

  -- The CREATE branch of `case AL_SPOPNFIL` and what follows it.
  pub spop_create : ℕ → ℕ → Bool → ℕ → ℕ → ℕ → Tsr S → Tsr S
  spop_create hi_act lo_act file_exists mode rstatus replylen t =
      let cmode = if hi_act == 2 then 1 else 0 in
      let (r, t1) = ask call rstatus replylen cmd_create (cmode ∷ copy_fn1_path 1 t.sda.fn1) t in
      if not ((hi_act == 2 && file_exists) || lo_act == 1)
      then fail 2 t
      else if refused r || ltb r.replylen 1
      then fail (dos_err_from_status r.rstatus) t1
      else finish_open r.rstatus r.replylen (byte_at t1.rep 0) mode
          (set_cx (if hi_act == 2 && file_exists then 3 else 2) t1)

  -- `case AL_SPOPNFIL` once the probe with CMD_OPEN has answered.
  pub spop_probed : ℕ → ℕ → ℕ → Reply → Tsr S → Tsr S
  spop_probed hi_act lo_act mode r t1 =
      if not (refused r || ltb r.replylen 1)
      then if hi_act == 2
        then spop_create hi_act lo_act true mode r.rstatus r.replylen
            (ask call 0 0 cmd_close (byte_at t1.rep 0 ∷ []) t1).1
        else finish_open r.rstatus r.replylen (byte_at t1.rep 0) mode (set_cx 1 t1)
      else if not (r.rstatus == 0) && not (r.rstatus == 1)
      then fail (dos_err_from_status r.rstatus) t1
      else spop_create hi_act lo_act false mode r.rstatus r.replylen t1

  -- `case AL_SPOPNFIL`.
  pub al_spopnfil : ℕ → Tsr S → Tsr S
  al_spopnfil undef t =
      if bad_name t.sda.fn1
      then fail 3 t
      else let mode = bit_and (sft_of t).open_mode 0x03 in
        let lo_act = bit_and t.sda.spop_act 0x0F in
        let hi_act = bit_and (t.sda.spop_act / 2 ^ 4) 0x0F in
        let (r, t1) = ask call undef 0 cmd_open (mode ∷ copy_fn1_path 1 t.sda.fn1) t in
        if hi_act == 1 || hi_act == 2 || (hi_act == 0 && lo_act == 1)
        then spop_probed hi_act lo_act mode r t1
        else spop_create hi_act lo_act false mode undef 0 t
