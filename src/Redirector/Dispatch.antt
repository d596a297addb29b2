-- ===== src/Redirector/Dispatch.antt =====
-- dos/src/serdfs.c: `supportedfunctions`, `process2f` and `inthandler`, the handler of INT 2Fh.
pub mod Chain
pub mod Fits
pub mod Kept
pub mod Resident
pub mod Template
use serial_dfs.Base.{
  ℕ, zero, suc, ◌+◌, ◌-◌, ◌*◌, ◌/◌, ◌%◌, ◌^◌, ◌==◌, ltb, leb, not, ◌&&◌, ◌||◌, if◌then◌else◌, Bool,
  true, false, Option, none, some, List, [], ◌∷◌, byte_at, u8, bit_and, replicate, set, overlay,
  take,
}
use serial_dfs.Redirector.State.{Call, Tsr, Regs, Sda, Sft, Sdb, success, es_di, sft_of}
use serial_dfs.Redirector.Paths.{
  al_rmdir, al_mkdir, al_chdir, al_getattr, al_setattr, al_rename, al_delete,
}
use serial_dfs.Redirector.Files.{
  al_clsfil, al_cmmtfil, al_readfil, al_writefil, al_diskspace, al_skfmend,
}
use serial_dfs.Redirector.Open.{al_open, al_create, al_spopnfil}
use serial_dfs.Redirector.Find.{al_findfirst, al_findnext}

-- `supportedfunctions[al] != AL_UNKNOWN`, for `al` up to 0x2E.
pub supported : ℕ → Bool
supported al =
    al == 0x00
    || al == 0x01
    || al == 0x03
    || al == 0x05
    || al == 0x06
    || al == 0x07
    || al == 0x08
    || al == 0x09
    || al == 0x0A
    || al == 0x0B
    || al == 0x0C
    || al == 0x0E
    || al == 0x0F
    || al == 0x11
    || al == 0x13
    || al == 0x16
    || al == 0x17
    || al == 0x1B
    || al == 0x1C
    || al == 0x21
    || al == 0x2D
    || al == 0x2E

-- DRIVETONUM, on a byte; what is below 'A' wraps round when it is stored in a byte.
pub drive_to_num : ℕ → ℕ
drive_to_num x = if leb b'a' x && leb x b'z' then u8 (x - b'a') else u8 (x + 256 - b'A')

module _ {S : Type 0} (call : Call S) where
  -- The `switch` of `process2f`, on the state that SUCCESSFLAG leaves. `fuel` is for FINDFIRST and
  -- FINDNEXT, whose loop goes on for as long as the server has batches without a match.
  pub run_subfunction : ℕ → ℕ → ℕ → Tsr S → Option (Tsr S)
  run_subfunction fuel undef al t =
      if al == 0x01
      then some (al_rmdir call undef t)
      else if al == 0x03
      then some (al_mkdir call undef t)
      else if al == 0x05
      then some (al_chdir call undef t)
      else if al == 0x06
      then some (al_clsfil call undef t)
      else if al == 0x07
      then some (al_cmmtfil call undef t)
      else if al == 0x08
      then al_readfil call undef t
      else if al == 0x09
      then al_writefil call undef t
      else if al == 0x0C
      then some (al_diskspace t)
      else if al == 0x0F
      then some (al_getattr call undef t)
      else if al == 0x0E
      then some (al_setattr call undef t)
      else if al == 0x11
      then some (al_rename call undef t)
      else if al == 0x13
      then some (al_delete call undef t)
      else if al == 0x16
      then some (al_open call undef t)
      else if al == 0x17
      then some (al_create call undef t)
      else if al == 0x2E
      then some (al_spopnfil call undef t)
      else if al == 0x1B
      then al_findfirst call fuel undef t
      else if al == 0x1C
      then al_findnext call fuel undef t
      else if al == 0x21
      then some (al_skfmend call undef t)
      else if al == 0x2D
      then some (record t { regs = record (t.regs) { ax = 2 } })
      else
          -- AL_LOCKFIL, AL_UNLOCKFIL and the rest: nothing.
          some t

  pub process2f : ℕ → ℕ → Tsr S → Option (Tsr S)
  process2f fuel undef t = run_subfunction fuel undef (u8 t.regs.ax) (success t)

-- The last component of `fn1`: what stands behind its last backslash.
pub last_component : List ℕ → List ℕ → List ℕ
last_component [] path = path
last_component (c ∷ fn) path =
    let rest = last_component fn (if c == b'\\' then fn else path) in if c == 0 then path else rest

-- The loop that spreads `*path` over `fcb_fn1[i..11)`.
pub spread_fcb : List ℕ → ℕ → List ℕ → List ℕ
spread_fcb [] i fcb = fcb
spread_fcb (c ∷ path) i fcb =
    let rest =
      spread_fcb path (if c == b'.' then 8 else if ltb i 11 then i + 1 else i)
        (if c == b'.' then fcb else if ltb i 11 then set fcb i c else fcb) in
    if c == 0 then fcb else rest

-- `fcb_fn1` as `inthandler` derives it from `fn1`.
pub normalise_fcb : List ℕ → List ℕ
normalise_fcb fn1 = spread_fcb (last_component fn1 fn1) 0 (replicate 11 b' ')

-- What `inthandler` does with a call: chain to the previous handler, or return with the state.
pub data Outcome (S : Type 0) : Type 0 where
  chained : Tsr S → Outcome S
  handled : Tsr S → Outcome S
  running : Outcome S

-- The drive that a redirector call is for: `glob_reqdrv`. `cds_path` is the first byte of the
-- current path of the CDS at ES:DI.
pub requested_drive : {S : Type 0} → ℕ → ℕ → Tsr S → ℕ
requested_drive cds_path al t =
    if (leb 0x06 al && leb al 0x0B) || al == 0x21 || al == 0x2D
    then bit_and (sft_of t).dev_info_word 0x3F
    else if al == 0x1C
    then bit_and (t.sdb t.sda.sdb).drv_lett 0x1F
    else if al == 0x0E
        || al == 0x0F
        || al == 0x13
        || al == 0x16
        || al == 0x17
        || al == 0x2E
        || al == 0x03
        || al == 0x01
        || al == 0x05
        || al == 0x11
        || al == 0x1B
    then drive_to_num (byte_at t.sda.fn1 0)
    else drive_to_num cds_path

module _ {S : Type 0} (call : Call S) where
  -- A redirector call on a drive of ours, from the check of the drive on.
  pub on_drive : ℕ → ℕ → ℕ → Tsr S → Outcome S
  on_drive fuel undef al t =
      let t' =
        if al == 0x0C
        then t
        else record t { sda = record (t.sda) { fcb_fn1 = normalise_fcb t.sda.fn1 } } in
      if ltb 25 t.reqdrv || byte_at t.ldrv t.reqdrv == 0xFF
      then chained t
      else elim (process2f call fuel undef t') [ none ↦ running | some u ↦ handled u ]

  -- `inthandler`, on the registers of the interrupted program in `regs`; `ds` is the resident data
  -- segment, `data_off` the offset of `glob_data` in it, `stack_word` the word that the caller left
  -- on its stack.
  unfoldable pub inthandler : ℕ → ℕ → ℕ → ℕ → ℕ → ℕ → Tsr S → Outcome S
  inthandler fuel undef cds_path ds data_off stack_word t0 =
      let t = record t0 { reqstkword = stack_word } in
      let ah = t.regs.ax / 2 ^ 8 in
      let al = u8 t.regs.ax in
      if ah == t.multiplexid && al == 0
      then handled
          (record t { regs = record (t.regs) { ax = ah * 2 ^ 8 + 0xFF; bx = 0x4453; cx = 0x0001 } })
      else if ah == t.multiplexid && (al == 1 && t.regs.bx == 0x4453)
      then handled
          (record t { reqstkword = ds; regs = record (t.regs) { ax = 0; bx = ds; cx = data_off } })
      else if not (ah == 0x11) || (al == 0x00 || (ltb 0x2E al || not (supported al)))
      then chained t
      else on_drive fuel undef al (record t { reqdrv = requested_drive cds_path al t })
