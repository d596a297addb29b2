-- ===== src/Redirector/Paths.antt =====
-- dos/src/serdfs.c, `process2f`: the handlers that send a path and set registers.
-- `undef` is what the uninitialised local `rstatus` holds when a handler starts; `replylen` is only
-- read after a call that set it. A handler runs on the state that SUCCESSFLAG leaves.
pub mod Errors
pub mod Kept
use serial_dfs.Base.{
  ℕ, zero, suc, ◌+◌, ◌%◌, ◌^◌, ◌==◌, ltb, not, ◌||◌, if◌then◌else◌, List, [], ◌∷◌, ◌++◌, byte_at,
  word_at, length, u8, bit_and,
}
use serial_dfs.Command.{cmd_rmdir, cmd_mkdir, cmd_get_attr, cmd_set_attr, cmd_rename, cmd_delete}
use serial_dfs.Redirector.Names.{mystrlen, copy_fn1_path, dos_err_from_status}
use serial_dfs.Redirector.State.{Call, Tsr, Reply, Regs, ask, refused, fail}

module _ {S : Type 0} (call : Call S) where
  -- What most handlers do with their request: any failure is reported by the local `rstatus`.
  pub simple_call : ℕ → ℕ → List ℕ → Tsr S → Tsr S
  simple_call undef cmd payload t =
      let (r, t') = ask call undef 0 cmd payload t in
      if refused r then fail (dos_err_from_status r.rstatus) t' else t'

  -- `case AL_RMDIR`.
  pub al_rmdir : ℕ → Tsr S → Tsr S
  al_rmdir undef t =
      if ltb (mystrlen t.sda.fn1) 2
      then fail 3 t
      else simple_call undef cmd_rmdir (0 ∷ copy_fn1_path 1 t.sda.fn1) t

  -- `case AL_MKDIR`.
  pub al_mkdir : ℕ → Tsr S → Tsr S
  al_mkdir undef t =
      if ltb (mystrlen t.sda.fn1) 2
      then fail 3 t
      else simple_call undef cmd_mkdir (0 ∷ copy_fn1_path 1 t.sda.fn1) t

  -- `case AL_DELETE`.
  pub al_delete : ℕ → Tsr S → Tsr S
  al_delete undef t =
      if ltb (mystrlen t.sda.fn1) 2
      then fail 2 t
      else simple_call undef cmd_delete (0 ∷ copy_fn1_path 1 t.sda.fn1) t

  -- `case AL_CHDIR`: the path must name a directory.
  pub al_chdir : ℕ → Tsr S → Tsr S
  al_chdir undef t =
      if ltb (mystrlen t.sda.fn1) 2
      then fail 3 t
      else let (r, t') = ask call undef 0 cmd_get_attr (0 ∷ copy_fn1_path 1 t.sda.fn1) t in
        if refused r || ltb r.replylen 1
        then fail 3 t'
        else if bit_and (byte_at t'.rep 0) 0x10 == 0
        then fail 3 t'
        else t'

  -- `case AL_GETATTR`.
  pub al_getattr : ℕ → Tsr S → Tsr S
  al_getattr undef t =
      if ltb (mystrlen t.sda.fn1) 2
      then fail 2 t
      else let (r, t') = ask call undef 0 cmd_get_attr (0 ∷ copy_fn1_path 1 t.sda.fn1) t in
        if refused r || ltb r.replylen 9
        then fail (if r.rstatus == 0 then 2 else dos_err_from_status r.rstatus) t'
        else record t' {
          regs = record (t'.regs) {
            ax = byte_at t'.rep 0;
            di = word_at t'.rep 1;
            bx = word_at t'.rep 3;
            dx = word_at t'.rep 5;
            cx = word_at t'.rep 7;
          };
        }

  -- `case AL_SETATTR`: the new attribute is the word that the caller left on its stack.
  pub al_setattr : ℕ → Tsr S → Tsr S
  al_setattr undef t =
      if ltb (mystrlen t.sda.fn1) 2
      then fail 2 t
      else simple_call undef cmd_set_attr (0 ∷ copy_fn1_path 1 t.sda.fn1 ++ u8 t.reqstkword ∷ []) t

  -- `case AL_RENAME`: both paths, with no drive byte.
  pub al_rename : ℕ → Tsr S → Tsr S
  al_rename undef t =
      if ltb (mystrlen t.sda.fn1) 2 || ltb (mystrlen t.sda.fn2) 2
      then fail 3 t
      else let path1 = copy_fn1_path 0 t.sda.fn1 in
        simple_call undef cmd_rename (path1 ++ copy_fn1_path (length path1) t.sda.fn2) t
