-- ===== src/Redirector/Paths/Kept.antt =====
-- What the handlers that send a path keep.
use serial_dfs.Base.{
  ℕ, ◌==◌, ltb, ◌||◌, u8, byte_at, word_at, bit_and, ◌≤◌, List, [], ◌∷◌, ◌++◌, length,
  if◌then◌else◌, length-append, arith,
}
use serial_dfs.Command.{cmd_rmdir, cmd_mkdir, cmd_delete, cmd_get_attr, cmd_set_attr, cmd_rename}
use serial_dfs.Redirector.State.{Call, Tsr, ask, refused, fail}
use serial_dfs.Redirector.Names.{mystrlen, dos_err_from_status, copy_fn1_path}
use serial_dfs.Redirector.State.Kept.{
  Follows, Kept, Kept-front, Kept-same, Kept-then, Kept-if, Kept-ask,
}
use serial_dfs.Redirector.Paths.{
  simple_call, al_rmdir, al_mkdir, al_chdir, al_getattr, al_setattr, al_rename, al_delete,
}
use serial_dfs.Redirector.Names.Fits.{length-path}

module _ {S : Type 0} (call : Call S) (R : S → S → Type 0) (follows : Follows call R) where
  pub Kept-simple_call :
      (undef cmd : ℕ) (payload : List ℕ) (t : Tsr S)
      → length payload ≤ 512
      → Kept R t (simple_call call undef cmd payload t)
  unfolding simple_call
  Kept-simple_call undef cmd payload t fits =
      let (r, t') = ask call undef 0 cmd payload t in
      let k = Kept-ask call R follows undef 0 cmd payload t fits in
      Kept-if call R follows (refused r) t (fail (dos_err_from_status r.rstatus) t') t'
        (Kept-front t' k) k

  pub Kept-al_rmdir : (undef : ℕ) (t : Tsr S) → Kept R t (al_rmdir call undef t)
  unfolding al_rmdir
  Kept-al_rmdir undef t =
      let payload = 0 ∷ copy_fn1_path 1 t.sda.fn1 in
      Kept-if call R follows (ltb (mystrlen t.sda.fn1) 2) t (fail 3 t)
        (simple_call call undef cmd_rmdir payload t) (Kept-front t (Kept-same call R follows t))
        (Kept-simple_call undef cmd_rmdir payload t (omega (arith, length-path 1 t.sda.fn1)))

  pub Kept-al_mkdir : (undef : ℕ) (t : Tsr S) → Kept R t (al_mkdir call undef t)
  unfolding al_mkdir
  Kept-al_mkdir undef t =
      let payload = 0 ∷ copy_fn1_path 1 t.sda.fn1 in
      Kept-if call R follows (ltb (mystrlen t.sda.fn1) 2) t (fail 3 t)
        (simple_call call undef cmd_mkdir payload t) (Kept-front t (Kept-same call R follows t))
        (Kept-simple_call undef cmd_mkdir payload t (omega (arith, length-path 1 t.sda.fn1)))

  pub Kept-al_delete : (undef : ℕ) (t : Tsr S) → Kept R t (al_delete call undef t)
  unfolding al_delete
  Kept-al_delete undef t =
      let payload = 0 ∷ copy_fn1_path 1 t.sda.fn1 in
      Kept-if call R follows (ltb (mystrlen t.sda.fn1) 2) t (fail 2 t)
        (simple_call call undef cmd_delete payload t) (Kept-front t (Kept-same call R follows t))
        (Kept-simple_call undef cmd_delete payload t (omega (arith, length-path 1 t.sda.fn1)))

  pub Kept-al_setattr : (undef : ℕ) (t : Tsr S) → Kept R t (al_setattr call undef t)
  unfolding al_setattr
  Kept-al_setattr undef t =
      let payload = 0 ∷ copy_fn1_path 1 t.sda.fn1 ++ u8 t.reqstkword ∷ [] in
      Kept-if call R follows (ltb (mystrlen t.sda.fn1) 2) t (fail 2 t)
        (simple_call call undef cmd_set_attr payload t) (Kept-front t (Kept-same call R follows t))
        (Kept-simple_call undef cmd_set_attr payload t (
          omega (
            arith,
            length-path 1 t.sda.fn1,
            length-append (0 ∷ copy_fn1_path 1 t.sda.fn1) (u8 t.reqstkword ∷ []),
          )))

  pub Kept-al_rename : (undef : ℕ) (t : Tsr S) → Kept R t (al_rename call undef t)
  unfolding al_rename
  Kept-al_rename undef t =
      let payload =
        copy_fn1_path 0 t.sda.fn1 ++ copy_fn1_path (length (copy_fn1_path 0 t.sda.fn1)) t.sda.fn2 in
      Kept-if call R follows (ltb (mystrlen t.sda.fn1) 2 || ltb (mystrlen t.sda.fn2) 2) t (fail 3 t)
        (simple_call call undef cmd_rename payload t) (Kept-front t (Kept-same call R follows t))
        (Kept-simple_call undef cmd_rename payload t (
          omega (
            arith,
            length-path 0 t.sda.fn1,
            length-path (length (copy_fn1_path 0 t.sda.fn1)) t.sda.fn2,
            length-append (copy_fn1_path 0 t.sda.fn1)
                (copy_fn1_path (length (copy_fn1_path 0 t.sda.fn1)) t.sda.fn2),
          )))

  -- The two handlers that ask for the attributes: `f` is what they do with the answer.
  Kept-attributes :
      (undef : ℕ) (t x : Tsr S)
      → Kept R (ask call undef 0 cmd_get_attr (0 ∷ copy_fn1_path 1 t.sda.fn1) t).1 x
      → Kept R t x
  Kept-attributes undef t x =
      let payload = 0 ∷ copy_fn1_path 1 t.sda.fn1 in
      Kept-then call R follows t (ask call undef 0 cmd_get_attr payload t).1 x (
        Kept-ask call R follows undef 0 cmd_get_attr payload t
          (omega (arith, length-path 1 t.sda.fn1)))

  pub Kept-al_chdir : (undef : ℕ) (t : Tsr S) → Kept R t (al_chdir call undef t)
  unfolding al_chdir
  Kept-al_chdir undef t =
      let (r, t') = ask call undef 0 cmd_get_attr (0 ∷ copy_fn1_path 1 t.sda.fn1) t in
      let k = Kept-same call R follows t' in
      let file = if bit_and (byte_at t'.rep 0) 0x10 == 0 then fail 3 t' else t' in
      let answered = if refused r || ltb r.replylen 1 then fail 3 t' else file in
      Kept-if call R follows (ltb (mystrlen t.sda.fn1) 2) t (fail 3 t) answered
        (Kept-front t (Kept-same call R follows t))
        (Kept-attributes undef t answered (
          Kept-if call R follows (refused r || ltb r.replylen 1) t' (fail 3 t') file
            (Kept-front t' k)
            (Kept-if call R follows (bit_and (byte_at t'.rep 0) 0x10 == 0) t' (fail 3 t') t'
              (Kept-front t' k) k)))

  pub Kept-al_getattr : (undef : ℕ) (t : Tsr S) → Kept R t (al_getattr call undef t)
  unfolding al_getattr
  Kept-al_getattr undef t =
      let (r, t') = ask call undef 0 cmd_get_attr (0 ∷ copy_fn1_path 1 t.sda.fn1) t in
      let k = Kept-same call R follows t' in
      let failed = fail (if r.rstatus == 0 then 2 else dos_err_from_status r.rstatus) t' in
      let filled : Tsr S = record t' {
        regs = record (t'.regs) {
          ax = byte_at t'.rep 0;
          di = word_at t'.rep 1;
          bx = word_at t'.rep 3;
          dx = word_at t'.rep 5;
          cx = word_at t'.rep 7;
        };
      } in
      let answered = if refused r || ltb r.replylen 9 then failed else filled in
      Kept-if call R follows (ltb (mystrlen t.sda.fn1) 2) t (fail 2 t) answered
        (Kept-front t (Kept-same call R follows t))
        (Kept-attributes undef t answered (
          Kept-if call R follows (refused r || ltb r.replylen 9) t' failed filled (Kept-front t' k)
            (Kept-front t' k)))
