-- ===== src/Redirector/Dispatch/Kept.antt =====
-- What every call of the redirector keeps.
use serial_dfs.Base.{ℕ, ◌==◌, u8}
use serial_dfs.Redirector.State.{Call, Tsr, success}
use serial_dfs.Redirector.State.Kept.{
  Follows, Kept-front, Kept-same, KeptSome, KeptSome-if, KeptSome-then,
}
use serial_dfs.Redirector.Paths.Kept.{
  Kept-al_rmdir, Kept-al_mkdir, Kept-al_chdir, Kept-al_getattr, Kept-al_setattr, Kept-al_rename,
  Kept-al_delete,
}
use serial_dfs.Redirector.Files.Kept.{
  Kept-al_clsfil, Kept-al_cmmtfil, Kept-al_readfil, Kept-al_writefil, Kept-al_diskspace,
  Kept-al_skfmend,
}
use serial_dfs.Redirector.Open.Kept.{Kept-al_open, Kept-al_create, Kept-al_spopnfil}
use serial_dfs.Redirector.Find.Kept.{Kept-al_findfirst, Kept-al_findnext}
use serial_dfs.Redirector.Dispatch.{run_subfunction, process2f}

module _ {S : Type 0} (call : Call S) (R : S → S → Type 0) (follows : Follows call R) where
  Kept-run_subfunction :
      (fuel undef al : ℕ) (t : Tsr S) → KeptSome R t (run_subfunction call fuel undef al t)
  unfolding run_subfunction
  Kept-run_subfunction fuel undef al t =
      let same = Kept-same call R follows t in
      KeptSome-if call R follows (al == 0x01) t _ _ (Kept-al_rmdir call R follows undef t) (
        KeptSome-if call R follows (al == 0x03) t _ _ (Kept-al_mkdir call R follows undef t) (
          KeptSome-if call R follows (al == 0x05) t _ _ (Kept-al_chdir call R follows undef t) (
            KeptSome-if call R follows (al == 0x06) t _ _ (Kept-al_clsfil call R follows undef t) (
              KeptSome-if call R follows (al == 0x07) t _ _ (Kept-al_cmmtfil call R follows undef t)
                (KeptSome-if call R follows (al == 0x08) t _ _
                  (Kept-al_readfil call R follows undef t)
                  (KeptSome-if call R follows (al == 0x09) t _ _
                    (Kept-al_writefil call R follows undef t)
                    (KeptSome-if call R follows (al == 0x0C) t _ _
                      (Kept-al_diskspace call R follows t)
                      (KeptSome-if call R follows (al == 0x0F) t _ _
                        (Kept-al_getattr call R follows undef t)
                        (KeptSome-if call R follows (al == 0x0E) t _ _
                          (Kept-al_setattr call R follows undef t)
                          (KeptSome-if call R follows (al == 0x11) t _ _
                            (Kept-al_rename call R follows undef t)
                            (KeptSome-if call R follows (al == 0x13) t _ _
                              (Kept-al_delete call R follows undef t)
                              (KeptSome-if call R follows (al == 0x16) t _ _
                                (Kept-al_open call R follows undef t)
                                (KeptSome-if call R follows (al == 0x17) t _ _
                                  (Kept-al_create call R follows undef t)
                                  (KeptSome-if call R follows (al == 0x2E) t _ _
                                    (Kept-al_spopnfil call R follows undef t)
                                    (KeptSome-if call R follows (al == 0x1B) t _ _
                                      (Kept-al_findfirst call R follows fuel undef t)
                                      (KeptSome-if call R follows (al == 0x1C) t _ _
                                        (Kept-al_findnext call R follows fuel undef t)
                                        (KeptSome-if call R follows (al == 0x21) t _ _
                                          (Kept-al_skfmend call R follows undef t)
                                          (KeptSome-if call R follows (al == 0x2D) t _ _
                                            (Kept-front t same) same))))))))))))))))))

  pub Kept-process2f : (fuel undef : ℕ) (t : Tsr S) → KeptSome R t (process2f call fuel undef t)
  unfolding process2f
  Kept-process2f fuel undef t =
      KeptSome-then call R follows t (success t)
        (run_subfunction call fuel undef (u8 t.regs.ax) (success t))
        (Kept-front t (Kept-same call R follows t))
        (Kept-run_subfunction fuel undef (u8 t.regs.ax) (success t))
