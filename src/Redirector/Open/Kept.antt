-- ===== src/Redirector/Open/Kept.antt =====
-- What the handlers that open a file keep.
use serial_dfs.Base.{
  ℕ, ◌/◌, ◌^◌, ◌==◌, ltb, not, ◌||◌, ◌&&◌, byte_at, bit_and, List, [], ◌∷◌, if◌then◌else◌, Bool,
  true, false, length, ◌≤◌, arith,
}
use serial_dfs.Command.{cmd_open, cmd_create, cmd_get_attr, cmd_close}
use serial_dfs.Redirector.State.{Call, Tsr, Reply, ask, refused, fail, set_cx, set_sft, sft_of}
use serial_dfs.Redirector.Names.{dos_err_from_status, copy_fn1_path, bad_name}
use serial_dfs.Redirector.Names.Fits.{length-path}
use serial_dfs.Redirector.State.Kept.{
  Follows, Kept, Kept-front, Kept-same, Kept-then, Kept-if, Kept-ask,
}
use serial_dfs.Redirector.Open.{
  fill_sft, finish_open, al_open, al_create, spop_create, spop_probed, al_spopnfil,
}

module _ {S : Type 0} (call : Call S) (R : S → S → Type 0) (follows : Follows call R) where
  Kept-finish_open :
      (rstatus replylen hid mode : ℕ) (t : Tsr S)
      → Kept R t (finish_open call rstatus replylen hid mode t)
  unfolding finish_open
  Kept-finish_open rstatus replylen hid mode t =
      let payload = 0 ∷ copy_fn1_path 1 t.sda.fn1 in
      let (r, t1) = ask call rstatus replylen cmd_get_attr payload t in
      let closed = (ask call 0 0 cmd_close (hid ∷ []) t1).1 in
      let filled = set_sft (fill_sft hid mode t1.reqdrv t1.sda.fcb_fn1 t1.rep (sft_of t1)) t1 in
      let k =
        Kept-ask call R follows rstatus replylen cmd_get_attr payload t
          (omega (arith, length-path 1 t.sda.fn1)) in
      Kept-if call R follows (refused r || ltb r.replylen 9) t (fail 2 closed) filled
        (Kept-front closed (
          Kept-then call R follows t t1 closed k
            (Kept-ask call R follows 0 0 cmd_close (hid ∷ []) t1 (omega arith))))
        (Kept-front t1 k)

  -- A request that opens a handle, and what follows it.
  Kept-opened :
      (undef cmd mode : ℕ) (payload : List ℕ) (t : Tsr S)
      → length payload ≤ 512
      → let (r, t1) = ask call undef 0 cmd payload t in
        Kept R t (
          if refused r || ltb r.replylen 1
          then fail (dos_err_from_status r.rstatus) t1
          else finish_open call r.rstatus r.replylen (byte_at t1.rep 0) mode t1)
  Kept-opened undef cmd mode payload t fits =
      let (r, t1) = ask call undef 0 cmd payload t in
      let k = Kept-ask call R follows undef 0 cmd payload t fits in
      let opened = finish_open call r.rstatus r.replylen (byte_at t1.rep 0) mode t1 in
      Kept-if call R follows (refused r || ltb r.replylen 1) t
        (fail (dos_err_from_status r.rstatus) t1) opened (Kept-front t1 k)
        (Kept-then call R follows t t1 opened k
          (Kept-finish_open r.rstatus r.replylen (byte_at t1.rep 0) mode t1))

  pub Kept-al_open : (undef : ℕ) (t : Tsr S) → Kept R t (al_open call undef t)
  unfolding al_open
  Kept-al_open undef t =
      let mode = bit_and (sft_of t).open_mode 0x03 in
      Kept-if call R follows (bad_name t.sda.fn1) t (fail 3 t) _
        (Kept-front t (Kept-same call R follows t))
        (Kept-opened undef cmd_open mode (mode ∷ copy_fn1_path 1 t.sda.fn1) t
          (omega (arith, length-path 1 t.sda.fn1)))

  pub Kept-al_create : (undef : ℕ) (t : Tsr S) → Kept R t (al_create call undef t)
  unfolding al_create
  Kept-al_create undef t =
      Kept-if call R follows (bad_name t.sda.fn1) t (fail 3 t) _
        (Kept-front t (Kept-same call R follows t))
        (Kept-opened undef cmd_create 1 (1 ∷ copy_fn1_path 1 t.sda.fn1) t
          (omega (arith, length-path 1 t.sda.fn1)))

  Kept-spop_create :
      (hi_act lo_act : ℕ) (exists : Bool) (mode rstatus replylen : ℕ) (t : Tsr S)
      → Kept R t (spop_create call hi_act lo_act exists mode rstatus replylen t)
  unfolding spop_create
  Kept-spop_create hi_act lo_act exists mode rstatus replylen t =
      let cmode = if hi_act == 2 then 1 else 0 in
      let payload = cmode ∷ copy_fn1_path 1 t.sda.fn1 in
      let (r, t1) = ask call rstatus replylen cmd_create payload t in
      let k =
        Kept-ask call R follows rstatus replylen cmd_create payload t
          (omega (arith, length-path 1 t.sda.fn1)) in
      let t2 = set_cx (if hi_act == 2 && exists then 3 else 2) t1 in
      let opened = finish_open call r.rstatus r.replylen (byte_at t1.rep 0) mode t2 in
      let refusal = fail (dos_err_from_status r.rstatus) t1 in
      let asked = if refused r || ltb r.replylen 1 then refusal else opened in
      Kept-if call R follows (not ((hi_act == 2 && exists) || lo_act == 1)) t (fail 2 t) asked
        (Kept-front t (Kept-same call R follows t))
        (Kept-if call R follows (refused r || ltb r.replylen 1) t refusal opened (Kept-front t1 k) (
          Kept-then call R follows t t2 opened (Kept-front t1 k)
            (Kept-finish_open r.rstatus r.replylen (byte_at t1.rep 0) mode t2)))

  Kept-spop_probed :
      (hi_act lo_act mode : ℕ) (r : Reply) (t1 : Tsr S)
      → Kept R t1 (spop_probed call hi_act lo_act mode r t1)
  unfolding spop_probed
  Kept-spop_probed hi_act lo_act mode r t1 =
      let same = Kept-same call R follows t1 in
      let closed = (ask call 0 0 cmd_close (byte_at t1.rep 0 ∷ []) t1).1 in
      let truncated = spop_create call hi_act lo_act true mode r.rstatus r.replylen closed in
      let opened = finish_open call r.rstatus r.replylen (byte_at t1.rep 0) mode (set_cx 1 t1) in
      let found = if hi_act == 2 then truncated else opened in
      let refusal = fail (dos_err_from_status r.rstatus) t1 in
      let created = spop_create call hi_act lo_act false mode r.rstatus r.replylen t1 in
      let absent = if not (r.rstatus == 0) && not (r.rstatus == 1) then refusal else created in
      Kept-if call R follows (not (refused r || ltb r.replylen 1)) t1 found absent
        (Kept-if call R follows (hi_act == 2) t1 truncated opened
          (Kept-then call R follows t1 closed truncated
            (Kept-ask call R follows 0 0 cmd_close (byte_at t1.rep 0 ∷ []) t1 (omega arith))
            (Kept-spop_create hi_act lo_act true mode r.rstatus r.replylen closed))
          (Kept-then call R follows t1 (set_cx 1 t1) opened (Kept-front t1 same)
            (Kept-finish_open r.rstatus r.replylen (byte_at t1.rep 0) mode (set_cx 1 t1))))
        (Kept-if call R follows (not (r.rstatus == 0) && not (r.rstatus == 1)) t1 refusal created
          (Kept-front t1 same) (Kept-spop_create hi_act lo_act false mode r.rstatus r.replylen t1))

  pub Kept-al_spopnfil : (undef : ℕ) (t : Tsr S) → Kept R t (al_spopnfil call undef t)
  unfolding al_spopnfil
  Kept-al_spopnfil undef t =
      let mode = bit_and (sft_of t).open_mode 0x03 in
      let lo_act = bit_and t.sda.spop_act 0x0F in
      let hi_act = bit_and (t.sda.spop_act / 2 ^ 4) 0x0F in
      let payload = mode ∷ copy_fn1_path 1 t.sda.fn1 in
      let (r, t1) = ask call undef 0 cmd_open payload t in
      let probed = spop_probed call hi_act lo_act mode r t1 in
      let unprobed = spop_create call hi_act lo_act false mode undef 0 t in
      let probes = hi_act == 1 || hi_act == 2 || (hi_act == 0 && lo_act == 1) in
      Kept-if call R follows (bad_name t.sda.fn1) t (fail 3 t) (if probes then probed else unprobed)
        (Kept-front t (Kept-same call R follows t))
        (Kept-if call R follows probes t probed unprobed
          (Kept-then call R follows t t1 probed
            (Kept-ask call R follows undef 0 cmd_open payload t
              (omega (arith, length-path 1 t.sda.fn1)))
            (Kept-spop_probed hi_act lo_act mode r t1))
          (Kept-spop_create hi_act lo_act false mode undef 0 t))
