-- ===== src/Redirector/Dispatch/Chain.antt =====
-- Calls that `inthandler` passes on to the handler before it.
use serial_dfs.Base.{
  ℕ, ◌/◌, ◌^◌, ◌==◌, ltb, not, ◌&&◌, ◌||◌, if◌then◌else◌, Bool, true, false, Option, none, some,
  byte_at, u8, ◌≡◌, refl,
}
use mathlib.Core.Path.{subst}
use serial_dfs.Redirector.State.{Call, Tsr}
use serial_dfs.Redirector.Dispatch.{
  Outcome, chained, handled, running, supported, requested_drive, on_drive, inthandler,
}

-- What a call that is passed on has left alone.
pub record Untouched {S : Type 0} (t0 t : Tsr S) : Type 0 where
  pub same_regs : t.regs ≡ t0.regs
  pub same_sda : t.sda ≡ t0.sda
  pub same_sft : t.sft ≡ t0.sft
  pub same_sdb : t.sdb ≡ t0.sdb
  pub same_dta : t.dta ≡ t0.dta
  pub same_batch : t.batch ≡ t0.batch
  pub same_rpc : t.rpc ≡ t0.rpc

module _ {S : Type 0} (call : Call S) where
  -- If the outcome is to chain, nothing was touched.
  PassedOn : Tsr S → Outcome S → Type 0
  PassedOn t0 (chained t) = Untouched t0 t
  PassedOn t0 (handled t) = t0 ≡ t0
  PassedOn t0 running = t0 ≡ t0

  either :
      (t0 : Tsr S) (b : Bool) (o o' : Outcome S)
      → PassedOn t0 o
      → PassedOn t0 o'
      → PassedOn t0 (if b then o else o')
  either t0 true o o' h h' = h
  either t0 false o o' h h' = h'

  ended :
      (t0 : Tsr S) (r : Option (Tsr S))
      → PassedOn t0 (elim r [ none ↦ running | some u ↦ handled u ])
  unfolding PassedOn
  ended t0 none = refl
  ended t0 (some u) = refl

  on_drive-PassedOn :
      (fuel undef al : ℕ) (t0 t : Tsr S)
      → Untouched t0 t
      → PassedOn t0 (on_drive call fuel undef al t)
  unfolding on_drive PassedOn
  on_drive-PassedOn fuel undef al t0 t h =
      either t0 (ltb 25 t.reqdrv || byte_at t.ldrv t.reqdrv == 0xFF) _ _ h (ended t0 _)

  unmoved : (t0 : Tsr S) (w d : ℕ) → Untouched t0 (record t0 { reqstkword = w; reqdrv = d })
  unmoved t0 w d = record {
    same_regs = refl;
    same_sda = refl;
    same_sft = refl;
    same_sdb = refl;
    same_dta = refl;
    same_batch = refl;
    same_rpc = refl;
  }

  inthandler-PassedOn :
      (fuel undef cds_path ds data_off stack_word : ℕ) (t0 : Tsr S)
      → PassedOn t0 (inthandler call fuel undef cds_path ds data_off stack_word t0)
  unfolding inthandler PassedOn
  inthandler-PassedOn fuel undef cds_path ds data_off stack_word t0 =
      let t : Tsr S = record t0 { reqstkword = stack_word } in
      let u : Tsr S = record t { reqdrv = requested_drive cds_path (u8 t.regs.ax) t } in
      let ah = t.regs.ax / 2 ^ 8 in
      let al = u8 t.regs.ax in
      let same : Untouched t0 t = unmoved t0 stack_word t0.reqdrv in
      let same' : Untouched t0 u = unmoved t0 stack_word (requested_drive cds_path al t) in
      either t0 (ah == t.multiplexid && al == 0) (handled _) _ refl (
        either t0 (ah == t.multiplexid && (al == 1 && t.regs.bx == 0x4453)) (handled _) _ refl (
          either t0 (not (ah == 0x11) || (al == 0x00 || (ltb 0x2E al || not (supported al))))
            (chained t) (on_drive call fuel undef al u) same
            (on_drive-PassedOn fuel undef al t0 u same')))

  -- A call that `inthandler` passes on to the handler before it has its registers as they came, and
  -- neither the SDA nor an SFT, no search record, no byte at the DTA, no cache and no remote call has been touched.
  pub inthandler-chained :
      (fuel undef cds_path ds data_off stack_word : ℕ) (t0 t : Tsr S)
      → inthandler call fuel undef cds_path ds data_off stack_word t0 ≡ chained t
      → Untouched t0 t
  unfolding PassedOn
  inthandler-chained fuel undef cds_path ds data_off stack_word t0 t e =
      subst (PassedOn t0) e (inthandler-PassedOn fuel undef cds_path ds data_off stack_word t0)
