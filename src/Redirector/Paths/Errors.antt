-- ===== src/Redirector/Paths/Errors.antt =====
-- What a refused call, and a call without an answer, leave in AX and in the carry flag.
use serial_dfs.Base.{
  ℕ, ◌==◌, not, if◌then◌else◌, Bool, true, false, List, ◌≡◌, ◌≢◌, refl, sym, ◌∙◌, arith, ◌↔◌,
  overlay, ==_iff,
}
use serial_dfs.Rpc.{ok, err_timeout}
use serial_dfs.Redirector.Names.{dos_err_from_status}
use serial_dfs.Redirector.Names.Status.{table_but_protocol, dos_err-table, dos_err_zero}
use mathlib.Core.Path.{subst}
use serial_dfs.Redirector.State.{Call, Tsr, Reply, refused, fail, success}
use serial_dfs.Redirector.State.Ask.{ask_ok, ask_timeout}
use serial_dfs.Redirector.Paths.{simple_call}

module _ {S : Type 0} (call : Call S) where
  -- A handler that starts with no error and makes one call, which is answered with a status: AX is
  -- then the DOS error that the table of protocol/spec.txt has for the status, but 2 for
  -- ERR_PROTOCOL, for which the table has 11, and 2 for a status it has not; the carry is set iff the
  -- status is not STATUS_OK, and AX is 0 iff the carry is clear.
  pub simple_call-ok :
      (undef cmd : ℕ) (payload : List ℕ) (t : Tsr S) (st : ℕ) (p : List ℕ)
      → (call t.comport cmd payload t.rpc).0 ≡ ok st p
      → let t' = simple_call call undef cmd payload (success t) in
        (t'.regs.ax ≡ table_but_protocol st)
        × ((t'.regs.carry ≡ false) ↔ (st ≡ 0))
        × ((t'.regs.ax ≡ 0) ↔ (t'.regs.carry ≡ false))
  unfolding simple_call
  simple_call-ok undef cmd payload t st p e =
      subst (λ x. Reported (finish x)) (sym (ask_ok call undef 0 cmd payload (success t) e))
        (reported (st == 0) refl)
    where
      finish : Reply × Tsr S → Tsr S
      finish x = if refused x.0 then fail (dos_err_from_status x.0.rstatus) x.1 else x.1

      Reported : Tsr S → Type 0
      Reported t' =
          (t'.regs.ax ≡ table_but_protocol st)
          × ((t'.regs.carry ≡ false) ↔ (st ≡ 0))
          × ((t'.regs.ax ≡ 0) ↔ (t'.regs.carry ≡ false))

      answered : Tsr S
      answered = record (success t) {
        rep = overlay 0 p t.rep;
        rpc = (call t.comport cmd payload t.rpc).1;
      }

      reported :
          (is_ok : Bool)
          → (st == 0) ≡ is_ok
          → Reported (if not is_ok then fail (dos_err_from_status st) answered else answered)
      reported true h =
          let zero_status : st ≡ 0 = (==_iff st 0).0 h in
          (
            sym ((dos_err_zero st).1 zero_status) ∙ dos_err-table st,
            (λ e. zero_status, λ z. refl),
            (λ z. refl, λ e. refl),
          )
      reported false h =
          let nonzero : st ≢ 0 = λ z. ground (arith, h, z) in
          (
            dos_err-table st,
            (λ e. ground (arith, e), λ z. absurd (nonzero z)),
            (λ z. absurd (nonzero ((dos_err_zero st).0 z)), λ e. ground (arith, e)),
          )

  -- A handler that starts with no error and makes one call, which is not answered: the carry is set,
  -- and AX is the DOS error of `undef`, what the uninitialised local `rstatus` holds: that of the
  -- table, but 2 for ERR_PROTOCOL and for a byte that the table has not. It is 0, no error, iff that
  -- byte is 0.
  pub simple_call-timeout :
      (undef cmd : ℕ) (payload : List ℕ) (t : Tsr S)
      → (call t.comport cmd payload t.rpc).0 ≡ err_timeout
      → let t' = simple_call call undef cmd payload (success t) in
        (t'.regs.carry ≡ true)
        × (t'.regs.ax ≡ table_but_protocol undef)
        × ((t'.regs.ax ≡ 0) ↔ (undef ≡ 0))
  unfolding simple_call
  simple_call-timeout undef cmd payload t e =
      subst (λ x. Reported (finish x)) (sym (ask_timeout call undef 0 cmd payload (success t) e))
        (refl, dos_err-table undef, dos_err_zero undef)
    where
      finish : Reply × Tsr S → Tsr S
      finish x = if refused x.0 then fail (dos_err_from_status x.0.rstatus) x.1 else x.1

      Reported : Tsr S → Type 0
      Reported t' =
          (t'.regs.carry ≡ true)
          × (t'.regs.ax ≡ table_but_protocol undef)
          × ((t'.regs.ax ≡ 0) ↔ (undef ≡ 0))
