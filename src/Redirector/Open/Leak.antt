-- ===== src/Redirector/Open/Leak.antt =====
-- AL_OPEN, AL_CREATE and AL_SPOPNFIL against a server that keeps a set of open handles.
use serial_dfs.Base.{
  ℕ, ◌/◌, ◌^◌, ◌≤◌, ◌==◌, ltb, not, ◌&&◌, ◌||◌, if◌then◌else◌, Bool, true, false, List, [], ◌∷◌,
  byte_at, length, overlay, bit_and, ◌≡◌, ◌≢◌, refl, ap, sym, ◌∙◌, arith, ◌⊎◌, inl, inr,
}
use mathlib.Core.Path.{subst}
use serial_dfs.Command.{cmd_open, cmd_create, cmd_close, cmd_get_attr}
use serial_dfs.Rpc.{RpcResult, ok}
use serial_dfs.Redirector.Names.{bad_name, copy_fn1_path, dos_err_from_status}
use serial_dfs.Redirector.State.{
  Call, Tsr, Reply, Sft, ask, refused, fail, set_cx, set_sft, sft_of, es_di,
}
use serial_dfs.Redirector.State.Ask.{ask_ok, ask_keeps, ask-refused, length-ask_rep}
use serial_dfs.Redirector.State.Update.{update_at}
use serial_dfs.Redirector.Open.{
  finish_open, fill_sft, al_open, al_create, spop_create, spop_probed, al_spopnfil,
}

-- An answer that is not STATUS_OK.
pub IsRefused : RpcResult → Type 0
IsRefused r = (st : ℕ) (p : List ℕ) → r ≡ ok st p → st ≢ 0

-- What an open or create comes to: a new handle, or a refusal and no new handle.
pub data Opened {S : Type 0} (Open : List ℕ → S → Type 0) (hs : List ℕ)
    : RpcResult × S → Type 0 where
  granted :
      (hid : ℕ) (rest : List ℕ) (s : S) → Open (hid ∷ hs) s → Opened Open hs (ok 0 (hid ∷ rest), s)
  denied : (r : RpcResult) (s : S) → IsRefused r → Open hs s → Opened Open hs (r, s)

-- The two cases of an answer.
opened_cases :
    {S : Type 0} {Open : List ℕ → S → Type 0} {hs : List ℕ} (x : RpcResult × S)
    → Opened Open hs x
    → ((hid : ℕ) × (rest : List ℕ) × (x.0 ≡ ok 0 (hid ∷ rest)) × Open (hid ∷ hs) x.1)
      ⊎ (IsRefused x.0 × Open hs x.1)
opened_cases x (granted hid rest s now) = inl (hid, rest, refl, now)
opened_cases x (denied r s refusal now) = inr (refusal, now)

front_byte :
    (hid : ℕ) (rest rep : List ℕ) → 1 ≤ length rep → byte_at (overlay 0 (hid ∷ rest) rep) 0 ≡ hid
front_byte hid rest [] h = absurd (omega arith)
front_byte hid rest (y ∷ rep) h = refl

-- The server: in a state of `Open hs` the handles `hs` are open.
pub record KeepsHandles {S : Type 0} (call : Call S) (port : ℕ) (Open : List ℕ → S → Type 0)
    : Type 0 where
  pub opens :
      (hs payload : List ℕ) (s : S) → Open hs s → Opened Open hs (call port cmd_open payload s)
  pub creates :
      (hs payload : List ℕ) (s : S) → Open hs s → Opened Open hs (call port cmd_create payload s)
  pub closes :
      (hs : List ℕ) (hid : ℕ) (s : S)
      → Open (hid ∷ hs) s
      → Open hs (call port cmd_close (hid ∷ []) s).1
  pub asks :
      (hs payload : List ℕ) (s : S) → Open hs s → Open hs (call port cmd_get_attr payload s).1

module _ {S : Type 0} (call : Call S) (port : ℕ) (Open : List ℕ → S → Type 0)
    (server : KeepsHandles call port Open) (hs : List ℕ) where
  -- A handler that was to open a file has failed and left no handle, or it has a handle in the SFT.
  pub Settled : Tsr S → Type 0
  Settled t =
      ((t.regs.carry ≡ true) × Open hs t.rpc)
      ⊎ ((t.regs.carry ≡ false)
          × Open ((sft_of t).start_sector ∷ hs) t.rpc
          × ((sft_of t).file_pos ≡ 0))

  -- A handler's state between its calls, with the handles `now`.
  record Between (now : List ℕ) (t : Tsr S) : Type 0 where
    on_port : t.comport ≡ port
    no_error : t.regs.carry ≡ false
    has_room : 1 ≤ length t.rep
    handles : Open now t.rpc

  asked :
      (rs rl cmd : ℕ) (payload : List ℕ) (now later : List ℕ) (t : Tsr S)
      → Between now t
      → Open later (call port cmd payload t.rpc).1
      → Between later (ask call rs rl cmd payload t).1
  asked rs rl cmd payload now later t b served =
      subst (Between later) (sym (ask_keeps call rs rl cmd payload t)) (record {
        on_port = b.on_port;
        no_error = b.no_error;
        has_room = omega (arith, length-ask_rep call rs rl cmd payload t, b.has_room);
        handles = subst (λ p. Open later (call p cmd payload t.rpc).1) (sym b.on_port) served;
      })

  -- A handler that gives up.
  failed : (code : ℕ) (t : Tsr S) → Between hs t → Settled (fail code t)
  unfolding Settled
  failed code t b = inl (refl, b.handles)

  finish_open-Settled :
      (rs rl hid mode : ℕ) (t : Tsr S)
      → Between (hid ∷ hs) t
      → Settled (finish_open call rs rl hid mode t)
  unfolding finish_open Settled fill_sft
  finish_open-Settled rs rl hid mode t b = either (refused r || ltb r.replylen 9)
    where
      r : Reply
      r = (ask call rs rl cmd_get_attr (0 ∷ copy_fn1_path 1 t.sda.fn1) t).0

      t1 : Tsr S
      t1 = (ask call rs rl cmd_get_attr (0 ∷ copy_fn1_path 1 t.sda.fn1) t).1

      b1 : Between (hid ∷ hs) t1
      b1 =
          asked rs rl cmd_get_attr (0 ∷ copy_fn1_path 1 t.sda.fn1) (hid ∷ hs) (hid ∷ hs) t b
            (server.asks (hid ∷ hs) (0 ∷ copy_fn1_path 1 t.sda.fn1) t.rpc b.handles)

      closed : Between hs (ask call 0 0 cmd_close (hid ∷ []) t1).1
      closed =
          asked 0 0 cmd_close (hid ∷ []) (hid ∷ hs) hs t1 b1
            (server.closes hs hid t1.rpc b1.handles)

      filled : Sft
      filled = fill_sft hid mode t1.reqdrv t1.sda.fcb_fn1 t1.rep (sft_of t1)

      either :
          (f : Bool)
          → Settled
              (if f then fail 2 (ask call 0 0 cmd_close (hid ∷ []) t1).1 else set_sft filled t1)
      either true = inl (refl, closed.handles)
      either false = inr (
        b1.no_error,
        subst (λ f. Open (f.start_sector ∷ hs) t1.rpc) (sym in_place) b1.handles,
        ap (λ f. f.file_pos) in_place,
      )
        where
          in_place : sft_of (set_sft filled t1) ≡ filled
          in_place = update_at t1.sft (es_di t1.regs) filled

  -- The answer to an open or a create, and what the handler makes of it: `pick r t1 true` when it
  -- takes it for a failure.
  opening :
      (rs rl cmd : ℕ) (request : List ℕ) (t : Tsr S) (pick : Reply → Tsr S → Bool → Tsr S)
      → Between hs t
      → Opened Open hs (call port cmd request t.rpc)
      → ((r : Reply) (t1 : Tsr S) → Between hs t1 → Settled (pick r t1 true))
      → ((r : Reply) (hid : ℕ) (t1 : Tsr S)
          → Between (hid ∷ hs) t1
          → byte_at t1.rep 0 ≡ hid
          → Settled (pick r t1 false))
      → Settled
          (let (r, t1) = ask call rs rl cmd request t in pick r t1 (refused r || ltb r.replylen 1))
  unfolding IsRefused
  opening rs rl cmd request t pick b answered gives_up go =
      elim (opened_cases (call port cmd request t.rpc) answered) [
        | inl (hid, rest, granted_it, now) ↦
            let here =
              ask_ok call rs rl cmd request t
                (ap (λ p. (call p cmd request t.rpc).0) b.on_port ∙ granted_it) in
            subst (λ f. Settled (pick x.0 x.1 f))
              (sym (ap (λ x. refused x.0 || ltb x.0.replylen 1) here ∙ not_short hid rest))
              (go x.0 hid x.1 (asked rs rl cmd request hs (hid ∷ hs) t b now)
                (ap (λ x. byte_at x.1.rep 0) here ∙ front_byte hid rest t.rep b.has_room))
        | inr (refusal, now) ↦
            subst (λ f. Settled (pick x.0 x.1 (f || ltb x.0.replylen 1)))
              (sym (
                ask-refused call rs rl cmd request t
                  (subst (λ p. IsRefused (call p cmd request t.rpc).0) (sym b.on_port) refusal)))
              (gives_up x.0 x.1 (asked rs rl cmd request hs hs t b now))
      ]
    where
      x : Reply × Tsr S
      x = ask call rs rl cmd request t

      not_short : (hid : ℕ) (rest : List ℕ) → ltb (length (hid ∷ rest)) 1 ≡ false
      not_short hid rest = ground arith

  -- The rest of AL_OPEN and AL_CREATE.
  granted-Settled :
      (mode : ℕ) (r : Reply) (hid : ℕ) (t1 : Tsr S)
      → Between (hid ∷ hs) t1
      → byte_at t1.rep 0 ≡ hid
      → Settled (finish_open call r.rstatus r.replylen (byte_at t1.rep 0) mode t1)
  granted-Settled mode r hid t1 b e =
      subst (λ h. Settled (finish_open call r.rstatus r.replylen h mode t1)) (sym e)
        (finish_open-Settled r.rstatus r.replylen hid mode t1 b)

  -- Most give up with the error of the status.
  abbrev or_fail : (Reply → Tsr S → Tsr S) → Reply → Tsr S → Bool → Tsr S
  or_fail k r t1 gives_up = if gives_up then fail (dos_err_from_status r.rstatus) t1 else k r t1

  recounted : {n : ℕ} {now : List ℕ} (t1 : Tsr S) → Between now t1 → Between now (set_cx n t1)
  recounted t1 b1 = record {
    on_port = b1.on_port;
    no_error = b1.no_error;
    has_room = b1.has_room;
    handles = b1.handles;
  }

  named_or_not :
      (bad : Bool) (code : ℕ) (t u : Tsr S)
      → Between hs t
      → Settled u
      → Settled (if bad then fail code t else u)
  named_or_not true code t u b h = failed code t b
  named_or_not false code t u b h = h

  -- Let the server keep the handles `hs` open. Then AL_OPEN, started with the carry clear, leaves
  -- either the carry set and the handles as they were, or the carry clear, one more handle, which the
  -- SFT at ES:DI holds, and the position 0.
  pub al_open-Settled :
      (undef : ℕ) (t : Tsr S)
      → t.comport ≡ port
      → t.regs.carry ≡ false
      → 1 ≤ length t.rep
      → Open hs t.rpc
      → Settled (al_open call undef t)
  unfolding al_open
  al_open-Settled undef t on_port clear room now =
      let b : Between hs t = record {
        on_port = on_port;
        no_error = clear;
        has_room = room;
        handles = now;
      } in
      let mode = bit_and (sft_of t).open_mode 0x03 in
      let request = mode ∷ copy_fn1_path 1 t.sda.fn1 in
      named_or_not (bad_name t.sda.fn1) 3 t _ b (
        opening undef 0 cmd_open request t
          (or_fail (λ r t1. finish_open call r.rstatus r.replylen (byte_at t1.rep 0) mode t1)) b
          (server.opens hs request t.rpc now)
          (λ r t1 b1. failed (dos_err_from_status r.rstatus) t1 b1) (granted-Settled mode))

  -- Let the server keep the handles `hs` open. Then AL_CREATE, started with the carry clear, leaves
  -- either the carry set and the handles as they were, or the carry clear, one more handle, which the
  -- SFT at ES:DI holds, and the position 0.
  pub al_create-Settled :
      (undef : ℕ) (t : Tsr S)
      → t.comport ≡ port
      → t.regs.carry ≡ false
      → 1 ≤ length t.rep
      → Open hs t.rpc
      → Settled (al_create call undef t)
  unfolding al_create
  al_create-Settled undef t on_port clear room now =
      let b : Between hs t = record {
        on_port = on_port;
        no_error = clear;
        has_room = room;
        handles = now;
      } in
      let request = 1 ∷ copy_fn1_path 1 t.sda.fn1 in
      named_or_not (bad_name t.sda.fn1) 3 t _ b (
        opening undef 0 cmd_create request t
          (or_fail (λ r t1. finish_open call r.rstatus r.replylen (byte_at t1.rep 0) 1 t1)) b
          (server.creates hs request t.rpc now)
          (λ r t1 b1. failed (dos_err_from_status r.rstatus) t1 b1) (granted-Settled 1))

  -- The CREATE branch of AL_SPOPNFIL.
  spop_create-Settled :
      (hi_act lo_act : ℕ) (file_exists : Bool) (mode rs rl : ℕ) (t : Tsr S)
      → Between hs t
      → Settled (spop_create call hi_act lo_act file_exists mode rs rl t)
  unfolding spop_create
  spop_create-Settled hi_act lo_act file_exists mode rs rl t b =
      let request = (if hi_act == 2 then 1 else 0) ∷ copy_fn1_path 1 t.sda.fn1 in
      named_or_not (not ((hi_act == 2 && file_exists) || lo_act == 1)) 2 t _ b (
        opening rs rl cmd_create request t
          (or_fail (λ r t1.
            finish_open call r.rstatus r.replylen (byte_at t1.rep 0) mode
              (set_cx (if hi_act == 2 && file_exists then 3 else 2) t1)))
          b (server.creates hs request t.rpc b.handles)
          (λ r t1 b1. failed (dos_err_from_status r.rstatus) t1 b1)
          (λ r hid t1 b1 e.
            granted-Settled mode r hid (set_cx (if hi_act == 2 && file_exists then 3 else 2) t1)
              (recounted t1 b1) e))

  -- The handler once its probe has been answered.
  probed : ℕ → ℕ → ℕ → Reply → Tsr S → Bool → Tsr S
  probed hi_act lo_act mode r t1 gave_up =
      if not gave_up
      then if hi_act == 2
        then spop_create call hi_act lo_act true mode r.rstatus r.replylen
            (ask call 0 0 cmd_close (byte_at t1.rep 0 ∷ []) t1).1
        else finish_open call r.rstatus r.replylen (byte_at t1.rep 0) mode (set_cx 1 t1)
      else if not (r.rstatus == 0) && not (r.rstatus == 1)
      then fail (dos_err_from_status r.rstatus) t1
      else spop_create call hi_act lo_act false mode r.rstatus r.replylen t1

  probe_failed :
      (hi_act lo_act mode : ℕ) (r : Reply) (t1 : Tsr S)
      → Between hs t1
      → Settled (probed hi_act lo_act mode r t1 true)
  unfolding probed
  probe_failed hi_act lo_act mode r t1 b =
      named_or_not (not (r.rstatus == 0) && not (r.rstatus == 1)) (dos_err_from_status r.rstatus) t1
        _ b (spop_create-Settled hi_act lo_act false mode r.rstatus r.replylen t1 b)

  probe_opened :
      (hi_act lo_act mode : ℕ) (r : Reply) (hid : ℕ) (t1 : Tsr S)
      → Between (hid ∷ hs) t1
      → byte_at t1.rep 0 ≡ hid
      → Settled (probed hi_act lo_act mode r t1 false)
  unfolding probed
  probe_opened hi_act lo_act mode r hid t1 b e = either (hi_act == 2)
    where
      closed : ℕ → Tsr S
      closed h = (ask call 0 0 cmd_close (h ∷ []) t1).1

      either :
          (replace : Bool)
          → Settled (
              if replace
              then spop_create call hi_act lo_act true mode r.rstatus r.replylen
                  (closed (byte_at t1.rep 0))
              else finish_open call r.rstatus r.replylen (byte_at t1.rep 0) mode (set_cx 1 t1))
      either true =
          spop_create-Settled hi_act lo_act true mode r.rstatus r.replylen
            (closed (byte_at t1.rep 0))
            (subst (λ h. Between hs (closed h)) (sym e)
              (asked 0 0 cmd_close (hid ∷ []) (hid ∷ hs) hs t1 b
                (server.closes hs hid t1.rpc b.handles)))
      either false = granted-Settled mode r hid (set_cx 1 t1) (recounted t1 b) e

  -- Let the server keep the handles `hs` open. Then AL_SPOPNFIL, started with the carry clear, leaves
  -- either the carry set and the handles as they were, or the carry clear, one more handle, which the
  -- SFT at ES:DI holds, and the position 0: the handle of its probe does not stay open beside it.
  pub al_spopnfil-Settled :
      (undef : ℕ) (t : Tsr S)
      → t.comport ≡ port
      → t.regs.carry ≡ false
      → 1 ≤ length t.rep
      → Open hs t.rpc
      → Settled (al_spopnfil call undef t)
  unfolding al_spopnfil spop_probed probed
  al_spopnfil-Settled undef t on_port clear room now =
      let b : Between hs t = record {
        on_port = on_port;
        no_error = clear;
        has_room = room;
        handles = now;
      } in
      let mode = bit_and (sft_of t).open_mode 0x03 in
      let lo_act = bit_and t.sda.spop_act 0x0F in
      let hi_act = bit_and (t.sda.spop_act / 2 ^ 4) 0x0F in
      let request = mode ∷ copy_fn1_path 1 t.sda.fn1 in
      named_or_not (bad_name t.sda.fn1) 3 t _ b (
        either (hi_act == 1 || hi_act == 2 || (hi_act == 0 && lo_act == 1)) _ _
          (opening undef 0 cmd_open request t (probed hi_act lo_act mode) b
            (server.opens hs request t.rpc now) (probe_failed hi_act lo_act mode)
            (probe_opened hi_act lo_act mode))
          (spop_create-Settled hi_act lo_act false mode undef 0 t b))
    where
      either :
          (probe : Bool) (u v : Tsr S) → Settled u → Settled v → Settled (if probe then u else v)
      either true u v hu hv = hu
      either false u v hu hv = hv
