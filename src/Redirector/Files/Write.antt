-- ===== src/Redirector/Files/Write.antt =====
-- AL_WRITEFIL against a server that takes writes in their order.
use serial_dfs.Base.{
  ℕ, zero, suc, ◌+◌, ◌-◌, ◌^◌, ◌<◌, ◌≤◌, ◌==◌, ltb, leb, if◌then◌else◌, Option, none, some, List,
  ◌∷◌, ◌++◌, length, u8, u32, take, drop, overlay, ◌≡◌, ◌≢◌, refl, ap, ap₂, sym, ◌∙◌, arith, min,
  length-take, take-take-drop, append-nil, append_assoc, true, false, Bool, ◌⊎◌, inl, inr,
}
use serial_dfs.Redirector.State.Update.{update_same, update_twice, update_at}
use mathlib.Core.Path.{subst}
use serial_dfs.Command.{cmd_write}
use serial_dfs.Rpc.{ok}
use serial_dfs.Redirector.State.{
  Call, Tsr, Reply, Regs, Sft, ask, set_cx, set_sft, sft_of, es_di, update,
}
use serial_dfs.Redirector.State.Ask.{ask_ok}
use serial_dfs.Redirector.Files.{write_reply, chunk_size, write_loop, al_writefil, writing}

-- The server: in a state of `Ready w` it has taken the bytes `w`, and it takes the next ones that
-- are written on the handle `hid` after them.
pub record TakesWrites {S : Type 0} (call : Call S) (port hid : ℕ) (Ready : List ℕ → S → Type 0)
    : Type 0 where
  pub takes :
      (w d : List ℕ) (s : S)
      → length d ≤ 511
      → Ready w s
      → (p : List ℕ) × ((call port cmd_write (u8 hid ∷ d) s).0 ≡ ok 0 p)
        × Ready (w ++ d) (call port cmd_write (u8 hid ∷ d) s).1

module _ {S : Type 0} (call : Call S) (port hid : ℕ) (Ready : List ℕ → S → Type 0)
    (server : TakesWrites call port hid Ready) (t0 : Tsr S) (w0 : List ℕ)
    (on_port : t0.comport ≡ port) (of_handle : u8 (sft_of t0).start_sector ≡ u8 hid)
    (cx_word : t0.regs.cx < 2 ^ 16) (small : (sft_of t0).file_pos + t0.regs.cx < 2 ^ 32)
    (enough_data : t0.regs.cx ≤ length t0.dta) where
  abbrev f0 : Sft
  f0 = sft_of t0

  abbrev cx : ℕ
  cx = t0.regs.cx

  -- The size of the file after `n` bytes.
  abbrev pub grown : ℕ → ℕ
  grown n =
      if n == 0
      then f0.file_size
      else if ltb f0.file_size (f0.file_pos + n)
      then f0.file_pos + n
      else f0.file_size

  -- The SFT after `n` bytes.
  abbrev pub moved : ℕ → Sft
  moved n = record f0 { file_pos = f0.file_pos + n; file_size = grown n }

  record Writing (written : ℕ) (t : Tsr S) : Type 0 where
    pub same_port : t.comport ≡ port
    pub same_regs : t.regs ≡ t0.regs
    pub same_data : t.dta ≡ t0.dta
    pub sft_now : t.sft ≡ update t0.sft (es_di t0.regs) (moved written)
    pub taken : Ready (w0 ++ take written t0.dta) t.rpc
    pub not_over : written ≤ cx

  module _ (written : ℕ) (t : Tsr S) (r : Writing written t) (more : written < cx) where
    abbrev chunk : ℕ
    chunk = min 511 (cx - written)

    abbrev piece : List ℕ
    piece = take chunk (drop written t0.dta)

    chunk_is : chunk_size 511 cx written ≡ chunk
    unfolding chunk_size
    chunk_is = ground (arith, more)

    now : sft_of t ≡ moved written
    now =
        ap₂ (λ s g. s (es_di g)) r.sft_now r.same_regs
        ∙ update_at t0.sft (es_di t0.regs) (moved written)

    answered :
        (p : List ℕ) × ((call port cmd_write (u8 hid ∷ piece) t.rpc).0 ≡ ok 0 p)
        × Ready
            ((w0 ++ take written t0.dta) ++ piece)
            (call port cmd_write (u8 hid ∷ piece) t.rpc).1
    answered =
        server.takes (w0 ++ take written t0.dta) piece t.rpc
          (omega (arith, length-take chunk (drop written t0.dta))) r.taken

    -- The call of the round.
    abbrev request : List ℕ
    request = u8 (sft_of t).start_sector ∷ take chunk (drop written t.dta)

    request_is : request ≡ u8 hid ∷ piece
    request_is =
        ap₂ (λ f d. u8 f.start_sector ∷ take chunk (drop written d)) now r.same_data
        ∙ ap (λ h. h ∷ piece) of_handle

    call_is : call t.comport cmd_write request t.rpc ≡ call port cmd_write (u8 hid ∷ piece) t.rpc
    call_is = ap₂ (λ p d. call p cmd_write d t.rpc) r.same_port request_is

    -- The state after the round.
    abbrev sent : Tsr S
    sent = set_sft (moved (written + chunk)) (record t {
      rep = overlay 0 answered.0 t.rep;
      rpc = (call port cmd_write (u8 hid ∷ piece) t.rpc).1;
    })

    abbrev replied : Tsr S
    replied = record t {
      rep = overlay 0 answered.0 t.rep;
      rpc = (call port cmd_write (u8 hid ∷ piece) t.rpc).1;
    }

    asked :
        (rs : ℕ)
        → ask call rs 0 cmd_write request t
          ≡ (record { rpc_ok = true; rstatus = 0; replylen = length answered.0 }, replied)
    asked rs =
        ask_ok call rs 0 cmd_write request t (ap (λ x. x.0) call_is ∙ answered.1)
        ∙ ap (with_rpc) (ap (λ x. x.1) call_is)
      where
        with_rpc : S → Reply × Tsr S
        with_rpc s = (
          record { rpc_ok = true; rstatus = 0; replylen = length answered.0 },
          record t { rep = overlay 0 answered.0 t.rep; rpc = s },
        )

    -- The SFT that the code writes.
    abbrev step : Sft → Sft
    step f =
        let pos = u32 (f.file_pos + chunk) in
        record f { file_pos = pos; file_size = if ltb f.file_size pos then pos else f.file_size }

    next_size :
        (if ltb (grown written) (u32 (f0.file_pos + written + chunk))
          then u32 (f0.file_pos + written + chunk)
          else grown written)
        ≡ grown (written + chunk)
    next_size = ground (arith, small, more)

    step_moved : step (moved written) ≡ moved (written + chunk)
    step_moved =
        ap₂ (λ p s. record f0 { file_pos = p; file_size = s }) (omega (arith, small, more))
          next_size

    stepped :
        write_reply chunk written
          (record { rpc_ok = true; rstatus = 0; replylen = length answered.0 })
          replied
        ≡ inr (written + chunk, sent)
    unfolding write_reply
    stepped =
        ap₂ (λ n f. inr (n, set_sft f replied)) (omega (arith, more, cx_word))
          (ap step now ∙ step_moved)

    round :
        (fuel rs : ℕ)
        → write_loop call (suc fuel) cx rs written t
          ≡ write_loop call fuel cx 0 (written + chunk) sent
    unfolding write_loop
    round fuel rs =
        ap with_test going
        ∙ ap with_chunk chunk_is
        ∙ ap with_reply (asked rs)
        ∙ ap (λ n. with_next n) stepped
      where
        with_next : (ℕ × Tsr S) ⊎ (ℕ × Tsr S) → Option (ℕ × Tsr S)
        with_next n = elim n [
          | inl ended ↦ some ended
          | inr (written', t2) ↦ write_loop call fuel cx 0 written' t2
        ]

        with_reply : Reply × Tsr S → Option (ℕ × Tsr S)
        with_reply x = elim (write_reply chunk written x.0 x.1) [
          | inl ended ↦ some ended
          | inr (written', t2) ↦ write_loop call fuel cx x.0.rstatus written' t2
        ]

        with_chunk : ℕ → Option (ℕ × Tsr S)
        with_chunk c =
            let (x, t1) =
              ask call rs 0 cmd_write (u8 (sft_of t).start_sector ∷ take c (drop written t.dta))
                t in
            elim (write_reply c written x t1) [
              | inl ended ↦ some ended
              | inr (written', t2) ↦ write_loop call fuel cx x.rstatus written' t2
            ]

        going : leb cx written ≡ false
        going = ground (arith, more)

        with_test : Bool → Option (ℕ × Tsr S)
        with_test b = elim b [
          | true ↦ some (written, t)
          | false ↦ with_chunk (chunk_size 511 cx written)
        ]

    Writing-sent : Writing (written + chunk) sent
    Writing-sent = record {
      same_port = r.same_port;
      same_regs = r.same_regs;
      same_data = r.same_data;
      sft_now =
          ap₂ (λ s g. update s (es_di g) (moved (written + chunk))) r.sft_now r.same_regs
          ∙ update_twice t0.sft (es_di t0.regs) (moved written) (moved (written + chunk));
      taken = subst (λ w. Ready w (call port cmd_write (u8 hid ∷ piece) t.rpc).1) joined answered.2;
      not_over = omega (arith, more);
    }
      where
        joined : (w0 ++ take written t0.dta) ++ piece ≡ w0 ++ take (written + chunk) t0.dta
        joined =
            append_assoc w0 (take written t0.dta) piece
            ∙ ap (λ d. w0 ++ d) (take-take-drop written chunk t0.dta)

  -- The loop takes no more than one round for each byte, and one.
  write_loop_ends :
      (fuel rs written : ℕ) (t : Tsr S)
      → Writing written t
      → cx - written < fuel
      → (t' : Tsr S) × (write_loop call fuel cx rs written t ≡ some (cx, t')) × Writing cx t'
  unfolding write_loop
  write_loop_ends zero rs written t r enough = absurd (none_left enough)
    where
      none_left : cx - written < 0 → ⊥
      none_left h = omega arith
  write_loop_ends (suc fuel) rs written t r enough = elim over_or_more [
    | inl more ↦
        let (t', runs, w) =
          write_loop_ends fuel 0 (written + chunk written t r more) (sent written t r more)
            (Writing-sent written t r more) (omega arith) in
        (t', round written t r more fuel rs ∙ runs, w)
    | inr over ↦ (
      t,
      ap with_test over ∙ ap (λ n. some (n, t)) (at_count over),
      subst (λ n. Writing n t) (at_count over) r,
    )
  ]
    where
      over_or_more : (written < cx) ⊎ (leb cx written ≡ true)
      over_or_more = ground arith

      at_count : leb cx written ≡ true → written ≡ cx
      at_count h = ground (arith, r.not_over)

      with_test : Bool → Option (ℕ × Tsr S)
      with_test b =
          let (x, t1) =
            ask call rs 0 cmd_write
              (u8 (sft_of t).start_sector ∷ take (chunk_size 511 cx written) (drop written t.dta))
              t in
          elim b [
            | true ↦ some (written, t)
            | false ↦ elim (write_reply (chunk_size 511 cx written) written x t1) [
              | inl ended ↦ some ended
              | inr (written', t2) ↦ write_loop call fuel cx x.rstatus written' t2
            ]
          ]

  -- Let the handle of the SFT at ES:DI be open for writing, let the server take writes on it after
  -- `w0`, let CX be not 0, let the buffer at the DTA hold CX bytes, and let positions stay below 2^32.
  -- Then AL_WRITEFIL ends, the server has taken `w0` and after it the first CX bytes of the buffer,
  -- the registers and the buffer are as before, the position has moved on by CX, and the size is the
  -- larger of the size before and the new position; no other field of an SFT has changed.
  pub al_writefil-TakesWrites :
      (undef : ℕ)
      → writing f0 ≢ 0
      → cx ≢ 0
      → Ready w0 t0.rpc
      → (t' : Tsr S) × (al_writefil call undef t0 ≡ some t')
        × Ready (w0 ++ take cx t0.dta) t'.rpc
        × (t'.regs ≡ t0.regs)
        × (t'.dta ≡ t0.dta)
        × (t'.sft ≡ update t0.sft (es_di t0.regs) (moved cx))
  unfolding al_writefil
  al_writefil-TakesWrites undef writable wanted ready =
      let (t', runs, w) = write_loop_ends (cx + 1) undef 0 t0 at_start (omega arith) in
      (
        set_cx cx t',
        start ∙ ap finish runs,
        w.taken,
        ap with_cx w.same_regs,
        w.same_data,
        w.sft_now,
      )
    where
      with_cx : Regs → Regs
      with_cx g = record g { cx = cx }

      at_start : Writing 0 t0
      at_start = record {
        same_port = on_port;
        same_regs = refl;
        same_data = refl;
        sft_now = update_same t0.sft (es_di t0.regs) ∙ ap (update t0.sft (es_di t0.regs)) at_zero;
        taken = subst (λ w. Ready w t0.rpc) (sym (append-nil w0)) ready;
        not_over = omega arith;
      }
        where
          at_zero : f0 ≡ moved 0
          at_zero = ap with_position (omega arith)
            where
              with_position : ℕ → Sft
              with_position n = record f0 { file_pos = n }

      finish : Option (ℕ × Tsr S) → Option (Tsr S)
      finish o = elim o [ some (written, t') ↦ some (set_cx written t') | none ↦ none ]

      start : al_writefil call undef t0 ≡ finish (write_loop call (cx + 1) cx undef 0 t0)
      start = rw (not_readonly, not_none)
        where
          not_readonly : (writing f0 == 0) ≡ false
          not_readonly = ground (arith, writable)

          not_none : (cx == 0) ≡ false
          not_none = ground (arith, wanted)
