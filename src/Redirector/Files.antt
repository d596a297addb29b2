-- ===== src/Redirector/Files.antt =====
-- dos/src/serdfs.c, `process2f`: the handlers on an open file, whose SFT stands at ES:DI.
-- The local `chunk` and the totals are 16 bits wide, positions and sizes 32.
pub mod Kept
pub mod Read
pub mod Silent
pub mod Write
use serial_dfs.Base.{
  ℕ, zero, suc, ◌+◌, ◌-◌, ◌*◌, ◌/◌, ◌%◌, ◌^◌, ◌==◌, ltb, leb, not, true, false, ◌⊎◌, inl, inr, ◌&&◌,
  ◌||◌, if◌then◌else◌, Option, none, some, List, [], ◌∷◌, ◌++◌, byte_at, word_at, dword_at,
  word_bytes, dword_bytes, length, u8, u16, u32, bit_and, take, drop, overlay,
}
use serial_dfs.Command.{cmd_close, cmd_flush, cmd_read, cmd_write, cmd_seek}
use serial_dfs.Redirector.Names.{dos_err_from_status}
use serial_dfs.Redirector.State.{
  Call, Tsr, Reply, Regs, Sft, ask, refused, fail, set_cx, set_sft, sft_of,
}
use serial_dfs.Redirector.Paths.{simple_call}

-- `sft->open_mode & 1u`: the file is open for writing only.
abbrev pub writing : Sft → ℕ
writing f = bit_and f.open_mode 1

-- The request of one round of a read: handle, count, offset.
pub read_request : Sft → ℕ → ℕ → List ℕ
read_request f chunk totread =
    u8 f.start_sector ∷ word_bytes chunk ++ dword_bytes (u32 (f.file_pos + totread))

-- `chunk` of both loops: what is left, `most` at most.
pub chunk_size : ℕ → ℕ → ℕ → ℕ
chunk_size most total done =
    if ltb most (u16 (total + 2 ^ 16 - done)) then most else u16 (total + 2 ^ 16 - done)

-- One round of a read after its call: the loop breaks in a state, or goes on with `totread`.
pub read_reply : {S : Type 0} → ℕ → ℕ → Reply → Tsr S → Tsr S ⊎ (ℕ × Tsr S)
read_reply chunk totread r t1 =
    let got = u16 r.replylen in
    let totread' = u16 (totread + got) in
    let t2 = record t1 { dta = overlay totread (take got t1.rep) t1.dta } in
    if not r.rpc_ok
    then inl (fail 2 t1)
    else if not (r.rstatus == 0) && r.replylen == 0
    then inl (fail (dos_err_from_status r.rstatus) t1)
    else if ltb got chunk || leb t2.regs.cx totread'
    then inl (
        set_cx totread'
          (set_sft (record (sft_of t2) { file_pos = u32 ((sft_of t2).file_pos + totread') }) t2))
    else inr (totread', t2)

-- One round of a write after its call.
pub write_reply : {S : Type 0} → ℕ → ℕ → Reply → Tsr S → (ℕ × Tsr S) ⊎ (ℕ × Tsr S)
write_reply chunk written r t1 =
    let f = sft_of t1 in
    let pos = u32 (f.file_pos + chunk) in
    let f' = record f {
      file_pos = pos;
      file_size = if ltb f.file_size pos then pos else f.file_size;
    } in
    if refused r
    then inl (written, fail (dos_err_from_status r.rstatus) t1)
    else inr (u16 (written + chunk), set_sft f' t1)

module _ {S : Type 0} (call : Call S) where
  -- `case AL_CLSFIL`: errors of the call are ignored.
  pub al_clsfil : ℕ → Tsr S → Tsr S
  al_clsfil undef t =
      let f = sft_of t in
      let f' = if ltb 0 f.handle_count then record f { handle_count = f.handle_count - 1 } else f in
      let payload =
        if writing f == 0
        then u8 f.start_sector ∷ []
        else u8 f.start_sector ∷ word_bytes (f.file_time / 2 ^ 16)
          ++ word_bytes (u16 f.file_time) in
      (ask call undef 0 cmd_close payload (set_sft f' t)).1

  -- `case AL_CMMTFIL`.
  pub al_cmmtfil : ℕ → Tsr S → Tsr S
  al_cmmtfil undef t = simple_call call undef cmd_flush (u8 (sft_of t).start_sector ∷ []) t

  -- The loop of `case AL_READFIL`, with fuel: `none` says that it ran out.
  pub read_loop : ℕ → ℕ → ℕ → ℕ → Tsr S → Option (Tsr S)
  read_loop zero rstatus replylen totread t = none
  read_loop (suc fuel) rstatus replylen totread t =
      let chunk = chunk_size 512 t.regs.cx totread in
      let (r, t1) = ask call rstatus replylen cmd_read (read_request (sft_of t) chunk totread) t in
      elim (read_reply chunk totread r t1) [
        | inl t' ↦ some t'
        | inr (totread', t2) ↦ read_loop fuel r.rstatus r.replylen totread' t2
      ]

  -- `case AL_READFIL`. Each round but the last moves at least one of at most 65535 bytes.
  pub al_readfil : ℕ → Tsr S → Option (Tsr S)
  al_readfil undef t =
      if not (writing (sft_of t) == 0)
      then some (fail 5 t)
      else if t.regs.cx == 0
      then some t
      else read_loop t.regs.cx undef 0 0 t

  -- The loop of `case AL_WRITEFIL`, with fuel: it also gives back `written`.
  pub write_loop : ℕ → ℕ → ℕ → ℕ → Tsr S → Option (ℕ × Tsr S)
  write_loop zero towrite rstatus written t = none
  write_loop (suc fuel) towrite rstatus written t =
      let chunk = chunk_size 511 towrite written in
      let (r, t1) =
        ask call rstatus 0 cmd_write (u8 (sft_of t).start_sector ∷ take chunk (drop written t.dta))
          t in
      elim (leb towrite written) [
        | true ↦ some (written, t)
        | false ↦ elim (write_reply chunk written r t1) [
          | inl ended ↦ some ended
          | inr (written', t2) ↦ write_loop fuel towrite r.rstatus written' t2
        ]
      ]

  -- `case AL_WRITEFIL`.
  pub al_writefil : ℕ → Tsr S → Option (Tsr S)
  al_writefil undef t =
      if writing (sft_of t) == 0
      then some (fail 5 t)
      else if t.regs.cx == 0
      then some t
      else elim (write_loop (t.regs.cx + 1) t.regs.cx undef 0 t) [
        | some (written, t') ↦ some (set_cx written t')
        | none ↦ none
      ]

  -- `case AL_SKFMEND`.
  pub al_skfmend : ℕ → Tsr S → Tsr S
  al_skfmend undef t =
      let (r, t') =
        ask call undef 0 cmd_seek
          (u8 (sft_of t).start_sector ∷ 2 ∷ word_bytes t.regs.dx ++ word_bytes t.regs.cx) t in
      if refused r || ltb r.replylen 4
      then fail 2 t'
      else let new_pos = dword_at t'.rep 0 in
        let t2 = set_sft (record (sft_of t') { file_pos = new_pos }) t' in
        record t2 { regs = record (t2.regs) { ax = u16 new_pos; dx = new_pos / 2 ^ 16 } }

-- `case AL_DISKSPACE`: a made-up answer.
pub al_diskspace : {S : Type 0} → Tsr S → Tsr S
al_diskspace t = record t { regs = record (t.regs) { ax = 4; cx = 512; bx = 32767; dx = 16383 } }
