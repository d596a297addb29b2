-- ===== src/Redirector/Files/Kept.antt =====
-- What the handlers on an open file keep.
use serial_dfs.Base.{
  ℕ, suc, zero, ◌+◌, ◌-◌, ◌/◌, ◌^◌, ◌==◌, ltb, leb, not, ◌||◌, ◌&&◌, u8, u16, u32, dword_at,
  word_bytes, ◌≤◌, List, [], ◌∷◌, ◌++◌, take, drop, length, length-take, overlay, if◌then◌else◌,
  Bool, true, false, arith, ◌⊎◌, inl, inr, Option, some, none,
}
use serial_dfs.Command.{cmd_close, cmd_flush, cmd_read, cmd_write, cmd_seek}
use serial_dfs.Redirector.State.{Call, Tsr, Sft, Reply, ask, refused, fail, set_cx, set_sft, sft_of}
use serial_dfs.Redirector.Names.{dos_err_from_status}
use serial_dfs.Redirector.State.Kept.{
  Follows, Kept, Kept-front, Kept-same, Kept-then, Kept-if, Kept-ask, KeptSome, KeptSome-if,
  KeptSome-then,
}
use serial_dfs.Redirector.Paths.Kept.{Kept-simple_call}
use serial_dfs.Redirector.Files.{
  writing, read_request, chunk_size, read_reply, write_reply, al_clsfil, al_cmmtfil, read_loop,
  al_readfil, write_loop, al_writefil, al_skfmend, al_diskspace,
}

length-read_request : (f : Sft) (chunk totread : ℕ) → length (read_request f chunk totread) ≤ 512
unfolding read_request
length-read_request f chunk totread = omega arith

chunk_size_le : (most total done : ℕ) → chunk_size most total done ≤ most
unfolding chunk_size
chunk_size_le most total done = ground arith

module _ {S : Type 0} (call : Call S) (R : S → S → Type 0) (follows : Follows call R) where
  pub Kept-al_clsfil : (undef : ℕ) (t : Tsr S) → Kept R t (al_clsfil call undef t)
  unfolding al_clsfil
  Kept-al_clsfil undef t =
      let f = sft_of t in
      let f' = if ltb 0 f.handle_count then record f { handle_count = f.handle_count - 1 } else f in
      let payload =
        if writing f == 0
        then u8 f.start_sector ∷ []
        else u8 f.start_sector ∷ word_bytes (f.file_time / 2 ^ 16)
          ++ word_bytes (u16 f.file_time) in
      let t' = set_sft f' t in
      Kept-then call R follows t t' (ask call undef 0 cmd_close payload t').1
        (Kept-front t (Kept-same call R follows t))
        (Kept-ask call R follows undef 0 cmd_close payload t' (ground arith))

  pub Kept-al_cmmtfil : (undef : ℕ) (t : Tsr S) → Kept R t (al_cmmtfil call undef t)
  unfolding al_cmmtfil
  Kept-al_cmmtfil undef t =
      Kept-simple_call call R follows undef cmd_flush (u8 (sft_of t).start_sector ∷ []) t
        (omega arith)

  pub Kept-al_diskspace : (t : Tsr S) → Kept R t (al_diskspace t)
  unfolding al_diskspace
  Kept-al_diskspace t = Kept-front t (Kept-same call R follows t)

  -- One round of a read or a write: it ends in a state or goes on from one.
  KeptRound : Tsr S → Tsr S ⊎ (ℕ × Tsr S) → Type 0
  KeptRound t (inl t') = Kept R t t'
  KeptRound t (inr (n, t')) = Kept R t t'

  KeptRound-if :
      (b : Bool) (t : Tsr S) (x y : Tsr S ⊎ (ℕ × Tsr S))
      → KeptRound t x
      → KeptRound t y
      → KeptRound t (if b then x else y)
  KeptRound-if true t x y h k = h
  KeptRound-if false t x y h k = k

  Kept-read_reply :
      (chunk totread : ℕ) (r : Reply) (t : Tsr S) → KeptRound t (read_reply chunk totread r t)
  unfolding read_reply KeptRound
  Kept-read_reply chunk totread r t =
      let got = u16 r.replylen in
      let totread' = u16 (totread + got) in
      let t2 : Tsr S = record t { dta = overlay totread (take got t.rep) t.dta } in
      let ended =
        set_cx totread'
          (set_sft (record (sft_of t2) { file_pos = u32 ((sft_of t2).file_pos + totread') }) t2) in
      let same = Kept-same call R follows t in
      let round : Tsr S ⊎ (ℕ × Tsr S) =
        if ltb got chunk || leb t2.regs.cx totread' then inl ended else inr (totread', t2) in
      let refusal : Tsr S ⊎ (ℕ × Tsr S) = inl (fail (dos_err_from_status r.rstatus) t) in
      KeptRound-if (not r.rpc_ok) t (inl (fail 2 t))
        (if not (r.rstatus == 0) && r.replylen == 0 then refusal else round) (Kept-front t same)
        (KeptRound-if (not (r.rstatus == 0) && r.replylen == 0) t refusal round (Kept-front t same)
          (KeptRound-if (ltb got chunk || leb t2.regs.cx totread') t (inl ended)
            (inr (totread', t2)) (Kept-front t same) (Kept-front t same)))

  Kept-read_loop :
      (fuel rstatus replylen totread : ℕ) (t : Tsr S)
      → KeptSome R t (read_loop call fuel rstatus replylen totread t)
  unfolding read_loop KeptRound
  Kept-read_loop zero rstatus replylen totread t = tt
  Kept-read_loop (suc fuel) rstatus replylen totread t =
      KeptSome-then call R follows t t1 (after (read_reply chunk totread r t1))
        (Kept-ask call R follows rstatus replylen cmd_read (read_request (sft_of t) chunk totread) t
          (length-read_request (sft_of t) chunk totread))
        (kept (λ n u. Kept-read_loop fuel r.rstatus r.replylen n u) (read_reply chunk totread r t1)
          (Kept-read_reply chunk totread r t1))
    where
      chunk : ℕ
      chunk = chunk_size 512 t.regs.cx totread

      r : Reply
      r = (ask call rstatus replylen cmd_read (read_request (sft_of t) chunk totread) t).0

      t1 : Tsr S
      t1 = (ask call rstatus replylen cmd_read (read_request (sft_of t) chunk totread) t).1

      after : Tsr S ⊎ (ℕ × Tsr S) → Option (Tsr S)
      after x = elim x [
        | inl t' ↦ some t'
        | inr (n, t2) ↦ read_loop call fuel r.rstatus r.replylen n t2
      ]

      kept :
          ((n : ℕ) (u : Tsr S) → KeptSome R u (read_loop call fuel r.rstatus r.replylen n u))
          → (x : Tsr S ⊎ (ℕ × Tsr S)) → KeptRound t1 x
          → KeptSome R t1 (after x)
      kept ih (inl t') k = k
      kept ih (inr (n, t2)) k =
          KeptSome-then call R follows t1 t2 (read_loop call fuel r.rstatus r.replylen n t2) k
            (ih n t2)

  pub Kept-al_readfil : (undef : ℕ) (t : Tsr S) → KeptSome R t (al_readfil call undef t)
  unfolding al_readfil
  Kept-al_readfil undef t =
      let same = Kept-same call R follows t in
      let loop = read_loop call t.regs.cx undef 0 0 t in
      KeptSome-if call R follows (not (writing (sft_of t) == 0)) t (some (fail 5 t))
        (if t.regs.cx == 0 then some t else loop) (Kept-front t same)
        (KeptSome-if call R follows (t.regs.cx == 0) t (some t) loop same
          (Kept-read_loop t.regs.cx undef 0 0 t))

  -- The same of a write, whose end has a number too.
  KeptWrite : Tsr S → (ℕ × Tsr S) ⊎ (ℕ × Tsr S) → Type 0
  KeptWrite t (inl (n, t')) = Kept R t t'
  KeptWrite t (inr (n, t')) = Kept R t t'

  KeptWrite-if :
      (b : Bool) (t : Tsr S) (x y : (ℕ × Tsr S) ⊎ (ℕ × Tsr S))
      → KeptWrite t x
      → KeptWrite t y
      → KeptWrite t (if b then x else y)
  KeptWrite-if true t x y h k = h
  KeptWrite-if false t x y h k = k

  Kept-write_reply :
      (chunk written : ℕ) (r : Reply) (t : Tsr S) → KeptWrite t (write_reply chunk written r t)
  unfolding write_reply KeptWrite
  Kept-write_reply chunk written r t =
      let f = sft_of t in
      let pos = u32 (f.file_pos + chunk) in
      let f' = record f {
        file_pos = pos;
        file_size = if ltb f.file_size pos then pos else f.file_size;
      } in
      let same = Kept-same call R follows t in
      KeptWrite-if (refused r) t (inl (written, fail (dos_err_from_status r.rstatus) t))
        (inr (u16 (written + chunk), set_sft f' t)) (Kept-front t same) (Kept-front t same)

  KeptWritten : Tsr S → Option (ℕ × Tsr S) → Type 0
  KeptWritten t none = Unit
  KeptWritten t (some (n, t')) = Kept R t t'

  KeptWritten-then :
      (t t' : Tsr S) (x : Option (ℕ × Tsr S)) → Kept R t t' → KeptWritten t' x → KeptWritten t x
  unfolding KeptWritten
  KeptWritten-then t t' none h k = tt
  KeptWritten-then t t' (some (n, u)) h k = Kept-then call R follows t t' u h k

  Kept-write_loop :
      (fuel towrite rstatus written : ℕ) (t : Tsr S)
      → KeptWritten t (write_loop call fuel towrite rstatus written t)
  unfolding write_loop KeptWrite KeptWritten
  Kept-write_loop zero towrite rstatus written t = tt
  Kept-write_loop (suc fuel) towrite rstatus written t = ended (leb towrite written) (
      KeptWritten-then t t1 (after (write_reply chunk written r t1))
        (Kept-ask call R follows rstatus 0 cmd_write payload t (
          omega (arith, length-take chunk (drop written t.dta), chunk_size_le 511 towrite written)))
        (kept (λ n u. Kept-write_loop fuel towrite r.rstatus n u) (write_reply chunk written r t1)
          (Kept-write_reply chunk written r t1)))
    where
      chunk : ℕ
      chunk = chunk_size 511 towrite written

      payload : List ℕ
      payload = u8 (sft_of t).start_sector ∷ take chunk (drop written t.dta)

      r : Reply
      r = (ask call rstatus 0 cmd_write payload t).0

      t1 : Tsr S
      t1 = (ask call rstatus 0 cmd_write payload t).1

      after : (ℕ × Tsr S) ⊎ (ℕ × Tsr S) → Option (ℕ × Tsr S)
      after x = elim x [
        | inl done ↦ some done
        | inr (n, t2) ↦ write_loop call fuel towrite r.rstatus n t2
      ]

      kept :
          ((n : ℕ) (u : Tsr S) → KeptWritten u (write_loop call fuel towrite r.rstatus n u))
          → (x : (ℕ × Tsr S) ⊎ (ℕ × Tsr S)) → KeptWrite t1 x
          → KeptWritten t1 (after x)
      kept ih (inl done) k = k
      kept ih (inr (n, t2)) k =
          KeptWritten-then t1 t2 (write_loop call fuel towrite r.rstatus n t2) k (ih n t2)

      ended :
          (b : Bool)
          → KeptWritten t (after (write_reply chunk written r t1))
          → KeptWritten t
              (elim b [ true ↦ some (written, t) | false ↦ after (write_reply chunk written r t1) ])
      ended true k = Kept-same call R follows t
      ended false k = k

  with_cx : Option (ℕ × Tsr S) → Option (Tsr S)
  with_cx none = none
  with_cx (some (n, t')) = some (set_cx n t')

  Kept-with_cx : (t : Tsr S) (x : Option (ℕ × Tsr S)) → KeptWritten t x → KeptSome R t (with_cx x)
  unfolding KeptWritten with_cx
  Kept-with_cx t none k = tt
  Kept-with_cx t (some (n, t')) k = Kept-front t' k

  pub Kept-al_writefil : (undef : ℕ) (t : Tsr S) → KeptSome R t (al_writefil call undef t)
  unfolding al_writefil with_cx
  Kept-al_writefil undef t =
      let same = Kept-same call R follows t in
      let loop = with_cx (write_loop call (t.regs.cx + 1) t.regs.cx undef 0 t) in
      KeptSome-if call R follows (writing (sft_of t) == 0) t (some (fail 5 t))
        (if t.regs.cx == 0 then some t else loop) (Kept-front t same)
        (KeptSome-if call R follows (t.regs.cx == 0) t (some t) loop same (
          Kept-with_cx t (write_loop call (t.regs.cx + 1) t.regs.cx undef 0 t)
            (Kept-write_loop (t.regs.cx + 1) t.regs.cx undef 0 t)))

  pub Kept-al_skfmend : (undef : ℕ) (t : Tsr S) → Kept R t (al_skfmend call undef t)
  unfolding al_skfmend
  Kept-al_skfmend undef t =
      let payload = u8 (sft_of t).start_sector ∷ 2 ∷ word_bytes t.regs.dx ++ word_bytes t.regs.cx in
      let (r, t') = ask call undef 0 cmd_seek payload t in
      let new_pos = dword_at t'.rep 0 in
      let t2 = set_sft (record (sft_of t') { file_pos = new_pos }) t' in
      let moved : Tsr S = record t2 {
        regs = record (t2.regs) { ax = u16 new_pos; dx = new_pos / 2 ^ 16 };
      } in
      let k = Kept-ask call R follows undef 0 cmd_seek payload t (omega arith) in
      Kept-if call R follows (refused r || ltb r.replylen 4) t (fail 2 t') moved (Kept-front t' k)
        (Kept-front t' k)
