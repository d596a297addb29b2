-- ===== src/Redirector/Files/Read.antt =====
-- AL_READFIL against a server that answers reads from a file.
use serial_dfs.Base.{
  ℕ, zero, suc, ◌+◌, ◌-◌, ◌^◌, ◌<◌, ◌≤◌, ◌==◌, ltb, leb, ◌||◌, if◌then◌else◌, Option, some, List,
  ◌∷◌, ◌++◌, length, u8, u16, u32, take, drop, overlay, ◌≡◌, refl, ap, ap₂, sym, ◌∙◌, arith, min,
  length-take, length-drop, overlay-overlay, take-overlay, take-take-drop, drop-drop, take_all,
  word_bytes, dword_bytes, true, false, Bool, length-overlay, overlay_nil, ◌⊎◌, inl, inr,
}
use mathlib.Core.Path.{subst₃}
use serial_dfs.Command.{cmd_read}
use serial_dfs.Rpc.{ok}
use serial_dfs.Redirector.State.{Call, Tsr, Reply, ask, set_cx, set_sft, sft_of, es_di, update}
use serial_dfs.Redirector.State.Ask.{ask_ok}
use serial_dfs.Redirector.Files.{
  read_request, read_reply, chunk_size, read_loop, al_readfil, writing,
}

-- The server: from a state of `Ready`, a read of `n` bytes at `off` on the handle `hid` is answered
-- with those of them that the file has, and the state is one of `Ready` again.
pub record ServesReads {S : Type 0} (call : Call S) (port hid : ℕ) (file : List ℕ)
    (Ready : S → Type 0) : Type 0 where
  pub answers :
      (n off : ℕ) (s : S)
      → n ≤ 512
      → off < 2 ^ 32
      → Ready s
      → ((call port cmd_read (u8 hid ∷ word_bytes n ++ dword_bytes off) s).0
          ≡ ok 0 (take n (drop off file)))
        × Ready (call port cmd_read (u8 hid ∷ word_bytes n ++ dword_bytes off) s).1

module _ {S : Type 0} (call : Call S) (port hid : ℕ) (file : List ℕ) (Ready : S → Type 0)
    (server : ServesReads call port hid file Ready) (pos cx : ℕ) (cx_word : cx < 2 ^ 16)
    (small : pos + cx < 2 ^ 32) where
  -- The bytes that the file has from the position on.
  abbrev pub rest : List ℕ
  rest = drop pos file

  -- A state inside the loop: `tot` bytes have come, and they stand at the start of the buffer.
  record Reading (dta0 : List ℕ) (tot : ℕ) (t : Tsr S) : Type 0 where
    the_port : t.comport ≡ port
    the_handle : u8 (sft_of t).start_sector ≡ u8 hid
    at_pos : (sft_of t).file_pos ≡ pos
    the_count : t.regs.cx ≡ cx
    room : 512 ≤ length t.rep
    is_ready : Ready t.rpc
    so_far : t.dta ≡ overlay 0 (take tot rest) dta0
    all_came : tot ≤ length rest
    more_wanted : tot < cx

  abbrev chunk_of : ℕ → ℕ
  chunk_of tot = min 512 (cx - tot)

  abbrev came : ℕ → List ℕ
  came tot = take (chunk_of tot) (drop (pos + tot) file)

  abbrev request : ℕ → Tsr S → List ℕ
  request tot t = read_request (sft_of t) (chunk_of tot) tot

  -- The state after one round's answer.
  abbrev received : ℕ → Tsr S → Tsr S
  received tot t = record t {
    rep = overlay 0 (came tot) t.rep;
    rpc = (call t.comport cmd_read (request tot t) t.rpc).1;
    dta = overlay tot (came tot) t.dta;
  }

  module _ (dta0 : List ℕ) (tot : ℕ) (t : Tsr S) (r : Reading dta0 tot t) where
    chunk_is : chunk_size 512 t.regs.cx tot ≡ chunk_of tot
    unfolding chunk_size
    chunk_is = ground (arith, r.the_count, r.more_wanted)

    answered :
        ((call t.comport cmd_read (request tot t) t.rpc).0 ≡ ok 0 (came tot))
        × Ready (call t.comport cmd_read (request tot t) t.rpc).1
    unfolding read_request
    answered =
        subst₃
          (λ p a d.
            ((call p cmd_read (a ∷ word_bytes (chunk_of tot) ++ dword_bytes d) t.rpc).0
              ≡ ok 0 (came tot))
            × Ready (call p cmd_read (a ∷ word_bytes (chunk_of tot) ++ dword_bytes d) t.rpc).1)
          (sym r.the_port) (sym r.the_handle) (sym position)
          (server.answers (chunk_of tot) (pos + tot) t.rpc (omega arith)
            (omega (arith, r.more_wanted)) r.is_ready)
      where
        position : u32 ((sft_of t).file_pos + tot) ≡ pos + tot
        position = omega (arith, r.at_pos, r.more_wanted)

    length-came : length (came tot) ≡ min (chunk_of tot) (length rest - tot)
    length-came = omega (
      arith,
      length-take (chunk_of tot) (drop (pos + tot) file),
      length-drop (pos + tot) file,
      length-drop pos file,
    )

    -- How the round ends, with the answer put in.
    next : Tsr S ⊎ (ℕ × Tsr S)
    next =
        if ltb (length (came tot)) (chunk_of tot) || leb t.regs.cx (tot + length (came tot))
        then inl (
            set_cx (tot + length (came tot)) (
              set_sft
                (record (sft_of t) {
                  file_pos = u32 ((sft_of t).file_pos + (tot + length (came tot)));
                })
                (received tot t)))
        else inr (tot + length (came tot), received tot t)

    replied :
        read_reply
          (chunk_of tot)
          tot
          (record { rpc_ok = true; rstatus = 0; replylen = length (came tot) })
          (record t {
            rep = overlay 0 (came tot) t.rep;
            rpc = (call t.comport cmd_read (request tot t) t.rpc).1;
          })
        ≡ next
    unfolding read_reply next
    replied = rw (small_answer, small_total, whole_answer)
      where
        small_answer : u16 (length (came tot)) ≡ length (came tot)
        small_answer = omega (arith, length-came)

        small_total : u16 (tot + length (came tot)) ≡ tot + length (came tot)
        small_total = omega (arith, length-came, r.more_wanted)

        whole_answer : take (length (came tot)) (overlay 0 (came tot) t.rep) ≡ came tot
        whole_answer = take-overlay (came tot) t.rep (omega (arith, length-came, r.room))

    -- One round of the loop, with the answer put in.
    round :
        (fuel rs rl : ℕ)
        → read_loop call (suc fuel) rs rl tot t ≡ (elim next [
          | inl t' ↦ some t'
          | inr (tot', t2) ↦ read_loop call fuel 0 (length (came tot)) tot' t2
        ])
    unfolding read_loop
    round fuel rs rl =
        ap with_chunk chunk_is
        ∙ ap with_reply (ask_ok call rs rl cmd_read (request tot t) t answered.0)
        ∙ ap with_next replied
      where
        with_reply : Reply × Tsr S → Option (Tsr S)
        with_reply x = elim (read_reply (chunk_of tot) tot x.0 x.1) [
          | inl t' ↦ some t'
          | inr (tot', t2) ↦ read_loop call fuel x.0.rstatus x.0.replylen tot' t2
        ]

        with_chunk : ℕ → Option (Tsr S)
        with_chunk c =
            let x : Reply × Tsr S = ask call rs rl cmd_read (read_request (sft_of t) c tot) t in
            elim (read_reply c tot x.0 x.1) [
              | inl t' ↦ some t'
              | inr (tot', t2) ↦ read_loop call fuel x.0.rstatus x.0.replylen tot' t2
            ]

        with_next : Tsr S ⊎ (ℕ × Tsr S) → Option (Tsr S)
        with_next n = elim n [
          | inl t' ↦ some t'
          | inr (tot', t2) ↦ read_loop call fuel 0 (length (came tot)) tot' t2
        ]

    -- The state after the last round.
    abbrev finished : Tsr S
    finished =
        set_cx (length (take cx rest))
          (set_sft (record (sft_of t) { file_pos = pos + length (take cx rest) }) (received tot t))

    merged : overlay tot (came tot) t.dta ≡ overlay 0 (take (tot + chunk_of tot) rest) dta0
    merged =
        ap₂ (λ n d. overlay n (came tot) d) (sym length-before) r.so_far
        ∙ overlay-overlay (take tot rest) (came tot) dta0
        ∙ ap (λ d. overlay 0 (take tot rest ++ take (chunk_of tot) d) dta0)
            (sym (drop-drop pos tot file))
        ∙ ap (λ d. overlay 0 d dta0) (take-take-drop tot (chunk_of tot) rest)
      where
        length-before : length (take tot rest) ≡ tot
        length-before = omega (arith, length-take tot rest, r.all_came)

    total : length (take cx rest) ≡ min cx (length rest)
    total = length-take cx rest

    -- The file is at its end, or the count is reached.
    abbrev IsLast : Type 0
    IsLast = (length (came tot) < chunk_of tot) ⊎ (cx ≤ tot + length (came tot))

    last_total : IsLast → tot + length (came tot) ≡ length (take cx rest)
    last_total last = omega (arith, total, length-came, r.more_wanted, r.all_came, last)

    last_bytes : IsLast → take (tot + chunk_of tot) rest ≡ take cx rest
    last_bytes (inl short) =
        take_all (tot + chunk_of tot) rest (omega (arith, length-came, r.all_came))
        ∙ sym (take_all cx rest (omega (arith, length-came, r.all_came, r.more_wanted)))
    last_bytes (inr full) = ap (λ n. take n rest) (omega (arith, length-came, r.more_wanted))

    finish_position :
        IsLast → u32 ((sft_of t).file_pos + (tot + length (came tot))) ≡ pos + length (take cx rest)
    finish_position last = omega (arith, last_total last, total, r.at_pos)

    -- The loop's test.
    abbrev at_end : Bool
    at_end = ltb (length (came tot)) (chunk_of tot) || leb t.regs.cx (tot + length (came tot))

    at_end-IsLast : IsLast → at_end ≡ true
    at_end-IsLast last = ground (arith, r.the_count, last)

    -- Neither is so.
    abbrev IsMore : Type 0
    IsMore = (chunk_of tot ≤ length (came tot)) × (tot + length (came tot) < cx)

    last_or_more : IsLast ⊎ IsMore
    last_or_more = ground arith

    at_end-IsMore : IsMore → at_end ≡ false
    at_end-IsMore more = ground (arith, r.the_count, more)

    next_last : IsLast → next ≡ inl finished
    unfolding next
    next_last last =
        ap with_test (at_end-IsLast last) ∙ ap₂ with_total (last_total last) (finish_position last)
      where
        with_total : ℕ → ℕ → Tsr S ⊎ (ℕ × Tsr S)
        with_total n q =
            inl (set_cx n (set_sft (record (sft_of t) { file_pos = q }) (received tot t)))

        with_test : Bool → Tsr S ⊎ (ℕ × Tsr S)
        with_test b =
            if b
            then with_total (tot + length (came tot))
                (u32 ((sft_of t).file_pos + (tot + length (came tot))))
            else inr (tot + length (came tot), received tot t)

    full_round : IsMore → (length (came tot) ≡ 512) × (tot + 512 ≤ length rest) × (tot + 512 < cx)
    full_round more = omega (arith, length-came, r.more_wanted, more)

    next_more : IsMore → next ≡ inr (tot + 512, received tot t)
    unfolding next
    next_more more =
        ap with_test (at_end-IsMore more)
        ∙ ap (λ n. inr (tot + n, received tot t)) (full_round more).0
      where
        with_test : Bool → Tsr S ⊎ (ℕ × Tsr S)
        with_test b =
            if b
            then inl (
                set_cx (tot + length (came tot)) (
                  set_sft
                    (record (sft_of t) {
                      file_pos = u32 ((sft_of t).file_pos + (tot + length (came tot)));
                    })
                    (received tot t)))
            else inr (tot + length (came tot), received tot t)

    Reading-more : IsMore → Reading dta0 (tot + 512) (received tot t)
    Reading-more more = record {
      the_port = r.the_port;
      the_handle = r.the_handle;
      at_pos = r.at_pos;
      the_count = r.the_count;
      room = omega (arith, length-overlay 0 (came tot) t.rep, r.room);
      is_ready = answered.1;
      so_far =
          merged ∙ ap (λ n. overlay 0 (take (tot + n) rest) dta0) (omega (arith, full_round more));
      all_came = (full_round more).1;
      more_wanted = (full_round more).2;
    }

  -- What a read leaves, from the state `t` with the buffer `dta0`.
  pub record Done (dta0 : List ℕ) (t t' : Tsr S) : Type 0 where
    pub moved : t'.dta ≡ overlay 0 (take cx rest) dta0
    pub counted : t'.regs ≡ record (t.regs) { cx = length (take cx rest) }
    pub advanced :
        t'.sft
        ≡ update t.sft (es_di t.regs) (record (sft_of t) { file_pos = pos + length (take cx rest) })
    pub still_ready : Ready t'.rpc

  finished-Done :
      (dta0 : List ℕ) (tot : ℕ) (t : Tsr S) (r : Reading dta0 tot t)
      → IsLast dta0 tot t r
      → Done dta0 t (finished dta0 tot t r)
  finished-Done dta0 tot t r last = record {
    moved = merged dta0 tot t r ∙ ap (λ b. overlay 0 b dta0) (last_bytes dta0 tot t r last);
    counted = refl;
    advanced = refl;
    still_ready = (answered dta0 tot t r).1;
  }

  -- Enough fuel ends the loop.
  read_loop-Done :
      (fuel rs rl : ℕ) (dta0 : List ℕ) (tot : ℕ) (t : Tsr S)
      → Reading dta0 tot t
      → cx ≤ tot + fuel
      → (t' : Tsr S) × (read_loop call fuel rs rl tot t ≡ some t') × Done dta0 t t'
  read_loop-Done zero rs rl dta0 tot t r enough = absurd (impossible r.more_wanted enough)
    where
      impossible : tot < cx → cx ≤ tot + 0 → ⊥
      impossible a b = omega arith
  read_loop-Done (suc fuel) rs rl dta0 tot t r enough = elim (last_or_more dta0 tot t r) [
    | inl last ↦ (
      finished dta0 tot t r,
      round dta0 tot t r fuel rs rl ∙ ap continue (next_last dta0 tot t r last),
      finished-Done dta0 tot t r last,
    )
    | inr more ↦
        let (t', runs, done) =
          read_loop-Done fuel 0 (length (came tot)) dta0 (tot + 512) (received tot t)
            (Reading-more dta0 tot t r more) (omega arith) in
        (
          t',
          round dta0 tot t r fuel rs rl ∙ ap continue (next_more dta0 tot t r more) ∙ runs,
          record {
            moved = done.moved;
            counted = done.counted;
            advanced = done.advanced;
            still_ready = done.still_ready;
          },
        )
  ]
    where
      continue : Tsr S ⊎ (ℕ × Tsr S) → Option (Tsr S)
      continue n = elim n [
        | inl t' ↦ some t'
        | inr (tot', t2) ↦ read_loop call fuel 0 (length (came tot)) tot' t2
      ]

  -- Let the handle of the SFT at ES:DI be open for reading at position `pos`, let the server answer
  -- reads of it from `file`, let CX be `cx`, not 0, let positions stay below 2^32, and let the reply
  -- buffer hold 512 bytes. Then AL_READFIL ends, the buffer at the DTA starts with the first `cx`
  -- bytes of the file after `pos` (all there are, if fewer), CX is their number, the position has
  -- moved on by it, and no other register and no other field of an SFT has changed.
  pub al_readfil-Done :
      (undef : ℕ) (t : Tsr S)
      → writing (sft_of t) ≡ 0
      → t.comport ≡ port
      → u8 (sft_of t).start_sector ≡ u8 hid
      → (sft_of t).file_pos ≡ pos
      → t.regs.cx ≡ cx
      → 0 < cx
      → 512 ≤ length t.rep
      → Ready t.rpc
      → (t' : Tsr S) × (al_readfil call undef t ≡ some t') × Done t.dta t t'
  unfolding al_readfil
  al_readfil-Done undef t readable on_port of_handle at count some_wanted roomy ready =
      let (t', runs, done) =
        read_loop-Done cx undef 0 t.dta 0 t
          (record {
            the_port = on_port;
            the_handle = of_handle;
            at_pos = at;
            the_count = count;
            room = roomy;
            is_ready = ready;
            so_far = sym (overlay_nil t.dta);
            all_came = omega arith;
            more_wanted = some_wanted;
          })
          (omega arith) in
      (t', start ∙ ap loop count ∙ runs, done)
    where
      loop : ℕ → Option (Tsr S)
      loop n = read_loop call n undef 0 0 t

      nonzero : (t.regs.cx == 0) ≡ false
      nonzero = ground (arith, some_wanted, count)

      start : al_readfil call undef t ≡ loop t.regs.cx
      start = rw (readable, nonzero)
