-- ===== src/Tools/Sertype/Whole.antt =====
-- SERTYPE on a server that keeps the position of an open file.
use serial_dfs.Base.{
  ℕ, zero, suc, ◌+◌, ◌-◌, ◌*◌, ◌≤◌, ◌==◌, min, if◌then◌else◌, true, false, Bool, Bool-cases, inl,
  inr, Option, some, List, [], ◌∷◌, ◌++◌, map, append_assoc, u32, length, take, drop, replicate,
  overlay, take-overlay, length-overlay, length-take, length-drop, drop-drop, drop_all,
  take-drop_taken, ◌≡◌, refl, sym, ap, ◌∙◌, arith,
}
use serial_dfs.Command.{cmd_open, cmd_read, cmd_close}
use serial_dfs.Rpc.{ok}
use serial_dfs.Tools.{Driver, Run, Answer, failed, replied, line, parse_line, rooted, joined}
use serial_dfs.Tools.Answers.{rpc-ok}
use serial_dfs.Tools.Sertype.{
  Said, bytes, total, timeout_read, read_error, close, answered_ok, close_failed, finish, read_loop,
  type_file, main,
}

-- The server holds the bytes `file` open under the handle `hid`, in the states `reading p` for the
-- positions `p`; a READ of 512 bytes gives what is left, up to 512 bytes, and moves the position.
pub record Serves {S : Type 0} (d : Driver S) (port hid : ℕ) (file : List ℕ) (reading : ℕ → S)
    (closed : S) : Type 0 where
  pub reads :
      (p : ℕ)
      → p ≤ length file
      → d.call port cmd_read (hid ∷ 0 ∷ 2 ∷ []) (reading p)
        ≡ (ok 0 (take 512 (drop p file)), reading (p + length (take 512 (drop p file))))
  pub closes : d.call port cmd_close (hid ∷ []) (reading (length file)) ≡ (ok 0 [], closed)

module _ {S : Type 0} (d : Driver S) (port hid : ℕ) (file : List ℕ) (reading : ℕ → S) (closed : S)
    (server : Serves d port hid file reading closed) where
  -- One round of the loop after a READ that is answered with STATUS_OK.
  read_round :
      (fuel : ℕ) (buf : List ℕ) (said : List Said) (n : ℕ) (s : S) {c : List ℕ} {s' : S}
      → d.call port cmd_read (hid ∷ 0 ∷ 2 ∷ []) s ≡ (ok 0 c, s')
      → length c ≤ length buf
      → read_loop d port (suc fuel) hid buf said n s ≡ (
          if length c == 0
          then some (finish d port hid (overlay 0 c buf) said n s')
          else read_loop d port fuel hid
              (overlay 0 c buf)
              (said ++ bytes c ∷ [])
              (u32 (n + length c))
              s')
  unfolding read_loop
  read_round fuel buf said n s {c} {s'} e room =
      ap asked (rpc-ok d port cmd_read (hid ∷ 0 ∷ 2 ∷ []) buf s e) ∙ by_end (length c == 0)
    where
      next : List ℕ → S → ℕ → List ℕ → Option (Run Said S)
      next buf' s1 len part =
          read_loop d port fuel hid buf' (said ++ bytes part ∷ []) (u32 (n + len)) s1

      at_end : Bool → Option (Run Said S) → Option (Run Said S) → Option (Run Said S)
      at_end b x y = elim b [ true ↦ x | false ↦ y ]

      asked : Answer × S → Option (Run Said S)
      asked r = elim (r.0) [
        | failed ↦ some (record {
          exit = 1;
          said = said ++ timeout_read ∷ [];
          state = (close d port hid buf r.1).1;
        })
        | replied st len buf' ↦ elim (st == 0) [
          | false ↦ some (record {
            exit = 1;
            said = said ++ read_error st ∷ [];
            state = (close d port hid buf' r.1).1;
          })
          | true ↦
              at_end (len == 0) (some (finish d port hid buf' said n r.1))
                (next buf' r.1 len (take len buf'))
        ]
      ]

      by_end :
          (b : Bool)
          → at_end b
              (some (finish d port hid (overlay 0 c buf) said n s'))
              (next (overlay 0 c buf) s' (length c) (take (length c) (overlay 0 c buf)))
            ≡ (if b
                then some (finish d port hid (overlay 0 c buf) said n s')
                else next (overlay 0 c buf) s' (length c) c)
      by_end true = refl
      by_end false = ap (next (overlay 0 c buf) s' (length c)) (take-overlay c buf room)

  finish_run :
      (buf : List ℕ) (said : List Said) (n : ℕ)
      → finish d port hid buf said n (reading (length file))
        ≡ record { exit = 0; said = said ++ total n ∷ []; state = closed }
  unfolding finish close answered_ok
  finish_run buf said n =
      ap after (rpc-ok d port cmd_close (hid ∷ []) buf (reading (length file)) server.closes)
    where
      after : Answer × S → Run Said S
      after r =
          let warned = if answered_ok r.0 then said else said ++ close_failed ∷ [] in
          record { exit = 0; said = warned ++ total n ∷ []; state = r.1 }

  -- What is printed from the position `p` on, after `said`.
  Prints : Option (Run Said S) → List Said → ℕ → Type 0
  Prints run said p =
      (chunks : List (List ℕ)) × (joined chunks ≡ drop p file)
      × (run
          ≡ some (record {
            exit = 0;
            said = said ++ (map bytes chunks ++ total (u32 (length file)) ∷ []);
            state = closed;
          }))

  loop-Prints :
      (fuel p : ℕ) (buf : List ℕ) (said : List Said)
      → p ≤ length file
      → length file - p + 512 ≤ fuel * 512
      → length buf ≡ 512
      → Prints (read_loop d port fuel hid buf said (u32 p) (reading p)) said p
  unfolding Prints joined
  loop-Prints zero p buf said within enough room = absurd (omega arith)
  loop-Prints (suc fuel) p buf said within enough room = elim (Bool-cases (length c == 0)) [
    | inl none_left ↦
        let at_end : p ≡ length file = ground (arith, none_left, length_c) in
        let here : p + length c ≡ length file = ground (arith, none_left, at_end) in
        (
          [],
          sym (drop_all p file (omega (arith, at_end))),
          round
              ∙ rw none_left (
                  ap (λ k. some (finish d port hid (overlay 0 c buf) said (u32 p) (reading k))) here
                  ∙ ap some (finish_run (overlay 0 c buf) said (u32 p))
                  ∙ ap
                      (λ k.
                        some
                          (record { exit = 0; said = said ++ total (u32 k) ∷ []; state = closed }))
                      at_end),
        )
    | inr some_left ↦
        let (chunks, all, run) =
          loop-Prints fuel (p + length c) (overlay 0 c buf) (said ++ bytes c ∷ [])
            (omega (arith, length_c)) (ground (arith, length_c, some_left))
            (length-overlay 0 c buf ∙ room) in
        (
          c ∷ chunks,
          ap (λ t. c ++ t) (all ∙ sym (drop-drop p (length c) file))
              ∙ take-drop_taken 512 (drop p file),
          round ∙ rw some_left (continued chunks run),
        )
  ]
    where
      c : List ℕ
      c = take 512 (drop p file)

      length_c : length c ≡ min 512 (length file - p)
      length_c = length-take 512 (drop p file) ∙ ap (min 512) (length-drop p file)

      next : ℕ → Option (Run Said S)
      next n =
          read_loop d port fuel hid (overlay 0 c buf) (said ++ bytes c ∷ []) n
            (reading (p + length c))

      printed : List Said → Option (Run Said S)
      printed out = some (record { exit = 0; said = out; state = closed })

      continued :
          (chunks : List (List ℕ))
          → next (u32 (p + length c))
            ≡ printed
                ((said ++ bytes c ∷ []) ++ (map bytes chunks ++ total (u32 (length file)) ∷ []))
          → next (u32 (u32 p + length c))
            ≡ printed (said ++ (bytes c ∷ map bytes chunks ++ total (u32 (length file)) ∷ []))
      continued chunks run =
          ap next (omega arith)
          ∙ run
          ∙ ap printed (
              append_assoc said (bytes c ∷ []) (map bytes chunks ++ total (u32 (length file)) ∷ []))

      round : read_loop d port (suc fuel) hid buf said (u32 p) (reading p) ≡ (
          if length c == 0
          then some (finish d port hid (overlay 0 c buf) said (u32 p) (reading (p + length c)))
          else read_loop d port fuel hid
              (overlay 0 c buf)
              (said ++ bytes c ∷ [])
              (u32 (u32 p + length c))
              (reading (p + length c)))
      round =
          read_round fuel buf said (u32 p) (reading p) (server.reads p within)
            (omega (arith, length_c, room))

  type_file-Prints :
      (fuel : ℕ) (filename buf : List ℕ)
      → length file + 512 ≤ fuel * 512
      → length buf ≡ 512
      → Prints
          (type_file d port fuel filename (replied 0 1 (overlay 0 (hid ∷ []) buf), reading 0))
          []
          0
  unfolding type_file Prints
  type_file-Prints fuel filename [] enough room = absurd (omega arith)
  type_file-Prints fuel filename (y ∷ ys) enough room =
      let (chunks, all, run) =
        loop-Prints fuel 0 (overlay 0 (hid ∷ []) (y ∷ ys)) [] (omega arith) (omega arith)
          (length-overlay 0 (hid ∷ []) (y ∷ ys) ∙ room) in
      (chunks, all, run)

-- SERTYPE on a server that opens the file and keeps its position: with fuel for one read more than
-- the file has parts of 512 bytes, it ends with the exit code 0, what it printed is the file, in
-- parts, and then the number of its bytes on 32 bits, and the handle is closed.
pub main-prints_file :
    {S : Type 0} (d : Driver S) (port baud filename file : List ℕ) (n div hid fuel : ℕ)
    (reading : ℕ → S) (closed s : S)
    → parse_line port baud ≡ line n div
    → d.call n cmd_open (0 ∷ rooted filename ++ 0 ∷ []) (d.drain n (d.init n div s))
      ≡ (ok 0 (hid ∷ []), reading 0)
    → Serves d n hid file reading closed
    → length file + 512 ≤ fuel * 512
    → (chunks : List (List ℕ)) × (joined chunks ≡ file)
      × (main d fuel (port ∷ baud ∷ filename ∷ []) s
          ≡ some (record {
            exit = 0;
            said = map bytes chunks ++ total (u32 (length file)) ∷ [];
            state = closed;
          }))
unfolding main Prints
main-prints_file d port baud filename file n div hid fuel reading closed s here opened server
      enough =
    let (chunks, all, run) =
      type_file-Prints d n hid file reading closed server fuel filename (replicate 512 0) enough
        refl in
    (
      chunks,
      all,
      rw (main, here)
          (ap (type_file d n fuel filename) (
              rpc-ok d n cmd_open (0 ∷ rooted filename ++ 0 ∷ []) (replicate 512 0)
                (d.drain n (d.init n div s)) opened)
            ∙ run),
    )
