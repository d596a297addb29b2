-- ===== src/Tools/Sercopy/Whole.antt =====
-- SERCOPY on a server with room for so many bytes.
use serial_dfs.Base.{
  ℕ, zero, suc, ◌+◌, ◌*◌, ◌≤◌, ◌<◌, ◌==◌, min, leb, false, Bool-cases, leb→le, leb→lt, inl, inr,
  Option, some, List, [], ◌∷◌, ◌++◌, append-nil, append_assoc, u32, length, take, drop, replicate,
  overlay, length-take, length-drop, length-append, take-append-drop, take-take-drop, ◌≡◌, sym, ap,
  ap₂, ◌∙◌, arith,
}
use serial_dfs.Command.{cmd_create}
use serial_dfs.Rpc.{ok}
use serial_dfs.Tools.{Driver, Run, line, parse_line, rooted}
use serial_dfs.Tools.Answers.{rpc-ok}
use serial_dfs.Tools.Sercopy.{Said, dot, copied, write_error, write_loop, copy_file, main}
use serial_dfs.Tools.Sercopy.Server.{Stores, write_round, write_end, copy_file_run, finish_run}

module _ {S : Type 0} (d : Driver S) (port : ℕ) (dst_path : List ℕ) (hid capacity error : ℕ)
    (storing refusing closed : List ℕ → S)
    (server : Stores d port hid capacity error storing refusing closed) where
  -- The file fits: what is written from `fp` on, after `w`.
  Copies : Option (Run Said S) → List Said → List ℕ → ℕ → Type 0
  Copies run said whole n =
      (dots : ℕ) × (run
        ≡ some (record {
          exit = 0;
          said = said ++ (replicate dots dot ++ copied n dst_path ∷ []);
          state = closed whole;
        }))

  -- The file does not fit: the run ends at the write that the server refuses.
  Stops : Option (Run Said S) → List Said → List ℕ → Type 0
  Stops run said part =
      (dots : ℕ) × (run
        ≡ some (record {
          exit = 1;
          said = said ++ (replicate dots dot ++ write_error error ∷ []);
          state = refusing part;
        }))

  loop-Copies :
      (fuel : ℕ) (w fp buf : List ℕ) (said : List Said) (n : ℕ)
      → length w + length fp ≤ capacity
      → length fp + 511 ≤ fuel * 511
      → Copies
          (write_loop d port dst_path fuel hid fp buf said (u32 n) (storing w))
          said
          (w ++ fp)
          (u32 (n + length fp))
  unfolding Copies
  loop-Copies zero w fp buf said n fits enough = absurd (omega arith)
  loop-Copies (suc fuel) w [] buf said n fits enough = (
    0,
    write_end d port dst_path hid fuel buf said (u32 n) (storing w)
        ∙ ap some (
            finish_run d port dst_path hid buf said (u32 n) (storing w) (closed w)
              (server.closes w))
        ∙ ap₂
            (λ k v.
              some (record { exit = 0; said = said ++ copied k dst_path ∷ []; state = closed v }))
            (omega arith) (sym (append-nil w)),
  )
  loop-Copies (suc fuel) w (x ∷ xs) buf said n fits enough =
      let (p, e) = server.takes w c (omega (arith, length_c)) (omega (arith, length_c)) in
      let (dots, run) =
        loop-Copies fuel (w ++ c) (drop 511 (x ∷ xs)) (overlay 0 p buf) (said ++ dot ∷ [])
          (u32 n + length c) (omega (arith, length-append w c, length-drop 511 (x ∷ xs), length_c))
          (omega (arith, length-drop 511 (x ∷ xs))) in
      (
        suc dots,
        write_round d port dst_path hid fuel (x ∷ xs) buf said (u32 n) (storing w)
              (ground (arith, length_c)) e
            ∙ run
            ∙ ap₂ done
                (append_assoc said (dot ∷ []) (replicate dots dot ++ copied _ dst_path ∷ [])
                  ∙ ap (λ k. said ++ (dot ∷ (replicate dots dot ++ copied k dst_path ∷ [])))
                      (omega (arith, length_c, length-drop 511 (x ∷ xs))))
                (append_assoc w c (drop 511 (x ∷ xs))
                  ∙ ap (λ v. w ++ v) (take-append-drop 511 (x ∷ xs))),
      )
    where
      c : List ℕ
      c = take 511 (x ∷ xs)

      length_c : length c ≡ min 511 (length (x ∷ xs))
      length_c = length-take 511 (x ∷ xs)

      done : List Said → List ℕ → Option (Run Said S)
      done out whole = some (record { exit = 0; said = out; state = closed whole })

  loop-Stops :
      (fuel : ℕ) (w fp buf : List ℕ) (said : List Said) (n : ℕ)
      → length w ≤ capacity
      → capacity < length w + length fp
      → length fp + 511 ≤ fuel * 511
      → (k : ℕ) × (length w + k ≤ capacity)
        × (capacity < length w + k + 511)
        × Stops
            (write_loop d port dst_path fuel hid fp buf said n (storing w))
            said
            (w ++ take k fp)
  unfolding Stops
  loop-Stops zero w fp buf said n room over enough = absurd (omega arith)
  loop-Stops (suc fuel) w [] buf said n room over enough = absurd (omega arith)
  loop-Stops (suc fuel) w (x ∷ xs) buf said n room over enough =
      elim (Bool-cases (leb (length w + length c) capacity)) [
        | inl fits ↦
            let (p, e) =
              server.takes w c (omega (arith, length_c))
                (leb→le (length w + length c) capacity fits) in
            let (k, lo, hi, stopped_run) =
              loop-Stops fuel (w ++ c) (drop 511 (x ∷ xs)) (overlay 0 p buf) (said ++ dot ∷ [])
                (u32 (n + length c))
                (omega (arith, leb→le (length w + length c) capacity fits, length-append w c))
                (omega (arith, length-append w c, length-drop 511 (x ∷ xs), length_c))
                (omega (arith, length-drop 511 (x ∷ xs))) in
            let (dots, run) = stopped_run in
            (
              511 + k,
              omega (
                arith,
                leb→le (length w + length c) capacity fits,
                lo,
                length-append w c,
                length_c,
              ),
              omega (
                arith,
                leb→le (length w + length c) capacity fits,
                hi,
                length-append w c,
                length_c,
              ),
              (
                suc dots,
                write_round d port dst_path hid fuel (x ∷ xs) buf said n (storing w) not_empty e
                    ∙ run
                    ∙ ap₂ stopped
                        (append_assoc said (dot ∷ [])
                          (replicate dots dot ++ write_error error ∷ []))
                        (append_assoc w c (take k (drop 511 (x ∷ xs)))
                          ∙ ap (λ v. w ++ v) (take-take-drop 511 k (x ∷ xs))),
              ),
            )
        | inr full ↦
            let (p, e) =
              server.refuses w c (omega (arith, length_c))
                (leb→lt (length w + length c) capacity full) in
            (
              0,
              omega arith,
              omega (arith, leb→lt (length w + length c) capacity full, length_c),
              (
                0,
                write_round d port dst_path hid fuel (x ∷ xs) buf said n (storing w) not_empty e
                    ∙ rw status_is
                        (ap (stopped (said ++ write_error error ∷ [])) (sym (append-nil w))),
              ),
            )
      ]
    where
      c : List ℕ
      c = take 511 (x ∷ xs)

      length_c : length c ≡ min 511 (length (x ∷ xs))
      length_c = length-take 511 (x ∷ xs)

      status_is : (error == 0) ≡ false
      status_is = ground (arith, server.is_error)

      stopped : List Said → List ℕ → Option (Run Said S)
      stopped out part = some (record { exit = 1; said = out; state = refusing part })

      not_empty : (length c == 0) ≡ false
      not_empty = ground (arith, length_c)

-- SERCOPY of a local file for which the server has room, with fuel for one write more than the file
-- has parts of 511 bytes: it ends with the exit code 0, the server holds exactly the bytes of the
-- file and has closed it, and the last line gives their number on 32 bits.
pub main-copies_file :
    {S : Type 0} (d : Driver S) (fopen : List ℕ → Option (List ℕ))
    (port baud src_path dst_path file : List ℕ) (n div hid fuel capacity error : ℕ)
    (storing refusing closed : List ℕ → S) (s : S)
    → parse_line port baud ≡ line n div
    → fopen src_path ≡ some file
    → d.call n cmd_create (1 ∷ rooted dst_path ++ 0 ∷ []) (d.drain n (d.init n div s))
      ≡ (ok 0 (hid ∷ []), storing [])
    → Stores d n hid capacity error storing refusing closed
    → length file ≤ capacity
    → length file + 511 ≤ fuel * 511
    → (dots : ℕ) × (main d fopen fuel (port ∷ baud ∷ src_path ∷ dst_path ∷ []) s
        ≡ some (record {
          exit = 0;
          said = replicate dots dot ++ copied (u32 (length file)) dst_path ∷ [];
          state = closed file;
        }))
unfolding main Copies
main-copies_file {S = S} d fopen port baud src_path dst_path file n div hid fuel capacity error
      storing refusing closed s here found created server fits enough =
    let (dots, run) =
      loop-Copies d n dst_path hid capacity error storing refusing closed server fuel [] file
        (hid ∷ replicate 511 0) [] 0 (omega arith) enough in
    (
      dots,
      rw (main, here, found)
          (ap (copy_file d n dst_path fuel file) (
              rpc-ok d n cmd_create (1 ∷ rooted dst_path ++ 0 ∷ []) (replicate 512 0)
                (d.drain n (d.init n div s)) created)
            ∙ copy_file_run d n dst_path hid fuel file (storing [])
            ∙ run
            ∙ ap (ended dots) (omega arith)),
    )
  where
    ended : ℕ → ℕ → Option (Run Said S)
    ended dots k = some (record {
      exit = 0;
      said = replicate dots dot ++ copied k dst_path ∷ [];
      state = closed file;
    })

-- SERCOPY of a local file for which the server has no room, with the same fuel: it ends with the
-- exit code 1 and the error of the write that does not fit. The server holds the first bytes of
-- the file, up to less than 511 short of what it has room for, and is left in the state of that
-- write: no CMD_CLOSE follows, and the handle stays open.
pub main-no_room :
    {S : Type 0} (d : Driver S) (fopen : List ℕ → Option (List ℕ))
    (port baud src_path dst_path file : List ℕ) (n div hid fuel capacity error : ℕ)
    (storing refusing closed : List ℕ → S) (s : S)
    → parse_line port baud ≡ line n div
    → fopen src_path ≡ some file
    → d.call n cmd_create (1 ∷ rooted dst_path ++ 0 ∷ []) (d.drain n (d.init n div s))
      ≡ (ok 0 (hid ∷ []), storing [])
    → Stores d n hid capacity error storing refusing closed
    → capacity < length file
    → length file + 511 ≤ fuel * 511
    → (k : ℕ) × (k ≤ capacity)
      × (capacity < k + 511)
      × (dots : ℕ) × (main d fopen fuel (port ∷ baud ∷ src_path ∷ dst_path ∷ []) s
          ≡ some (record {
            exit = 1;
            said = replicate dots dot ++ write_error error ∷ [];
            state = refusing (take k file);
          }))
unfolding main Stops
main-no_room d fopen port baud src_path dst_path file n div hid fuel capacity error storing refusing
      closed s here found created server over enough =
    let (k, lo, hi, stopped_run) =
      loop-Stops d n dst_path hid capacity error storing refusing closed server fuel [] file
        (hid ∷ replicate 511 0) [] 0 (omega arith) (omega arith) enough in
    let (dots, run) = stopped_run in
    (
      k,
      omega (arith, lo),
      omega (arith, hi),
      dots,
      rw (main, here, found)
          (ap (copy_file d n dst_path fuel file) (
              rpc-ok d n cmd_create (1 ∷ rooted dst_path ++ 0 ∷ []) (replicate 512 0)
                (d.drain n (d.init n div s)) created)
            ∙ copy_file_run d n dst_path hid fuel file (storing [])
            ∙ run),
    )
