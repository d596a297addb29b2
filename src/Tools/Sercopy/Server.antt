-- ===== src/Tools/Sercopy/Server.antt =====
-- The server that SERCOPY copies to, and the rounds of its loop there.
use serial_dfs.Base.{
  ℕ, suc, ◌+◌, ◌≤◌, ◌<◌, ◌==◌, not, if◌then◌else◌, true, false, Bool, Option, some, List, [], ◌∷◌,
  ◌++◌, u32, length, take, drop, replicate, overlay, ◌≡◌, ◌≢◌, refl, ap, ◌∙◌,
}
use serial_dfs.Command.{cmd_write, cmd_close}
use serial_dfs.Rpc.{ok}
use serial_dfs.Tools.{Driver, Run, Answer, failed, replied}
use serial_dfs.Tools.Answers.{rpc-ok}
use serial_dfs.Tools.Sercopy.{
  Said, dot, copied, timeout_write, write_error, close_failed, finish, write_loop, copy_file,
}

-- A server whose file, open under the handle `hid`, takes up to `capacity` bytes; it holds the
-- bytes `w` in the state `storing w`. A write that does not fit is answered with `error`.
pub record Stores {S : Type 0} (d : Driver S) (port hid capacity error : ℕ)
    (storing refusing closed : List ℕ → S) : Type 0 where
  pub takes :
      (w c : List ℕ)
      → length c ≤ 511
      → length w + length c ≤ capacity
      → (p : List ℕ) × (d.call port cmd_write (hid ∷ c) (storing w) ≡ (ok 0 p, storing (w ++ c)))
  pub refuses :
      (w c : List ℕ)
      → length c ≤ 511
      → capacity < length w + length c
      → (p : List ℕ) × (d.call port cmd_write (hid ∷ c) (storing w) ≡ (ok error p, refusing w))
  pub closes : (w : List ℕ) → d.call port cmd_close (hid ∷ []) (storing w) ≡ (ok 0 [], closed w)
  pub is_error : error ≢ 0

module _ {S : Type 0} (d : Driver S) (port : ℕ) (dst_path : List ℕ) (hid : ℕ) where
  -- One round of the loop after an answered WRITE of a part that is not empty.
  pub write_round :
      (fuel : ℕ) (fp buf : List ℕ) (said : List Said) (n : ℕ) (s : S) {st : ℕ} {p : List ℕ} {s' : S}
      → (length (take 511 fp) == 0) ≡ false
      → d.call port cmd_write (hid ∷ take 511 fp) s ≡ (ok st p, s')
      → write_loop d port dst_path (suc fuel) hid fp buf said n s ≡ (
          if st == 0
          then write_loop d port dst_path fuel hid
              (drop 511 fp)
              (overlay 0 p buf)
              (said ++ dot ∷ [])
              (u32 (n + length (take 511 fp)))
              s'
          else some (record { exit = 1; said = said ++ write_error st ∷ []; state = s' }))
  unfolding write_loop
  write_round fuel fp buf said n s {st} {p} {s'} some_left e =
      rw (write_loop, some_left)
        (ap asked (rpc-ok d port cmd_write (hid ∷ take 511 fp) buf s e) ∙ by_status (st == 0))
    where
      on_ok : ℕ → List ℕ → S → Option (Run Said S)
      on_ok st buf' s1 =
          write_loop d port dst_path fuel hid (drop 511 fp) buf' (said ++ dot ∷ [])
            (u32 (n + length (take 511 fp))) s1

      on_error : ℕ → S → Option (Run Said S)
      on_error st s1 = some (record { exit = 1; said = said ++ write_error st ∷ []; state = s1 })

      by_case : Bool → ℕ → List ℕ → S → Option (Run Said S)
      by_case b st buf' s1 = elim b [ false ↦ on_error st s1 | true ↦ on_ok st buf' s1 ]

      asked : Answer × S → Option (Run Said S)
      asked r = elim (r.0) [
        | failed ↦ some (record { exit = 1; said = said ++ timeout_write ∷ []; state = r.1 })
        | replied st len buf' ↦ by_case (st == 0) st buf' r.1
      ]

      by_status :
          (b : Bool)
          → by_case b st (overlay 0 p buf) s'
            ≡ (if b then on_ok st (overlay 0 p buf) s' else on_error st s')
      by_status true = refl
      by_status false = refl

  pub write_end :
      (fuel : ℕ) (buf : List ℕ) (said : List Said) (n : ℕ) (s : S)
      → write_loop d port dst_path (suc fuel) hid [] buf said n s
        ≡ some (finish d port dst_path hid buf said n s)
  unfolding write_loop
  write_end fuel buf said n s = refl

  pub copy_file_run :
      (fuel : ℕ) (file : List ℕ) (s : S)
      → copy_file d port dst_path fuel file
          (replied 0 1 (overlay 0 (hid ∷ []) (replicate 512 0)), s)
        ≡ write_loop d port dst_path fuel hid file (hid ∷ replicate 511 0) [] 0 s
  unfolding copy_file
  copy_file_run fuel file s = refl

  pub finish_run :
      (buf : List ℕ) (said : List Said) (n : ℕ) (s s' : S)
      → d.call port cmd_close (hid ∷ []) s ≡ (ok 0 [], s')
      → finish d port dst_path hid buf said n s
        ≡ record { exit = 0; said = said ++ copied n dst_path ∷ []; state = s' }
  unfolding finish
  finish_run buf said n s s' e = ap after (rpc-ok d port cmd_close (hid ∷ []) buf s e)
    where
      warned : S → Run Said S
      warned s1 = record { exit = 1; said = said ++ close_failed ∷ []; state = s1 }

      after : Answer × S → Run Said S
      after r = elim (r.0) [
        | failed ↦ warned r.1
        | replied st len buf' ↦
            if not (st == 0)
            then warned r.1
            else record { exit = 0; said = said ++ copied n dst_path ∷ []; state = r.1 }
      ]
