-- ===== src/Tools/Sertype.antt =====
-- dos/tools/sertype.c: print a remote file.
pub mod Whole
use serial_dfs.Base.{
  ℕ, zero, suc, ◌+◌, ◌==◌, ltb, not, ◌||◌, if◌then◌else◌, Bool, true, false, Option, none, some,
  List, [], ◌∷◌, ◌++◌, byte_at, take, replicate, u32,
}
use serial_dfs.Command.{cmd_open, cmd_read, cmd_close}
use serial_dfs.Tools.{
  Driver, line, unknown_port, unsupported_baud, parse_line, rooted, Answer, failed, replied, Run,
  rpc,
}

-- What SERTYPE prints, on either stream; `bytes` is the `fwrite` of a part of the file.
pub data Said : Type 0 where
  usage : Said
  unknown : List ℕ → Said
  unsupported : List ℕ → Said
  timeout_open : Said
  not_found : List ℕ → Said
  open_error : ℕ → Said
  missing_handle : Said
  timeout_read : Said
  read_error : ℕ → Said
  bytes : List ℕ → Said
  close_failed : Said
  total : ℕ → Said

-- `rc == SERRPC_OK && reply_status == STATUS_OK`.
pub answered_ok : Answer → Bool
answered_ok failed = false
answered_ok (replied st len buf) = st == 0

module _ {S : Type 0} (d : Driver S) (port : ℕ) where
  -- CMD_CLOSE, whose answer only the last one of the program looks at.
  pub close : ℕ → List ℕ → S → Answer × S
  close hid buf s = rpc d port cmd_close (hid ∷ []) buf s

  -- From the close at the end of the file on.
  pub finish : ℕ → List ℕ → List Said → ℕ → S → Run Said S
  finish hid buf said n s =
      let (answer, s') = close hid buf s in
      let warned = if answered_ok answer then said else said ++ close_failed ∷ [] in
      record { exit = 0; said = warned ++ total n ∷ []; state = s' }

  -- The loop of reads, with fuel: `none` says that it ran out. `n` is `total`.
  pub read_loop : ℕ → ℕ → List ℕ → List Said → ℕ → S → Option (Run Said S)
  read_loop zero hid buf said n s = none
  read_loop (suc fuel) hid buf said n s =
      let (answer, s') = rpc d port cmd_read (hid ∷ 0 ∷ 2 ∷ []) buf s in
      elim answer [
        | failed ↦
            some
              (record { exit = 1; said = said ++ timeout_read ∷ []; state = (close hid buf s').1 })
        | replied st len buf' ↦ elim (st == 0) [
          | false ↦ some (record {
            exit = 1;
            said = said ++ read_error st ∷ [];
            state = (close hid buf' s').1;
          })
          | true ↦ elim (len == 0) [
            | true ↦ some (finish hid buf' said n s')
            | false ↦
                read_loop fuel hid buf' (said ++ bytes (take len buf') ∷ []) (u32 (n + len)) s'
          ]
        ]
      ]

  -- What follows the CMD_OPEN of `filename`.
  pub type_file : ℕ → List ℕ → Answer × S → Option (Run Said S)
  type_file fuel filename (failed, s) =
      some (record { exit = 1; said = timeout_open ∷ []; state = s })
  type_file fuel filename (replied st len buf, s) =
      if st == 1
      then some (record { exit = 1; said = not_found filename ∷ []; state = s })
      else if not (st == 0)
      then some (record { exit = 1; said = open_error st ∷ []; state = s })
      else if ltb len 1
      then some (record { exit = 1; said = missing_handle ∷ []; state = s })
      else read_loop fuel (byte_at buf 0) buf [] 0 s

-- `main` on `argv[1]` and the arguments behind it.
pub main : {S : Type 0} → Driver S → ℕ → List (List ℕ) → S → Option (Run Said S)
main d fuel (port ∷ baud ∷ filename ∷ _) s = elim (parse_line port baud) [
  | unknown_port p ↦ some (record { exit = 1; said = unknown p ∷ []; state = s })
  | unsupported_baud b ↦ some (record { exit = 1; said = unsupported b ∷ []; state = s })
  | line n div ↦
      let s1 = d.drain n (d.init n div s) in
      type_file d n fuel filename
        (rpc d n cmd_open (0 ∷ rooted filename ++ 0 ∷ []) (replicate 512 0) s1)
]
main d fuel _ s = some (record { exit = 1; said = usage ∷ []; state = s })
