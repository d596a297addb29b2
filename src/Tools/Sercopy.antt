-- ===== src/Tools/Sercopy.antt =====
-- dos/tools/sercopy.c: copy a local file to the server.
pub mod Server
pub mod Whole
use serial_dfs.Base.{
  ℕ, zero, suc, ◌+◌, ◌==◌, ltb, not, ◌||◌, if◌then◌else◌, true, false, Option, none, some, List, [],
  ◌∷◌, ◌++◌, byte_at, take, drop, length, replicate, u32,
}
use serial_dfs.Command.{cmd_create, cmd_write, cmd_close}
use serial_dfs.Tools.{
  Driver, line, unknown_port, unsupported_baud, parse_line, rooted, Answer, failed, replied, Run,
  rpc,
}

-- What SERCOPY prints; `dot` is the progress of one write.
pub data Said : Type 0 where
  usage : Said
  unknown : List ℕ → Said
  unsupported : List ℕ → Said
  no_source : List ℕ → Said
  timeout_create : Said
  create_error : ℕ → Said
  missing_handle : Said
  timeout_write : Said
  write_error : ℕ → Said
  dot : Said
  close_failed : Said
  copied : ℕ → List ℕ → Said

module _ {S : Type 0} (d : Driver S) (port : ℕ) (dst_path : List ℕ) where
  -- From the CMD_CLOSE at the end on.
  pub finish : ℕ → List ℕ → List Said → ℕ → S → Run Said S
  finish hid buf said n s =
      let (answer, s') = rpc d port cmd_close (hid ∷ []) buf s in
      let warned : Run Said S = record { exit = 1; said = said ++ close_failed ∷ []; state = s' } in
      elim answer [
        | failed ↦ warned
        | replied st len buf' ↦
            if not (st == 0)
            then warned
            else record { exit = 0; said = said ++ copied n dst_path ∷ []; state = s' }
      ]

  -- The loop of writes, with fuel: `none` says that it ran out. `fp` is what `fread` has not given
  -- out yet, and `n` is `total`.
  pub write_loop : ℕ → ℕ → List ℕ → List ℕ → List Said → ℕ → S → Option (Run Said S)
  write_loop zero hid fp buf said n s = none
  write_loop (suc fuel) hid fp buf said n s =
      let chunk = take 511 fp in
      let (answer, s') = rpc d port cmd_write (hid ∷ chunk) buf s in
      elim (length chunk == 0) [
        | true ↦ some (finish hid buf said n s)
        | false ↦ elim answer [
          | failed ↦ some (record { exit = 1; said = said ++ timeout_write ∷ []; state = s' })
          | replied st len buf' ↦ elim (st == 0) [
            | false ↦ some (record { exit = 1; said = said ++ write_error st ∷ []; state = s' })
            | true ↦
                write_loop fuel hid (drop 511 fp) buf' (said ++ dot ∷ []) (u32 (n + length chunk))
                  s'
          ]
        ]
      ]

  -- What follows the CMD_CREATE.
  pub copy_file : ℕ → List ℕ → Answer × S → Option (Run Said S)
  copy_file fuel fp (failed, s) = some (record { exit = 1; said = timeout_create ∷ []; state = s })
  copy_file fuel fp (replied st len buf, s) =
      if not (st == 0)
      then some (record { exit = 1; said = create_error st ∷ []; state = s })
      else if ltb len 1
      then some (record { exit = 1; said = missing_handle ∷ []; state = s })
      else write_loop fuel (byte_at buf 0) fp buf [] 0 s

-- `main` on `argv[1]` and the arguments behind it. `fopen` gives the bytes of a local file, if it
-- can be opened.
pub main :
    {S : Type 0}
    → Driver S
    → (List ℕ → Option (List ℕ))
    → ℕ
    → List (List ℕ)
    → S
    → Option (Run Said S)
main d fopen fuel (port ∷ baud ∷ src_path ∷ dst_path ∷ _) s = elim (parse_line port baud) [
  | unknown_port p ↦ some (record { exit = 1; said = unknown p ∷ []; state = s })
  | unsupported_baud b ↦ some (record { exit = 1; said = unsupported b ∷ []; state = s })
  | line n div ↦
      let s1 = d.drain n (d.init n div s) in
      elim (fopen src_path) [
        | none ↦ some (record { exit = 1; said = no_source src_path ∷ []; state = s })
        | some fp ↦
            copy_file d n dst_path fuel fp
              (rpc d n cmd_create (1 ∷ rooted dst_path ++ 0 ∷ []) (replicate 512 0) s1)
      ]
]
main d fopen fuel _ s = some (record { exit = 1; said = usage ∷ []; state = s })
