-- ===== src/Tools/Serdel.antt =====
-- dos/tools/serdel.c: delete a remote file.
use serial_dfs.Base.{ℕ, ◌==◌, if◌then◌else◌, List, [], ◌∷◌, ◌++◌, replicate}
use serial_dfs.Command.{cmd_delete}
use serial_dfs.Tools.{
  Driver, line, unknown_port, unsupported_baud, parse_line, Answer, failed, replied, Run, rpc,
}

pub data Said : Type 0 where
  usage : Said
  unknown : List ℕ → Said
  unsupported : List ℕ → Said
  transport_timeout : Said
  deleted : List ℕ → Said
  not_found : List ℕ → Said
  access_denied : List ℕ → Said
  server_error : ℕ → Said

-- The message of the `switch`; the exit code is 0 only for STATUS_OK.
pub report : {S : Type 0} → List ℕ → Answer × S → Run Said S
report path (failed, s) = record { exit = 1; said = transport_timeout ∷ []; state = s }
report path (replied st len buf, s) =
    if st == 0 then record { exit = 0; said = deleted path ∷ []; state = s } else record {
      exit = 1;
      said =
          (if st == 1
            then not_found path
            else if st == 2
            then access_denied path
            else server_error st)
          ∷ [];
      state = s;
    }

-- `main` on `argv[1]` and the arguments behind it.
pub main : {S : Type 0} → Driver S → List (List ℕ) → S → Run Said S
main d (port ∷ baud ∷ remote_path ∷ _) s = elim (parse_line port baud) [
  | unknown_port p ↦ record { exit = 1; said = unknown p ∷ []; state = s }
  | unsupported_baud b ↦ record { exit = 1; said = unsupported b ∷ []; state = s }
  | line n div ↦ report remote_path (
      rpc d n cmd_delete (b'X' ∷ remote_path ++ 0 ∷ []) (replicate 512 0)
        (d.drain n (d.init n div s)))
]
main d _ s = record { exit = 1; said = usage ∷ []; state = s }
