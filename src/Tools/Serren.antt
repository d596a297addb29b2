-- ===== src/Tools/Serren.antt =====
-- dos/tools/serren.c: rename a remote file.
pub mod Request
use serial_dfs.Base.{ℕ, ◌+◌, ◌==◌, ltb, if◌then◌else◌, List, [], ◌∷◌, ◌++◌, length, replicate}
use serial_dfs.Command.{cmd_rename}
use serial_dfs.Tools.{
  Driver, line, unknown_port, unsupported_baud, parse_line, Answer, failed, replied, Run, rpc,
}

pub data Said : Type 0 where
  usage : Said
  unknown : List ℕ → Said
  unsupported : List ℕ → Said
  path_too_long : Said
  transport_timeout : Said
  renamed : List ℕ → List ℕ → Said
  source_not_found : List ℕ → Said
  destination_exists : List ℕ → Said
  access_denied : Said
  server_error : ℕ → Said

-- `reqbuf` up to `off`.
pub request : List ℕ → List ℕ → List ℕ
request old_path new_path = old_path ++ 0 ∷ new_path ++ 0 ∷ []

-- The message of the `switch`; the exit code is 0 only for STATUS_OK.
pub report : {S : Type 0} → List ℕ → List ℕ → Answer × S → Run Said S
report old_path new_path (failed, s) = record { exit = 1; said = transport_timeout ∷ []; state = s }
report old_path new_path (replied st len buf, s) =
    if st == 0
    then record { exit = 0; said = renamed old_path new_path ∷ []; state = s }
    else record {
      exit = 1;
      said =
          (if st == 1
            then source_not_found old_path
            else if st == 4
            then destination_exists new_path
            else if st == 2
            then access_denied
            else server_error st)
          ∷ [];
      state = s;
    }

-- `main` on `argv[1]` and the arguments behind it.
pub main : {S : Type 0} → Driver S → List (List ℕ) → S → Run Said S
main d (port ∷ baud ∷ old_path ∷ new_path ∷ _) s = elim (parse_line port baud) [
  | unknown_port p ↦ record { exit = 1; said = unknown p ∷ []; state = s }
  | unsupported_baud b ↦ record { exit = 1; said = unsupported b ∷ []; state = s }
  | line n div ↦
      if ltb 512 (length old_path + length new_path + 2)
      then record { exit = 1; said = path_too_long ∷ []; state = s }
      else report old_path new_path (
          rpc d n cmd_rename (request old_path new_path) (replicate 512 0)
            (d.drain n (d.init n div s)))
]
main d _ s = record { exit = 1; said = usage ∷ []; state = s }
