-- ===== src/Tools/Serdir.antt =====
-- dos/tools/serdir.c: list a directory.
pub mod Rounds
pub mod Listing
use serial_dfs.Base.{
  ℕ, zero, suc, ◌+◌, ◌-◌, ◌*◌, ◌/◌, ◌%◌, ◌^◌, ◌==◌, ltb, leb, not, ◌&&◌, ◌||◌, if◌then◌else◌, Bool,
  true, false, Option, none, some, List, [], ◌∷◌, ◌++◌, byte_at, word_at, dword_at, take, drop,
  replicate, bit_and,
}
use serial_dfs.Command.{cmd_list_dir, cmd_list_dir_next}
use serial_dfs.Tools.{
  Driver, Line, line, unknown_port, unsupported_baud, parse_line, Answer, failed, replied, Run, rpc,
}

-- What `print_entry` prints.
pub record Entry : Type 0 where
  pub name : List ℕ
  pub is_dir : Bool
  pub size : ℕ
  pub yr : ℕ
  pub mo : ℕ
  pub dy : ℕ
  pub hr : ℕ
  pub mn : ℕ

-- The lines of output, one for each `printf`.
pub data Said : Type 0 where
  usage : Said
  unknown : List ℕ → Said
  unsupported : List ℕ → Said
  transport_timeout : Said
  not_found : List ℕ → Said
  server_error : ℕ → Said
  empty_reply : Said
  entry : Entry → Said
  total : ℕ → Said

-- `print_entry`, of the bytes from `e` on. `%s` stops at the NUL, if the name has one.
pub until_nul : List ℕ → List ℕ
until_nul [] = []
until_nul (c ∷ s) = let rest = until_nul s in if c == 0 then [] else c ∷ rest

pub print_entry : List ℕ → Entry
print_entry e = record {
  name = until_nul (take 12 e);
  is_dir = not (bit_and (byte_at e 12) 0x10 == 0);
  size = dword_at e 17;
  yr = word_at e 13 / 2 ^ 9 % 2 ^ 7 + 1980;
  mo = word_at e 13 / 2 ^ 5 % 2 ^ 4;
  dy = word_at e 13 % 2 ^ 5;
  hr = word_at e 15 / 2 ^ 11 % 2 ^ 5;
  mn = word_at e 15 / 2 ^ 5 % 2 ^ 6;
}

-- The loops that print a batch: `off` with `n` entries at most to go, up to `replylen`.
pub print_batch : ℕ → ℕ → ℕ → List ℕ → List Said
print_batch zero off replylen replybuf = []
print_batch (suc n) off replylen replybuf =
    let rest = print_batch n (off + 23) replylen replybuf in
    if leb (off + 23) replylen then entry (print_entry (drop off replybuf)) ∷ rest else []

-- The flag that the second loop tests.
pub last_more : ℕ → List ℕ → ℕ
last_more replylen replybuf = byte_at replybuf (1 + ((replylen - 1) / 23 - 1) * 23 + 21)

-- How many of the lines are entries.
pub count_entries : List Said → ℕ
count_entries [] = 0
count_entries (entry e ∷ said) = count_entries said + 1
count_entries (_ ∷ said) = count_entries said

module _ {S : Type 0} (d : Driver S) (port : ℕ) where
  -- The second loop, with fuel: `none` says that it ran out. The output so far is `said`.
  pub more_loop : ℕ → ℕ → ℕ → List ℕ → List Said → S → Option (List Said × S)
  more_loop zero hid replylen replybuf said s = none
  more_loop (suc fuel) hid replylen replybuf said s =
      let (answer, s') = rpc d port cmd_list_dir_next (hid ∷ []) replybuf s in
      if not (leb 24 replylen)
      then some (said, s)
      else if last_more replylen replybuf == 0
      then some (said, s)
      else elim answer [
        | failed ↦ some (said, s')
        | replied st len buf ↦ elim (st == 0) [
          | false ↦ some (said, s')
          | true ↦
              let said' = said ++ print_batch 22 0 len buf in
              elim (len == 0) [
                | true ↦ some (said', s')
                | false ↦ more_loop fuel hid len buf said' s'
              ]
        ]
      ]

  -- With the first reply in the buffer.
  pub list_replies : ℕ → ℕ → List ℕ → S → Option (Run Said S)
  list_replies fuel len buf s =
      let hid = byte_at buf 0 in
      elim (more_loop fuel hid len buf (print_batch 22 1 len buf) s) [
        | none ↦ none
        | some (said, s') ↦
            some (record { exit = 0; said = said ++ total (count_entries said) ∷ []; state = s' })
      ]

  -- What follows the request.
  pub list_dir : ℕ → List ℕ → Answer × S → Option (Run Said S)
  list_dir fuel path (failed, s) =
      some (record { exit = 1; said = transport_timeout ∷ []; state = s })
  list_dir fuel path (replied st len buf, s) =
      if st == 1
      then some (record { exit = 1; said = not_found path ∷ []; state = s })
      else if not (st == 0)
      then some (record { exit = 1; said = server_error st ∷ []; state = s })
      else if ltb len 1
      then some (record { exit = 1; said = empty_reply ∷ []; state = s })
      else list_replies fuel len buf s

-- `main` on `argv[1]` and the arguments behind it.
pub main : {S : Type 0} → Driver S → ℕ → List (List ℕ) → S → Option (Run Said S)
main d fuel (port ∷ baud ∷ more) s =
    let path : List ℕ = elim more [ [] ↦ b'\\' ∷ [] | p ∷ _ ↦ p ] in
    elim (parse_line port baud) [
      | unknown_port p ↦ some (record { exit = 1; said = unknown p ∷ []; state = s })
      | unsupported_baud b ↦ some (record { exit = 1; said = unsupported b ∷ []; state = s })
      | line n div ↦
          let s1 = d.drain n (d.init n div s) in
          list_dir d n fuel path
            (rpc d n cmd_list_dir (b'X' ∷ take 509 path ++ 0 ∷ []) (replicate 512 0) s1)
    ]
main d fuel _ s = some (record { exit = 1; said = usage ∷ []; state = s })
