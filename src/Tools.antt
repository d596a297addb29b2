-- ===== src/Tools.antt =====
-- dos/tools: the command-line programs over `serial_rpc`, and what they share.
-- An argument is the list of its bytes without the NUL, and a read past its end gives the NUL. DOS
-- gives a program at most 126 bytes of arguments.
pub mod Answers
pub mod Serdir
pub mod Sertype
pub mod Sercopy
pub mod Serren
pub mod Serdel
pub mod Serping
use serial_dfs.Base.{
  ℕ, ◌+◌, ◌==◌, not, ◌&&◌, ◌||◌, if◌then◌else◌, Bool, true, false, List, [], ◌∷◌, ◌++◌, Option,
  none, some, byte_at, drop, overlay, length,
}
use serial_dfs.Install.{baud_value}
use serial_dfs.Uart.{baud_to_div}
use serial_dfs.Rpc.{RpcResult, ok, err_timeout, err_payload}
use serial_dfs.Redirector.State.{Call}

-- What the programs use of the driver and of `serial_rpc`: `seruart_init`, `seruart_drain` and the
-- call. `S` is the state of all that they change.
pub record Driver (S : Type 0) : Type 0 where
  pub init : ℕ → ℕ → S → S
  pub drain : ℕ → S → S
  pub call : Call S

-- `parse_port`, whose text every program has. The index of the letters is that of `p`.
unfoldable pub parse_port : List ℕ → ℕ
parse_port s =
    let named =
      (byte_at s 0 == b'C' || byte_at s 0 == b'c')
      && ((byte_at s 1 == b'O' || byte_at s 1 == b'o')
          && (byte_at s 2 == b'M' || byte_at s 2 == b'm')) in
    let p = if named then drop 3 s else s in
    if byte_at p 0 == b'1' && byte_at p 1 == 0
    then 1
    else if byte_at p 0 == b'2' && byte_at p 1 == 0
    then 2
    else 0

-- `isspace`, for the blanks in front of a number.
unfoldable pub is_space : ℕ → Bool
is_space c = c == 32 || c == 9 || c == 10 || c == 11 || c == 12 || c == 13

unfoldable pub skip_space : List ℕ → List ℕ
skip_space [] = []
skip_space (c ∷ s) = let rest = skip_space s in if is_space c then rest else c ∷ s

-- `atol` of the C library, on a rate: a negative number, which no rate is, comes out as 0.
unfoldable pub atol : List ℕ → ℕ
atol s =
    let t = skip_space s in
    if byte_at t 0 == b'-'
    then 0
    else (baud_value (if byte_at t 0 == b'+' then drop 1 t else t) 0).0

-- The port and the divisor that the first two arguments name, or the argument that is at fault.
pub data Line : Type 0 where
  line : ℕ → ℕ → Line
  unknown_port : List ℕ → Line
  unsupported_baud : List ℕ → Line

unfoldable pub parse_line : List ℕ → List ℕ → Line
parse_line port baud =
    if parse_port port == 0
    then unknown_port port
    else if baud_to_div (atol baud) == 0
    then unsupported_baud baud
    else line (parse_port port) (baud_to_div (atol baud))

-- A remote path as SERTYPE and SERCOPY send it: with a backslash in front if it has none.
unfoldable pub rooted : List ℕ → List ℕ
rooted path =
    if not (byte_at path 0 == b'\\') && not (byte_at path 0 == b'/') then b'\\' ∷ path else path

-- How a run of a program ends: the exit code, what it printed as messages of the type `M`, one for
-- each `printf` or `fwrite`, and the state.
pub record Run (M S : Type 0) : Type 0 where
  pub exit : ℕ
  pub said : List M
  pub state : S

-- What several `fwrite` calls store, or several `fread` calls give.
pub joined : List (List ℕ) → List ℕ
joined [] = []
joined (c ∷ cs) = c ++ joined cs

-- The buffer `replybuf`, `replylen` and `reply_status` after a call, or the error of the call.
pub data Answer : Type 0 where
  failed : Answer
  replied : ℕ → ℕ → List ℕ → Answer

module _ {S : Type 0} (d : Driver S) (port : ℕ) where
  -- `serial_rpc(port, cmd, payload, ..., replybuf, &replylen, &reply_status)`: status, length, buffer.
  pub rpc : ℕ → List ℕ → List ℕ → S → Answer × S
  rpc cmd payload replybuf s =
      let (result, s') = d.call port cmd payload s in
      elim result [
        | ok st p ↦ (replied st (length p) (overlay 0 p replybuf), s')
        | err_timeout ↦ (failed, s')
        | err_payload ↦ (failed, s')
      ]
