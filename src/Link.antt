-- ===== src/Link.antt =====
-- What `serial_rpc` uses of the UART driver (dos/src/seruart.h): the three calls of the module that
-- dos/src/seruart.c implements, over the state `W` of the machine outside the program.
use serial_dfs.Base.{ℕ, ◌≤◌, List, length}

pub record Link (W : Type 0) : Type 0 where
  -- `seruart_drain(port)`
  pub drain : ℕ → W → W
  -- `seruart_send_block(port, buf, len)`
  pub send_block : ℕ → List ℕ → W → W
  -- `seruart_recv_block_timeout(port, buf, len, ticks)`: the bytes that arrived.
  pub recv_block : ℕ → ℕ → ℕ → W → List ℕ × W
  pub recv_short : (port len ticks : ℕ) (w : W) → length (recv_block port len ticks w).0 ≤ len
