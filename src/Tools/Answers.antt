-- ===== src/Tools/Answers.antt =====
-- A remote call of a program, by its result.
use serial_dfs.Base.{ℕ, List, length, overlay, ◌≡◌, ap}
use serial_dfs.Rpc.{RpcResult, ok, err_timeout, err_payload}
use serial_dfs.Tools.{Driver, Answer, failed, replied, rpc}

module _ {S : Type 0} (d : Driver S) (port cmd : ℕ) (payload buf : List ℕ) (s : S) where
  answer : RpcResult × S → Answer × S
  answer r = elim (r.0) [
    | ok st p ↦ (replied st (length p) (overlay 0 p buf), r.1)
    | err_timeout ↦ (failed, r.1)
    | err_payload ↦ (failed, r.1)
  ]

  pub rpc-ok :
      {st : ℕ} {p : List ℕ} {s' : S}
      → d.call port cmd payload s ≡ (ok st p, s')
      → rpc d port cmd payload buf s ≡ (replied st (length p) (overlay 0 p buf), s')
  unfolding rpc answer
  rpc-ok e = ap answer e

  pub rpc-timeout :
      {s' : S}
      → d.call port cmd payload s ≡ (err_timeout, s')
      → rpc d port cmd payload buf s ≡ (failed, s')
  unfolding rpc answer
  rpc-timeout e = ap answer e
