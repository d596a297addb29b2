-- ===== src/Redirector/State/Ask.antt =====
-- What a handler's remote call does to its locals and to the state.
use serial_dfs.Base.{
  ℕ, List, length, overlay, length-overlay, ◌≡◌, refl, true, false, arith, ◌≢◌, ◌==◌, not,
}
use serial_dfs.Rpc.{RpcResult, ok, err_timeout, err_payload}
use serial_dfs.Redirector.State.{Call, Tsr, Reply, ask, refused}

module _ {S : Type 0} (call : Call S) where
  pub ask_ok :
      (rs rl cmd : ℕ) (payload : List ℕ) (t : Tsr S) {st : ℕ} {p : List ℕ}
      → (call t.comport cmd payload t.rpc).0 ≡ ok st p
      → ask call rs rl cmd payload t ≡ (
        record { rpc_ok = true; rstatus = st; replylen = length p },
        record t { rep = overlay 0 p t.rep; rpc = (call t.comport cmd payload t.rpc).1 },
      )
  unfolding ask
  ask_ok rs rl cmd payload t e = rw (e, ask)

  pub ask_timeout :
      (rs rl cmd : ℕ) (payload : List ℕ) (t : Tsr S)
      → (call t.comport cmd payload t.rpc).0 ≡ err_timeout
      → ask call rs rl cmd payload t ≡ (
        record { rpc_ok = false; rstatus = rs; replylen = rl },
        record t { rpc = (call t.comport cmd payload t.rpc).1 },
      )
  unfolding ask
  ask_timeout rs rl cmd payload t e = rw (e, ask)

  -- The call and what it leaves, by its result.
  abbrev answer : ℕ → ℕ → Tsr S → S → RpcResult → Reply × Tsr S
  answer rs rl t s result = elim result [
    | ok st p ↦ (
      record { rpc_ok = true; rstatus = st; replylen = length p },
      record t { rep = overlay 0 p t.rep; rpc = s },
    )
    | err_timeout ↦ (record { rpc_ok = false; rstatus = rs; replylen = rl }, record t { rpc = s })
    | err_payload ↦ (record { rpc_ok = false; rstatus = rs; replylen = rl }, record t { rpc = s })
  ]

  -- Whatever the answer, a call changes the reply buffer and the state of the calls, and no more.
  pub ask_keeps :
      (rs rl cmd : ℕ) (payload : List ℕ) (t : Tsr S)
      → (ask call rs rl cmd payload t).1 ≡ record t {
        rep = (ask call rs rl cmd payload t).1.rep;
        rpc = (call t.comport cmd payload t.rpc).1;
      }
  unfolding ask
  ask_keeps rs rl cmd payload t = keeps (call t.comport cmd payload t.rpc).0
    where
      s : S
      s = (call t.comport cmd payload t.rpc).1

      keeps :
          (r : RpcResult)
          → (answer rs rl t s r).1 ≡ record t { rep = (answer rs rl t s r).1.rep; rpc = s }
      keeps (ok st p) = refl
      keeps err_timeout = refl
      keeps err_payload = refl

  pub length-ask_rep :
      (rs rl cmd : ℕ) (payload : List ℕ) (t : Tsr S)
      → length (ask call rs rl cmd payload t).1.rep ≡ length t.rep
  unfolding ask
  length-ask_rep rs rl cmd payload t = kept (call t.comport cmd payload t.rpc).0
    where
      kept :
          (r : RpcResult)
          → length (answer rs rl t (call t.comport cmd payload t.rpc).1 r).1.rep ≡ length t.rep
      kept (ok st p) = length-overlay 0 p t.rep
      kept err_timeout = refl
      kept err_payload = refl

  -- An answer whose status is not STATUS_OK, or none.
  pub ask-refused :
      (rs rl cmd : ℕ) (payload : List ℕ) (t : Tsr S)
      → ((st : ℕ) (p : List ℕ) → (call t.comport cmd payload t.rpc).0 ≡ ok st p → st ≢ 0)
      → refused (ask call rs rl cmd payload t).0 ≡ true
  unfolding ask
  ask-refused rs rl cmd payload t h = is_refused (call t.comport cmd payload t.rpc).0 h
    where
      s : S
      s = (call t.comport cmd payload t.rpc).1

      nonzero : (st : ℕ) → st ≢ 0 → not (st == 0) ≡ true
      nonzero st h = ground arith

      is_refused :
          (r : RpcResult)
          → ((st : ℕ) (p : List ℕ) → r ≡ ok st p → st ≢ 0)
          → refused (answer rs rl t s r).0 ≡ true
      is_refused (ok st p) h = nonzero st (h st p refl)
      is_refused err_timeout h = refl
      is_refused err_payload h = refl
