-- ===== src/Rpc/Retry.antt =====
-- The retry loop of `serial_rpc`: which attempt's answer it returns, and when it gives up.
use serial_dfs.Base.{
  ℕ, zero, suc, ◌+◌, ◌*◌, ◌%◌, ◌^◌, ◌<◌, List, Option, none, some, length, ◌≡◌, ◌≢◌, refl, ap, sym,
  ◌∙◌, arith,
}
use serial_dfs.Link.{Link}
use serial_dfs.Rpc.{Rpc, ok, err_timeout, err_payload, attempt_rpc, rpc_loop}
use serial_dfs.Rpc.Accept.{attempt_counts, attempt_retries}

module _ {W : Type 0} (io : Link W) (port : ℕ) (frame : List ℕ) where
  -- `k` attempts from number `attempt` on, none of which returned: the state after them.
  pub data Fails : ℕ → ℕ → Rpc W → Rpc W → Type 0 where
    here : {a : ℕ} {s : Rpc W} → Fails zero a s s
    again :
        {k a : ℕ} {s s' : Rpc W}
        → (attempt_rpc io port frame a s).0 ≡ none
        → Fails k (suc a) (attempt_rpc io port frame a s).1 s'
        → Fails (suc k) a s s'

  pub loop_some :
      (left a : ℕ) (s : Rpc W) {st : ℕ} {p : List ℕ}
      → (attempt_rpc io port frame a s).0 ≡ some (st, p)
      → rpc_loop io port frame (suc left) a s ≡ (ok st p, (attempt_rpc io port frame a s).1)
  unfolding rpc_loop
  loop_some left a s e = ground arith

  pub loop_none :
      (left a : ℕ) (s : Rpc W)
      → (attempt_rpc io port frame a s).0 ≡ none
      → rpc_loop io port frame (suc left) a s
        ≡ rpc_loop io port frame left (suc a) (attempt_rpc io port frame a s).1
  unfolding rpc_loop
  loop_none left a s e = ground arith

  loop_zero :
      (a : ℕ) (s : Rpc W) {st : ℕ} {p : List ℕ} → (rpc_loop io port frame 0 a s).0 ≡ ok st p → ⊥
  unfolding rpc_loop
  loop_zero a s e = cc

  -- After fewer failed attempts than are left, an answer that arrives is returned.
  pub loop-Fails :
      {k a : ℕ} {s s' : Rpc W} (left : ℕ) {st : ℕ} {p : List ℕ}
      → k < left
      → Fails k a s s'
      → (attempt_rpc io port frame (a + k) s').0 ≡ some (st, p)
      → (rpc_loop io port frame left a s).0 ≡ ok st p
  loop-Fails (suc left) lt (here {a} {s}) e =
      ap (λ r. r.0)
        (loop_some left a s (ap (λ n. (attempt_rpc io port frame n s).0) (omega arith) ∙ e))
  loop-Fails zero lt (here {a} {s}) e = absurd (omega arith)
  loop-Fails zero lt (again {k} {a} {s} {s'} no_answer rest) e = absurd (omega arith)
  loop-Fails (suc left) lt (again {k} {a} {s} {s'} no_answer rest) e =
      ap (λ r. r.0) (loop_none left a s no_answer)
      ∙ loop-Fails {k = k} {a = suc a} {s = (attempt_rpc io port frame a s).1} {s' = s'} left
          (omega arith) rest (ap (λ n. (attempt_rpc io port frame n s').0) (omega arith) ∙ e)

  -- What the loop returns is the answer of an attempt, after failed ones.
  pub loop-ok :
      (left a : ℕ) (s : Rpc W) {st : ℕ} {p : List ℕ}
      → (rpc_loop io port frame left a s).0 ≡ ok st p
      → (k : ℕ) × (s' : Rpc W) × (k < left)
        × Fails k a s s'
        × ((attempt_rpc io port frame (a + k) s').0 ≡ some (st, p))
  loop-ok zero a s e = absurd (loop_zero a s e)
  loop-ok (suc left) a s {st} {p} e =
      by_answer (attempt_rpc io port frame a s).0 refl
        (loop-ok left (suc a) (attempt_rpc io port frame a s).1 {st = st} {p = p})
    where
      by_answer :
          (o : Option (ℕ × List ℕ))
          → (attempt_rpc io port frame a s).0 ≡ o
          → ((rpc_loop io port frame left (suc a) (attempt_rpc io port frame a s).1).0 ≡ ok st p
              → (k : ℕ) × (s' : Rpc W) × (k < left)
                × Fails k (suc a) (attempt_rpc io port frame a s).1 s'
                × ((attempt_rpc io port frame (suc a + k) s').0 ≡ some (st, p)))
          → (k : ℕ) × (s' : Rpc W) × (k < suc left)
            × Fails k a s s'
            × ((attempt_rpc io port frame (a + k) s').0 ≡ some (st, p))
      by_answer none q ih =
          let (k, s', lt, f, r) = ih (sym (ap (λ x. x.0) (loop_none left a s q)) ∙ e) in
          (
            suc k,
            s',
            omega arith,
            again q f,
            ap (λ n. (attempt_rpc io port frame n s').0) (omega arith) ∙ r,
          )
      by_answer (some (u, v)) q ih = (
        0,
        s,
        omega arith,
        here,
        ap (λ n. (attempt_rpc io port frame n s).0) (omega arith) ∙ q ∙ same,
      )
        where
          same : ◌≡◌ {A = Option (ℕ × List ℕ)} (some (u, v)) (some (st, p))
          same = ground (arith, ap (λ x. x.0) (loop_some left a s q), e)

  pub Fails-seq : {k a : ℕ} {s s' : Rpc W} → Fails k a s s' → s'.seq ≡ s.seq
  Fails-seq here = refl
  Fails-seq (again {a = a} {s = s} no_answer rest) =
      Fails-seq rest ∙ (attempt_counts io port frame a s).0

  -- A loop that gives up has sent the frame once in each round, and every round but a first one
  -- was a retry.
  pub loop-gives_up :
      (left a : ℕ) (s : Rpc W)
      → (rpc_loop io port frame left (suc a) s).0 ≡ err_timeout
      → let t = (rpc_loop io port frame left (suc a) s).1 in
        (t.stats.tx_bytes % 2 ^ 32 ≡ (s.stats.tx_bytes + left * length frame) % 2 ^ 32)
        × (t.stats.retries % 2 ^ 16 ≡ (s.stats.retries + left) % 2 ^ 16)
  loop-gives_up zero a s e =
      unfold rpc_loop in (ap (λ n. n % 2 ^ 32) (omega arith), ap (λ n. n % 2 ^ 16) (omega arith))
  loop-gives_up (suc left) a s e =
      by_answer (attempt_rpc io port frame (suc a) s).0 refl
        (loop-gives_up left (suc a) (attempt_rpc io port frame (suc a) s).1)
    where
      s1 : Rpc W
      s1 = (attempt_rpc io port frame (suc a) s).1

      by_answer :
          (o : Option (ℕ × List ℕ))
          → (attempt_rpc io port frame (suc a) s).0 ≡ o
          → ((rpc_loop io port frame left (suc (suc a)) s1).0 ≡ err_timeout
              → let t = (rpc_loop io port frame left (suc (suc a)) s1).1 in
                (t.stats.tx_bytes % 2 ^ 32 ≡ (s1.stats.tx_bytes + left * length frame) % 2 ^ 32)
                × (t.stats.retries % 2 ^ 16 ≡ (s1.stats.retries + left) % 2 ^ 16))
          → let t = (rpc_loop io port frame (suc left) (suc a) s).1 in
            (t.stats.tx_bytes % 2 ^ 32 ≡ (s.stats.tx_bytes + suc left * length frame) % 2 ^ 32)
            × (t.stats.retries % 2 ^ 16 ≡ (s.stats.retries + suc left) % 2 ^ 16)
      by_answer none q ih =
          let eq = loop_none left (suc a) s q in
          let h = ih (sym (ap (λ x. x.0) eq) ∙ e) in
          let c = attempt_counts io port frame (suc a) s in
          (
            omega (arith, ap (λ x. x.1.stats.tx_bytes % 2 ^ 32) eq, h.0, c.1),
            omega (
              arith,
              ap (λ x. x.1.stats.retries % 2 ^ 16) eq,
              h.1,
              attempt_retries io port frame a s,
            ),
          )
      by_answer (some (u, v)) q ih =
          absurd (differ (sym e ∙ ap (λ x. x.0) (loop_some left (suc a) s q)))
        where
          differ : err_timeout ≢ ok u v
          differ h = cc

  pub loop_over : (a : ℕ) (s : Rpc W) → (rpc_loop io port frame 0 a s).0 ≡ err_timeout
  unfolding rpc_loop
  loop_over a s = refl

  pub loop-ne-err_payload :
      (left a : ℕ) (s : Rpc W) → (rpc_loop io port frame left a s).0 ≢ err_payload
  loop-ne-err_payload zero a s e = differ (sym (loop_over a s) ∙ e)
    where
      differ : err_timeout ≢ err_payload
      differ h = cc
  loop-ne-err_payload (suc left) a s e =
      by_answer (attempt_rpc io port frame a s).0 refl
        (loop-ne-err_payload left (suc a) (attempt_rpc io port frame a s).1)
    where
      by_answer :
          (o : Option (ℕ × List ℕ))
          → (attempt_rpc io port frame a s).0 ≡ o
          → ((rpc_loop io port frame left (suc a) (attempt_rpc io port frame a s).1).0
              ≢ err_payload)
          → ⊥
      by_answer none q ih = ih (sym (ap (λ x. x.0) (loop_none left a s q)) ∙ e)
      by_answer (some (u, v)) q ih = differ (sym (ap (λ x. x.0) (loop_some left a s q)) ∙ e)
        where
          differ : ok u v ≢ err_payload
          differ h = cc
