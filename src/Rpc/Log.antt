-- ===== src/Rpc/Log.antt =====
-- Which frames go out over the link.
use serial_dfs.Base.{
  ℕ, zero, suc, ◌+◌, List, [], ◌∷◌, ◌++◌, append-nil, append_assoc, replicate, Option, none, some,
  ◌≡◌, ◌≢◌, refl, ap, sym, ◌∙◌, arith,
}
use serial_dfs.Frame.{Decoded, frame_decode, wire_len}
use serial_dfs.Link.{Link}
use serial_dfs.Rpc.{
  Rpc, ok, err_timeout, count_timeout, count_crc_err, count_rx, judge, receive_body, attempt_rpc,
  rpc_loop,
}
use serial_dfs.Rpc.Accept.{asked}
use serial_dfs.Rpc.Retry.{loop_some, loop_none}

-- `sent` reads off the machine what went out so far, each block with its port: a send adds a block,
-- draining and receiving add none.
pub record Logs {W : Type 0} (io : Link W) (sent : W → List (ℕ × List ℕ)) : Type 0 where
  pub sends :
      (port : ℕ) (block : List ℕ) (w : W)
      → sent (io.send_block port block w) ≡ sent w ++ (port, block) ∷ []
  pub drains : (port : ℕ) (w : W) → sent (io.drain port w) ≡ sent w
  pub receives : (port len ticks : ℕ) (w : W) → sent (io.recv_block port len ticks w).1 ≡ sent w

module _ {W : Type 0} (io : Link W) (sent : W → List (ℕ × List ℕ)) (logs : Logs io sent)
    (port : ℕ) where
  judge_log : (n : ℕ) (d : Decoded) (s : Rpc W) → sent (judge n d s).1.link ≡ sent s.link
  unfolding judge count_rx count_crc_err
  judge_log n (Decoded.ok hdr rp) s = ground arith
  judge_log n _ s = refl

  receive_body_log :
      (head : List ℕ) (s : Rpc W) → sent (receive_body io port head s).1.link ≡ sent s.link
  unfolding receive_body count_timeout
  receive_body_log head s =
      let (got, w) = io.recv_block port (wire_len head + 2) 90 s.link in
      ground (
        arith,
        judge_log (wire_len head) (frame_decode (head ++ got)) (record s { link = w }),
        logs.receives port (wire_len head + 2) 90 s.link,
      )

  attempt_after :
      (frame : List ℕ) (a : ℕ) (s : Rpc W)
      → sent (attempt_rpc io port frame a s).1.link ≡ sent (asked io port frame a s).link
  unfolding attempt_rpc asked count_timeout
  attempt_after frame zero s =
      let t = asked io port frame zero s in
      let (head, w) = io.recv_block port 10 90 t.link in
      ground (arith, receive_body_log head (record t { link = w }), logs.receives port 10 90 t.link)
  attempt_after frame (suc a) s =
      let t = asked io port frame (suc a) s in
      let (head, w) = io.recv_block port 10 90 t.link in
      ground (arith, receive_body_log head (record t { link = w }), logs.receives port 10 90 t.link)

  asked_log :
      (frame : List ℕ) (a : ℕ) (s : Rpc W)
      → sent (asked io port frame a s).link ≡ sent s.link ++ (port, frame) ∷ []
  unfolding asked
  asked_log frame zero s =
      logs.sends port frame (io.drain port s.link)
      ∙ ap (λ l. l ++ (port, frame) ∷ []) (logs.drains port s.link)
  asked_log frame (suc a) s =
      logs.sends port frame (io.drain port s.link)
      ∙ ap (λ l. l ++ (port, frame) ∷ []) (logs.drains port s.link)

  -- Every attempt, however it ends, sends the frame once.
  pub attempt_log :
      (frame : List ℕ) (a : ℕ) (s : Rpc W)
      → sent (attempt_rpc io port frame a s).1.link ≡ sent s.link ++ (port, frame) ∷ []
  attempt_log frame a s = attempt_after frame a s ∙ asked_log frame a s

  -- A loop that gives up has sent the frame once in each round.
  pub loop_log :
      (frame : List ℕ) (left a : ℕ) (s : Rpc W)
      → (rpc_loop io port frame left a s).0 ≡ err_timeout
      → sent (rpc_loop io port frame left a s).1.link ≡ sent s.link ++ replicate left (port, frame)
  loop_log frame zero a s e = unfold rpc_loop in sym (append-nil (sent s.link))
  loop_log frame (suc left) a s e =
      by_answer (attempt_rpc io port frame a s).0 refl (loop_log frame left (suc a) s1)
    where
      s1 : Rpc W
      s1 = (attempt_rpc io port frame a s).1

      by_answer :
          (o : Option (ℕ × List ℕ))
          → (attempt_rpc io port frame a s).0 ≡ o
          → ((rpc_loop io port frame left (suc a) s1).0 ≡ err_timeout
              → sent (rpc_loop io port frame left (suc a) s1).1.link
                ≡ sent s1.link ++ replicate left (port, frame))
          → sent (rpc_loop io port frame (suc left) a s).1.link
            ≡ sent s.link ++ replicate (suc left) (port, frame)
      by_answer none q ih =
          let eq = loop_none io port frame left a s q in
          ap (λ x. sent x.1.link) eq
          ∙ ih (sym (ap (λ x. x.0) eq) ∙ e)
          ∙ ap (λ l. l ++ replicate left (port, frame)) (attempt_log frame a s)
          ∙ append_assoc (sent s.link) ((port, frame) ∷ []) (replicate left (port, frame))
      by_answer (some (u, v)) q ih =
          absurd (differ (sym e ∙ ap (λ x. x.0) (loop_some io port frame left a s q)))
        where
          differ : err_timeout ≢ ok u v
          differ h = cc
