-- ===== src/Uart/Receive.antt =====
-- `seruart_recv_block_timeout` ends within its deadline, and the driver fills the interface `Link`.
use Prim.Native.Nat.{max}
use serial_dfs.Base.{
  ℕ, zero, suc, ◌+◌, ◌-◌, ◌*◌, ◌%◌, ◌<◌, ◌≤◌, length, ◌≡◌, ◌≢◌, refl, arith, AllBytes, ◌⊎◌, inl,
  inr,
}
use serial_dfs.Link.{Link}
use serial_dfs.Uart.{
  Hardware, Wait, ready, timed_out, stuck, wait_lsr, seruart_ticks, recv_loop,
  seruart_recv_block_timeout, seruart_drain, seruart_send_block, com_base, lsr_dr,
}
use serial_dfs.Uart.Clock.{Clock, IsLate, day_ticks, wait_lsr-Ends}

module _ {W : Type 0} (hw : Hardware W) where
  pub recv_loop-length :
      (fuel base start limit len : ℕ) (w : W)
      → (length (recv_loop hw fuel base start limit len w).0.1 ≤ len)
        × AllBytes (recv_loop hw fuel base start limit len w).0.1
        × ((recv_loop hw fuel base start limit len w).0.0 ≡ ready
            → length (recv_loop hw fuel base start limit len w).0.1 ≡ len)
        × ((recv_loop hw fuel base start limit len w).0.0 ≡ timed_out
            → length (recv_loop hw fuel base start limit len w).0.1 < len)
  unfolding recv_loop
  recv_loop-length fuel base start limit zero w = ground arith
  recv_loop-length fuel base start limit (suc len) w = ground (
    arith,
    recv_loop-length fuel base start limit len
        (hw.inp base (wait_lsr hw fuel base lsr_dr start limit w).1).1,
  )

  module _ (clock : Clock hw) (fuel base limit from : ℕ) (small : limit < day_ticks)
      (enough : (limit + 1) * (clock.budget + 1) ≤ fuel) where
    open clock use {now, steps, budget, reads, steps_bounded, moves}

    polls_fit : (w : W) → (limit - (now w - from)) * (budget + 1) + steps w < fuel
    polls_fit w = omega (arith, steps_bounded w, shrinks)
      where
        shrinks : (limit - (now w - from)) * (budget + 1) ≤ limit * (budget + 1)
        shrinks = grind arith

    recv_loop_ends :
        (len : ℕ) (w : W)
        → from ≤ now w
        → max (now w) (from + limit) + 2 * len < from + day_ticks
        → let r = recv_loop hw fuel base (from % day_ticks) limit len w in
          (r.0.0 ≢ stuck)
          × (r.0.0 ≡ timed_out → IsLate limit from (now r.1))
          × (now r.1 ≤ max (now w) (from + limit) + 2 * len)
    unfolding recv_loop
    recv_loop_ends zero w lo hi = (ready_ne, ready_ne_timed_out, omega arith)
      where
        ready_ne : ready ≢ stuck
        ready_ne e = cc

        ready_ne_timed_out : ready ≡ timed_out → IsLate limit from (now w)
        ready_ne_timed_out e = cc
    recv_loop_ends (suc len) w lo hi =
        by_end (wait_lsr hw fuel base lsr_dr (from % day_ticks) limit w).0 refl
          (recv_loop_ends len w2)
      where
        w1 : W
        w1 = (wait_lsr hw fuel base lsr_dr (from % day_ticks) limit w).1

        w2 : W
        w2 = (hw.inp base w1).1

        waited :
            ((wait_lsr hw fuel base lsr_dr (from % day_ticks) limit w).0 ≢ stuck)
            × ((wait_lsr hw fuel base lsr_dr (from % day_ticks) limit w).0 ≡ timed_out
                → IsLate limit from (now w1))
            × (now w ≤ now w1)
            × (now w1 ≤ max (now w) (from + limit) + 1)
        waited =
            wait_lsr-Ends hw clock base lsr_dr limit from fuel w lo (omega arith) small
              (polls_fit w)

        read : (now w1 ≤ now w2) × (now w2 ≤ now w1 + 1)
        read = omega (arith, moves base w1)

        timed_out_ne : timed_out ≢ stuck
        timed_out_ne e = cc

        by_end :
            (end : Wait)
            → (wait_lsr hw fuel base lsr_dr (from % day_ticks) limit w).0 ≡ end
            → (from ≤ now w2
                → max (now w2) (from + limit) + 2 * len < from + day_ticks
                → let r = recv_loop hw fuel base (from % day_ticks) limit len w2 in
                  (r.0.0 ≢ stuck)
                  × (r.0.0 ≡ timed_out → IsLate limit from (now r.1))
                  × (now r.1 ≤ max (now w2) (from + limit) + 2 * len))
            → let r = recv_loop hw fuel base (from % day_ticks) limit (suc len) w in
              (r.0.0 ≢ stuck)
              × (r.0.0 ≡ timed_out → IsLate limit from (now r.1))
              × (now r.1 ≤ max (now w) (from + limit) + 2 * suc len)
        by_end ready e ih =
            rw (e, recv_loop)
              (let (a, b, c) = ih (omega (arith, waited.2, read)) (omega (arith, waited.3, read)) in
                (a, b, omega (arith, c, waited.3, read)))
        by_end timed_out e ih =
            rw (e, recv_loop) (timed_out_ne, λ _. waited.1 e, omega (arith, waited.3))
        by_end stuck e ih = absurd (waited.0 e)

  -- With fuel for one poll more than the timer allows, a call of less than a day ends: with all
  -- `len` bytes, or with fewer once `ticks` ticks have passed or, since the counter goes back to 0
  -- there, once midnight has; the bytes are bytes, and the clock stands at most `2 len` ticks past
  -- the deadline.
  pub seruart_recv_block_timeout_ends :
      (clock : Clock hw) (fuel port len ticks : ℕ) (w : W)
      → (ticks + 1) * (clock.budget + 1) ≤ fuel
      → ticks + 2 * len < day_ticks
      → let r = seruart_recv_block_timeout hw fuel port len ticks w in
        AllBytes r.0.1
        × (((r.0.0 ≡ ready) × (length r.0.1 ≡ len))
            ⊎ ((r.0.0 ≡ timed_out)
                × (length r.0.1 < len)
                × IsLate ticks (clock.now w) (clock.now r.1)))
        × (clock.now r.1 ≤ clock.now w + ticks + 2 * len)
  unfolding seruart_recv_block_timeout seruart_ticks
  seruart_recv_block_timeout_ends clock fuel port len ticks w enough small = rw (clock.reads w) (
    bytes.1,
    by_end (recv_loop hw fuel (com_base port) (clock.now w % day_ticks) ticks len w).0.0 refl,
    omega (arith, ends.2),
  )
    where
      bytes :
          let r = recv_loop hw fuel (com_base port) (clock.now w % day_ticks) ticks len w in
          (length r.0.1 ≤ len)
          × AllBytes r.0.1
          × (r.0.0 ≡ ready → length r.0.1 ≡ len)
          × (r.0.0 ≡ timed_out → length r.0.1 < len)
      bytes = recv_loop-length fuel (com_base port) (clock.now w % day_ticks) ticks len w

      ends :
          let r = recv_loop hw fuel (com_base port) (clock.now w % day_ticks) ticks len w in
          (r.0.0 ≢ stuck)
          × (r.0.0 ≡ timed_out → IsLate ticks (clock.now w) (clock.now r.1))
          × (clock.now r.1 ≤ max (clock.now w) (clock.now w + ticks) + 2 * len)
      ends =
          recv_loop_ends clock fuel (com_base port) ticks (clock.now w) (omega (arith, small))
            enough len w (omega arith) (omega arith)

      by_end :
          (end : Wait)
          → (recv_loop hw fuel (com_base port) (clock.now w % day_ticks) ticks len w).0.0 ≡ end
          → let r = recv_loop hw fuel (com_base port) (clock.now w % day_ticks) ticks len w in
            (((r.0.0 ≡ ready) × (length r.0.1 ≡ len))
              ⊎ ((r.0.0 ≡ timed_out)
                  × (length r.0.1 < len)
                  × IsLate ticks (clock.now w) (clock.now r.1)))
      by_end ready e = inl (e, bytes.2 e)
      by_end timed_out e = inr (e, bytes.3 e, ends.1 e)
      by_end stuck e = absurd (ends.0 e)

  pub recv_at_most :
      (fuel port len ticks : ℕ) (w : W)
      → length (seruart_recv_block_timeout hw fuel port len ticks w).0.1 ≤ len
  unfolding seruart_recv_block_timeout
  recv_at_most fuel port len ticks w =
      (recv_loop-length fuel (com_base port) (seruart_ticks hw w) ticks len w).0

  -- The driver, with a given fuel for each polling loop, as `serial_rpc` uses it.
  unfoldable pub uart_link : ℕ → Link W
  uart_link fuel = record {
    drain = seruart_drain hw;
    send_block = seruart_send_block hw fuel;
    recv_block = λ port len ticks w. (
      (seruart_recv_block_timeout hw fuel port len ticks w).0.1,
      (seruart_recv_block_timeout hw fuel port len ticks w).1,
    );
    recv_short = λ port len ticks w. recv_at_most fuel port len ticks w;
  }
