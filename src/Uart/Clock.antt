-- ===== src/Uart/Clock.antt =====
-- The polling loop ends: by the line status, or by the clock.
use Prim.Native.Nat.{max}
use serial_dfs.Base.{
  ℕ, zero, suc, ◌+◌, ◌-◌, ◌*◌, ◌/◌, ◌%◌, ◌^◌, true, false, ◌<◌, ◌≤◌, ◌==◌, leb, not, ◌≡◌, ◌≢◌, ◌⊎◌,
  inl, inr, arith, ap, u32, bit_and, Bool-cases, leb→le, leb→lt,
}
use native.Mathlib.Decide.{dec_lt}
use serial_dfs.Uart.{Hardware, Wait, ready, timed_out, stuck, wait_lsr, seruart_ticks}

-- The ticks of a day, at 18.2 a second: the BIOS sets its counter at 0040:006C back to 0 when it
-- comes to this, at midnight.
abbrev pub day_ticks : ℕ
day_ticks = 0x1800B0

-- What the driver relies on of the timer: the counter that it reads gives the ticks since midnight
-- of a clock `now` that a port read leaves alone or moves on by one tick, and at most `budget` reads
-- pass between two ticks; `steps` of them are left.
pub record Clock {W : Type 0} (hw : Hardware W) : Type 0 where
  pub now : W → ℕ
  pub steps : W → ℕ
  pub budget : ℕ
  pub reads : (w : W) → hw.bios_ticks w ≡ now w % day_ticks
  pub steps_bounded : (w : W) → steps w ≤ budget
  pub moves :
      (port : ℕ) (w : W)
      → ((now (hw.inp port w).1 ≡ now w) × (suc (steps (hw.inp port w).1) ≤ steps w))
        ⊎ (now (hw.inp port w).1 ≡ now w + 1)

-- At the time `t` so many ticks since `from` have passed, or else a midnight has.
abbrev pub IsLate : ℕ → ℕ → ℕ → Type 0
IsLate limit from t = (from + limit ≤ t) ⊎ (from / day_ticks < t / day_ticks)

module _ {W : Type 0} (hw : Hardware W) (clock : Clock hw) (base mask limit from : ℕ) where
  open clock use {now, steps, budget, reads, steps_bounded, moves}

  abbrev elapsed : W → ℕ
  elapsed w = now w - from

  -- One more tick or one step less: the polls that a loop can still make.
  abbrev polls_left : W → ℕ
  polls_left w = (limit - elapsed w) * (budget + 1) + steps w

  abbrev after : W → W
  after w = (hw.inp (base + 5) w).1

  polls_left-after :
      (w : W) → from ≤ now w → elapsed (after w) < limit → polls_left (after w) < polls_left w
  polls_left-after w h lt = elim (moves (base + 5) w) [
    | inl (same, less) ↦ omega (arith, ap (λ t. (limit - (t - from)) * (budget + 1)) same, less)
    | inr next ↦ omega (arith, ap (λ t. t * (budget + 1)) (one_less next), steps_bounded (after w))
  ]
    where
      one_less : now (after w) ≡ now w + 1 → limit - elapsed w ≡ (limit - elapsed (after w)) + 1
      one_less next = omega arith

  -- The unsigned difference that the loop computes.
  abbrev difference : W → ℕ
  difference w = u32 (seruart_ticks hw w + 2 ^ 32 - from % day_ticks)

  -- It is the time since `from` if no midnight has passed, and a huge number if one has.
  difference_lem :
      (w : W)
      → from ≤ now w
      → now w < from + day_ticks
      → limit < day_ticks
      → (difference w ≡ elapsed w)
        ⊎ ((from / day_ticks < now w / day_ticks) × (limit ≤ difference w))
  unfolding seruart_ticks
  difference_lem w lo hi small = elim (dec_lt (from / day_ticks) (now w / day_ticks)) [
    | yes midnight ↦ inr (midnight, omega (arith, reads w))
    | no same_day ↦ inl (omega (arith, reads w))
  ]

  -- How such a call ends.
  abbrev Ends : W → Wait × W → Type 0
  Ends w r =
      (r.0 ≢ stuck)
      × (r.0 ≡ timed_out → IsLate limit from (now r.1))
      × (now w ≤ now r.1)
      × (now r.1 ≤ max (now w) (from + limit) + 1)

  -- Let the loop start at `from` or later and less than a day after it, with a limit of less than a
  -- day and fuel for more polls than the clock allows. Then the loop ends, by the line status or by
  -- the clock: once the limit has passed or, since the counter goes back to 0 there, once midnight
  -- has. The clock then stands at most one tick past the limit.
  pub wait_lsr-Ends :
      (fuel : ℕ) (w : W)
      → from ≤ now w
      → now w + 1 < from + day_ticks
      → limit < day_ticks
      → polls_left w < fuel
      → Ends w (wait_lsr hw fuel base mask (from % day_ticks) limit w)
  unfolding wait_lsr
  wait_lsr-Ends zero w lo hi small enough = absurd (omega arith)
  wait_lsr-Ends (suc fuel) w lo hi small enough =
      elim (Bool-cases (not (bit_and (hw.inp (base + 5) w).0 mask == 0))) [
        | inl set ↦ rw set (ready_ne, ready_ne_timed_out, mono, bound)
        | inr clear ↦ rw clear (elim (Bool-cases (leb limit (difference (after w)))) [
          | inl late ↦ rw late (timed_out_ne, λ _. is_late late, mono, bound)
          | inr early ↦ rw early (
              let lt = is_early early in
              let (a, b, c, d) =
                wait_lsr-Ends fuel (after w) (omega (arith, mono)) (omega (arith, lt, mono, lo))
                  small (omega (arith, polls_left-after w lo lt)) in
              (a, b, omega (arith, mono, c), omega (arith, d)))
        ])
      ]
    where
      mono : now w ≤ now (after w)
      mono = omega (arith, moves (base + 5) w)

      bound : now (after w) ≤ max (now w) (from + limit) + 1
      bound = omega (arith, moves (base + 5) w)

      diff :
          (difference (after w) ≡ elapsed (after w))
          ⊎ ((from / day_ticks < now (after w) / day_ticks) × (limit ≤ difference (after w)))
      diff =
          difference_lem (after w) (omega (arith, mono, lo)) (omega (arith, moves (base + 5) w, hi))
            small

      is_late : leb limit (difference (after w)) ≡ true → IsLate limit from (now (after w))
      is_late late = elim diff [
        | inl same ↦ inl (omega (arith, leb→le _ _ late, same, mono, lo))
        | inr midnight ↦ inr midnight.0
      ]

      is_early : leb limit (difference (after w)) ≡ false → elapsed (after w) < limit
      is_early early = elim diff [
        | inl same ↦ omega (arith, leb→lt _ _ early, same)
        | inr midnight ↦ absurd (omega (arith, leb→lt _ _ early, midnight.1))
      ]

      ready_ne : ready ≢ stuck
      ready_ne e = cc

      timed_out_ne : timed_out ≢ stuck
      timed_out_ne e = cc

      ready_ne_timed_out : ready ≡ timed_out → IsLate limit from (now (after w))
      ready_ne_timed_out e = cc
