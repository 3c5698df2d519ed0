-- ===== src/Timers/Laws.antt =====
-- About the timer B1 part of runSubClock.
use pokestroller.Base.{
  ℕ, zero, suc, ◌+◌, ◌%◌, ◌<◌, ◌≡◌, true, arith, has_bit, has_bit-bit_or, set_bit,
}
use pokestroller.Machine.{Walker, peek}
use pokestroller.Timers.{tcb1, irr2, timer_b_tick}

-- `n` calls of the timer B1 part of runSubClock, each at a multiple of 256 sub-clock cycles.
pub timer_b_ticks : ℕ → Walker → Walker
timer_b_ticks zero w = w
timer_b_ticks (suc n) w = timer_b_ticks n (timer_b_tick w)

-- The timer is enabled, and the sub-clock stands at a multiple of 256.
pub record IsCounting (w : Walker) : Type 0 where
  pub on : w.timer_b.on ≡ true
  pub phase : w.sub_clock_cycles_ellapsed % 256 ≡ 0

pub tick-IsCounting : (w : Walker) → IsCounting w → IsCounting (timer_b_tick w)
unfolding timer_b_tick
tick-IsCounting w c = ground arith

pub tick_counts :
    (w : Walker)
    → IsCounting w
    → peek w tcb1 < 255
    → (peek (timer_b_tick w) tcb1 ≡ peek w tcb1 + 1)
      × (peek (timer_b_tick w) irr2 ≡ peek w irr2)
      × ((timer_b_tick w).timer_b.tlb_value ≡ w.timer_b.tlb_value)
unfolding timer_b_tick
tick_counts w c h = ground arith

bit2_set : (x : ℕ) → has_bit (set_bit x 2 % 256) 2 ≡ true
unfolding set_bit
bit2_set x = ground (arith, has_bit-bit_or x 4 2)

pub tick_overflows :
    (w : Walker)
    → IsCounting w
    → peek w tcb1 ≡ 255
    → w.timer_b.tlb_value < 256
    → (peek (timer_b_tick w) tcb1 ≡ w.timer_b.tlb_value)
      × (has_bit (peek (timer_b_tick w) irr2) 2 ≡ true)
unfolding timer_b_tick
tick_overflows w c h r = ground (arith, bit2_set (peek w irr2))

-- From a count of v, timer B1 raises its interrupt flag and reloads after exactly 256 - v ticks;
-- until then it counts and leaves the flags alone.
pub timer_b_period :
    (n : ℕ) (w : Walker)
    → IsCounting w
    → w.timer_b.tlb_value < 256
    → (peek w tcb1 + n < 256
        → (peek (timer_b_ticks n w) tcb1 ≡ peek w tcb1 + n)
          × (peek (timer_b_ticks n w) irr2 ≡ peek w irr2))
      × (peek w tcb1 + n ≡ 256
          → peek w tcb1 < 256
          → (peek (timer_b_ticks n w) tcb1 ≡ w.timer_b.tlb_value)
            × (has_bit (peek (timer_b_ticks n w) irr2) 2 ≡ true))
unfolding timer_b_ticks
timer_b_period zero w c r = ((λ h. omega arith), (λ h h'. absurd (omega arith)))
timer_b_period (suc zero) w c r = (
  (λ h. omega (arith, tick_counts w c (omega arith))),
  (λ h h'. tick_overflows w c (omega arith) r),
)
timer_b_period (suc (suc n)) w c r =
    let ih = timer_b_period (suc n) (timer_b_tick w) (tick-IsCounting w c) in
    (
      (λ h. ground (
        arith,
        tick_counts w c (omega arith),
        ih (ground (arith, tick_counts w c (omega arith))),
      )),
      (λ h h'. ground (
        arith,
        tick_counts w c (omega arith),
        ih (ground (arith, tick_counts w c (omega arith))),
      )),
    )
