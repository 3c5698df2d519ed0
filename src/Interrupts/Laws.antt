-- ===== src/Interrupts/Laws.antt =====
-- About "Interrupt handling" of runNextInstruction and RTE.
use pokestroller.Base.{
  ◌<◌, ◌≡◌, ◌≢◌, ◌⊎◌, inl, inr, Bool, true, false, not, ◌&&◌, arith, ◌==◌, has_bit,
}
use pokestroller.Machine.{Walker, peek}
use pokestroller.Cpu.Op.{advance}
use pokestroller.Cpu.Branches.{rte}
use pokestroller.Timers.{irr2}
use pokestroller.Interrupts.{irr1, ienr1, ienr2, interrupts}

-- An interrupt that is taken (the mask was clear and is set afterwards) followed by the RTE step,
-- `pc += 2` included, gives back pc and flags.
pub rte-interrupts :
    (w : Walker)
    → w.flags.i ≡ false
    → (interrupts w).flags.i ≡ true
    → w.pc < 65536
    → let w' = advance 2 (rte (interrupts w)) in (w'.pc ≡ w.pc) × (w'.flags ≡ w.flags)
unfolding interrupts rte
rte-interrupts w off taken h = ground arith

interrupts_masked : (w : Walker) → w.flags.i ≡ true → interrupts w ≡ w
unfolding interrupts
interrupts_masked w h = rw h

interrupts-cases : (w : Walker) → (interrupts w ≡ w) ⊎ ((interrupts w).flags.i ≡ true)
unfolding interrupts
interrupts-cases w = ground arith

-- The handling of interrupts, done twice, is that done once: a taken interrupt masks the others.
pub interrupts_once : (w : Walker) → interrupts (interrupts w) ≡ interrupts w
interrupts_once w = elim (interrupts-cases w) [
  | inl e ↦ rw e e
  | inr e ↦ interrupts_masked (interrupts w) e
]

-- Which sources of an interrupt are pending and enabled.
abbrev pub irq0_pending : Walker → Bool
irq0_pending w = has_bit (peek w irr1) 0 && has_bit (peek w ienr1) 0

abbrev pub rtc_enabled : Walker → Bool
rtc_enabled w = has_bit (peek w ienr1) 7

abbrev pub timer_b_pending : Walker → Bool
timer_b_pending w = has_bit (peek w irr2) 2 && has_bit (peek w ienr2) 2

-- Timer B1 gets its interrupt exactly when the mask is clear, IRQ0 is not pending, and the RTC is
-- not even enabled.
pub timer_b_starved :
    (w : Walker)
    → w.pc ≢ 0x06fa
    → ((interrupts w).pc == 0x06fa)
      ≡ (not w.flags.i && not (irq0_pending w) && not (rtc_enabled w) && timer_b_pending w)
unfolding interrupts
timer_b_starved w h = ground arith
