-- ===== src/Timers.antt =====
-- runSubClock of src/walker.c: timer B1 with its reload value, and timer W with its compare match.
pub mod Laws
pub mod Match
use pokestroller.Base.{ℕ, ◌+◌, ◌%◌, Bool, true, not, ◌&&◌, ◌==◌, has_bit, set_bit, if◌then◌else◌}
use pokestroller.Machine.{Walker, peek, poke, set_pc}
use pokestroller.Machine.Memory.{set_memory16, get_memory16}

abbrev pub tcb1 : ℕ
tcb1 = 0xf0d1

abbrev pub irr2 : ℕ
irr2 = 0xfff7

abbrev pub tcnt : ℕ
tcnt = 0xf0f6

abbrev pub gra : ℕ
gra = 0xf0f8

abbrev pub tmrw : ℕ
tmrw = 0xf0f0

abbrev pub tsrw : ℕ
tsrw = 0xf0f3

-- The entry to an interrupt: pc and flags are saved, and further interrupts masked.
unfoldable pub enter_interrupt : ℕ → Walker → Walker
enter_interrupt vector w =
    let f = w.flags in
    record w {
      interrupt_saved_address = w.pc;
      interrupt_saved_flags = f;
      flags = record f { i = true };
      pc = vector;
      sleep = Bool.false;
    }

-- Timer B1 counts every 256 sub-clock cycles; on overflow it is reloaded and flagged.
unfoldable pub timer_b_tick : Walker → Walker
timer_b_tick w =
    let w1 = poke w tcb1 (peek w tcb1 + 1) in
    let w2 = poke w1 irr2 (set_bit (peek w1 irr2) 2) in
    if w.timer_b.on && (w.sub_clock_cycles_ellapsed % 256 == 0)
    then (if peek w1 tcb1 == 0 then poke w2 tcb1 w2.timer_b.tlb_value else w1)
    else w

-- Timer W: the count, the match with GRA, the clearing, the flag IMFA and the interrupt.
unfoldable pub timer_w_tick : Walker → Walker
timer_w_tick w =
    let w1 = if has_bit (peek w tmrw) 7 then set_memory16 tcnt (get_memory16 tcnt w + 1) w else w in
    let w2 = if has_bit (peek w1 0xf0f1) 7 then set_memory16 tcnt 0 w1 else w1 in
    let w3 = poke w2 tsrw (set_bit (peek w2 tsrw) 0) in
    if w.timer_w_on
    then (if get_memory16 tcnt w1 == get_memory16 gra w1
        then (if has_bit (peek w3 0xf0f2) 0 && not w3.flags.i
            then enter_interrupt 0x3a4a w3
            else w3)
        else w1)
    else w

-- The timers run only from the next cycle on after they are enabled.
unfoldable pub run_sub_clock : Walker → Walker
unfolding timer_b_tick timer_w_tick
run_sub_clock w =
    let w1 = timer_w_tick (timer_b_tick w) in
    let t = w1.timer_b in
    record w1 {
      timer_b = record t { on = has_bit (peek w1 0xfffa) 2 && has_bit (peek w1 0xf0d0) 6 };
      timer_w_on = has_bit (peek w1 0xfffb) 6 && has_bit (peek w1 tmrw) 7;
    }
