-- ===== src/Interrupts.antt =====
-- Keys, the real-time clock and the interrupts of src/walker.c. The input queue is the list that
-- Queue/Refine shows the linked list of src/queue.c to implement.
pub mod Laws
pub mod Keys
pub mod Rtc
use pokestroller.Base.{
  ℕ, ◌+◌, ◌%◌, Bool, not, ◌&&◌, List, [], ◌∷◌, ◌++◌, ◌==◌, has_bit, set_bit, if◌then◌else◌,
}
use pokestroller.Machine.{Walker, peek, poke}
use pokestroller.Timers.{enter_interrupt, irr2}

abbrev pub irr1 : ℕ
irr1 = 0xfff6

abbrev pub ienr1 : ℕ
ienr1 = 0xfff3

abbrev pub ienr2 : ℕ
ienr2 = 0xfff4

abbrev pub rtcflg : ℕ
rtcflg = 0xf067

-- addElement, on the list of the queue's values.
abbrev pub add_element : ℕ → Walker → Walker
add_element value w = record w { input_queue = w.input_queue ++ (value ∷ []) }

-- setKeys; ENTER is bit 0.
unfoldable pub set_keys : ℕ → Walker → Walker
set_keys input w =
    let w1 = add_element 0 (add_element input w) in
    if not w.flags.i && has_bit input 0
    then poke w irr1 (set_bit (peek w irr1) 0)
    else record w1 { sleep = Bool.false }

-- halfRTCInterrupt and secondRTCInterrupt
unfoldable pub half_rtc_interrupt : Walker → Walker
half_rtc_interrupt w = poke w rtcflg (set_bit (peek w rtcflg) 1)

unfoldable pub second_rtc_interrupt : Walker → Walker
second_rtc_interrupt w = poke w rtcflg (set_bit (peek w rtcflg) 2)

unfoldable pub quarter_rtc_interrupt : Walker → Walker
unfolding half_rtc_interrupt second_rtc_interrupt
quarter_rtc_interrupt w =
    let w1 = poke w rtcflg (set_bit (peek w rtcflg) 0) in
    let w2 = record w1 { quarters_ellapsed = (w1.quarters_ellapsed + 1) % 256 } in
    let w3 = if w2.quarters_ellapsed % 2 == 0 then half_rtc_interrupt w2 else w2 in
    if w3.quarters_ellapsed % 4 == 0 then second_rtc_interrupt w3 else w3

-- The three RTC interrupts, the shortest period first.
unfoldable pub rtc_interrupts : Walker → Walker
unfolding enter_interrupt
rtc_interrupts w =
    if has_bit (peek w rtcflg) 0
    then enter_interrupt 0xa65e w
    else if has_bit (peek w rtcflg) 1
    then enter_interrupt 0xa674 w
    else if has_bit (peek w rtcflg) 2
    then enter_interrupt 0xa682 w
    else w

-- "Interrupt handling" of runNextInstruction: IRQ0, then the RTC, then timer B1.
unfoldable pub interrupts : Walker → Walker
unfolding enter_interrupt rtc_interrupts
interrupts w =
    if w.flags.i
    then w
    else if has_bit (peek w irr1) 0 && has_bit (peek w ienr1) 0
    then add_element 0 (add_element 1 (enter_interrupt 0xa300 w))
    else if has_bit (peek w ienr1) 7
    then rtc_interrupts w
    else if has_bit (peek w irr2) 2 && has_bit (peek w ienr2) 2
    then enter_interrupt 0x06fa w
    else w
