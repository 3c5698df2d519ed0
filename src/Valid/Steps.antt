-- ===== src/Valid/Steps.antt =====
-- Timers, interrupts, keys, the real-time clock and the step of runNextInstruction leave a valid
-- state valid.
use pokestroller.Base.{
  ℕ, ◌+◌, ◌%◌, ◌^◌, ◌<◌, ◌≡◌, not, ◌&&◌, ◌||◌, true, false, switch, arith, List, [], ◌∷◌, ◌++◌,
  ◌==◌, has_bit, set_bit, if◌then◌else◌, subst, ap, Bool,
}
use pokestroller.Machine.{EepromState, AccelState, Walker, Outcome, ok, peek, poke}
use pokestroller.Machine.Reaches.{Reaches, Reaches-bind, if-Reaches}
use pokestroller.Machine.Memory.{get_memory16, set_memory16}
use pokestroller.Devices.Ssu.{ssu_tick}
use pokestroller.Timers.{
  tcnt, tmrw, tsrw, enter_interrupt, timer_b_tick, timer_w_tick, run_sub_clock,
}
use pokestroller.Interrupts.{
  rtcflg, set_keys, half_rtc_interrupt, second_rtc_interrupt, quarter_rtc_interrupt, rtc_interrupts,
  interrupts,
}
use pokestroller.Step.{
  pop_input, before_decode, starting_watts, ssu_cleanup, clock_cycle, instruction,
  after_instruction, run_next_instruction,
}
use pokestroller.Valid.{
  IsValid, AreBytes, AreBytes-++, either, goto, sleeping, poked, reg, memory8, memory16, switched,
  queued, quartered, sub_clocked, counted, saved_here, with_accel, with_eeprom,
}
use pokestroller.Valid.Devices.{ssu_tick-IsValid}
use pokestroller.Valid.Tables.{exec-IsValid}

module _ {c q : ℕ} {w : Walker} where
  enter_interrupt-IsValid : (v : ℕ) → v < 65536 → IsValid c q w → IsValid c q (enter_interrupt v w)
  unfolding enter_interrupt
  enter_interrupt-IsValid v h i = saved_here v _ h i

  timer_b_tick-IsValid : IsValid c q w → IsValid c q (timer_b_tick w)
  unfolding timer_b_tick
  timer_b_tick-IsValid i = search (either, poked)

  rtc_interrupts-IsValid : IsValid c q w → IsValid c q (rtc_interrupts w)
  unfolding rtc_interrupts
  rtc_interrupts-IsValid i =
      let quarter : 0xa65e < 65536 = omega arith in
      let half : 0xa674 < 65536 = omega arith in
      let second : 0xa682 < 65536 = omega arith in search (either, enter_interrupt-IsValid)

  pub interrupts-IsValid : IsValid c q w → IsValid c q (interrupts w)
  unfolding interrupts
  interrupts-IsValid i =
      let irq0 : 0xa300 < 65536 = omega arith in
      let timer : 0x06fa < 65536 = omega arith in
      let x = enter_interrupt 0xa300 w in
      let entered : IsValid c q x = enter_interrupt-IsValid 0xa300 irq0 i in
      let one = AreBytes-++ x.input_queue (1 ∷ []) entered.keys (omega arith, tt) in
      let both = AreBytes-++ (x.input_queue ++ (1 ∷ [])) (0 ∷ []) one (omega arith, tt) in
      let pressed = queued _ both entered in
      either _ _ _ i (
        either _ _ _ pressed (
          either _ _ _ (rtc_interrupts-IsValid i)
            (either _ _ _ (enter_interrupt-IsValid 0x06fa timer i) i)))

  pub set_keys-IsValid : (input : ℕ) → input < 256 → IsValid c q w → IsValid c q (set_keys input w)
  unfolding set_keys
  set_keys-IsValid input h i =
      let one = AreBytes-++ w.input_queue (input ∷ []) i.keys (h, tt) in
      let both = AreBytes-++ (w.input_queue ++ (input ∷ [])) (0 ∷ []) one (omega arith, tt) in
      let woken = sleeping false (queued _ both i) in either _ _ _ (poked _ _ i) woken

  half-IsValid : IsValid c q w → IsValid c q (half_rtc_interrupt w)
  unfolding half_rtc_interrupt
  half-IsValid i = poked _ _ i

  second-IsValid : IsValid c q w → IsValid c q (second_rtc_interrupt w)
  unfolding second_rtc_interrupt
  second-IsValid i = poked _ _ i

  starting_watts-IsValid : IsValid c q w → IsValid c q (starting_watts w)
  unfolding starting_watts
  starting_watts-IsValid i = search (either, memory16)

  pop_input-IsValid : (xs : List ℕ) → AreBytes xs → IsValid c q w → IsValid c q (pop_input xs w)
  unfolding pop_input
  pop_input-IsValid [] h i = i
  pop_input-IsValid (x ∷ xs) h i = memory8 _ _ (queued xs h.1 i)

  before_decode-IsValid : IsValid c q w → IsValid c q (before_decode w)
  unfolding before_decode
  before_decode-IsValid i = either _ _ _ (pop_input-IsValid w.input_queue i.keys i) i

module _ {c q : ℕ} where
  timer_w_tick-IsValid : (w : Walker) → IsValid c q w → IsValid c q (timer_w_tick w)
  unfolding timer_w_tick
  timer_w_tick-IsValid w i =
      let next = set_memory16 tcnt (get_memory16 tcnt w + 1) w in
      let w1 = if has_bit (peek w tmrw) 7 then next else w in
      let counted_on : IsValid c q w1 =
        either (has_bit (peek w tmrw) 7) next w (memory16 _ _ i) i in
      let w2 = if has_bit (peek w1 0xf0f1) 7 then set_memory16 tcnt 0 w1 else w1 in
      let cleared : IsValid c q w2 =
        either (has_bit (peek w1 0xf0f1) 7) (set_memory16 tcnt 0 w1) w1 (memory16 tcnt 0 counted_on)
          counted_on in
      let flagged = poked tsrw (set_bit (peek w2 tsrw) 0) cleared in
      let vector : 0x3a4a < 65536 = omega arith in search (either, enter_interrupt-IsValid)

  pub quarter_rtc_interrupt-IsValid :
      (w : Walker) → IsValid c q w → IsValid c ((q + 1) % 256) (quarter_rtc_interrupt w)
  unfolding quarter_rtc_interrupt
  quarter_rtc_interrupt-IsValid w i =
      let n = (w.quarters_ellapsed + 1) % 256 in
      let count : n ≡ (q + 1) % 256 = ap (λ x. (x + 1) % 256) i.quarters in
      let flagged = poke w rtcflg (set_bit (peek w rtcflg) 0) in
      let w2 = record flagged { quarters_ellapsed = n } in
      let next : IsValid c ((q + 1) % 256) w2 =
        subst (λ x. IsValid c x w2) count (quartered n (omega arith) (poked rtcflg _ i)) in
      let w3 = if n % 2 == 0 then half_rtc_interrupt w2 else w2 in
      let half : IsValid c ((q + 1) % 256) w3 =
        either (n % 2 == 0) (half_rtc_interrupt w2) w2 (half-IsValid next) next in
      either (w3.quarters_ellapsed % 4 == 0) (second_rtc_interrupt w3) w3 (second-IsValid half) half

  run_sub_clock-IsValid : (w : Walker) → IsValid c q w → IsValid c q (run_sub_clock w)
  unfolding run_sub_clock
  run_sub_clock-IsValid w i = switched _ _ (timer_w_tick-IsValid _ (timer_b_tick-IsValid i))

  sub_clock_part :
      (b : Bool) (w : Walker)
      → IsValid c q w
      → IsValid c q (
          if b
          then run_sub_clock
              (record w { sub_clock_cycles_ellapsed = (w.sub_clock_cycles_ellapsed + 1) % 2 ^ 64 })
          else w)
  sub_clock_part b w i = either b _ w (run_sub_clock-IsValid _ (sub_clocked _ (omega arith) i)) i

  accel_cleanup :
      (w : Walker) (b : Bool)
      → IsValid c q w
      → IsValid c q (
          if b
          then record w {
            accel = let x = w.accel in record x { state = AccelState.getting_address; offset = 0 };
          }
          else w)
  accel_cleanup w b i =
      let d = i.devices in
      let zero_lt : 0 < 256 = omega arith in search (either, with_accel, d.accel_bytes)

  eeprom_cleanup :
      (w : Walker) (b : Bool)
      → IsValid c q w
      → IsValid c q (
          if b
          then record w {
            eeprom = let x = w.eeprom in record x { state = EepromState.empty; offset = 0 };
          }
          else w)
  eeprom_cleanup w b i =
      let d = i.devices in
      let zero_lt : 0 < 65536 = omega arith in
      search (either, with_eeprom, d.eeprom_status, d.eeprom_bytes)

  ssu_cleanup-IsValid : (w : Walker) → IsValid c q w → IsValid c q (ssu_cleanup w)
  unfolding ssu_cleanup
  ssu_cleanup-IsValid w i = eeprom_cleanup _ _ (accel_cleanup w _ i)

  instruction-IsValid : (w : Walker) → IsValid c q w → Reaches (IsValid c q) (instruction w)
  unfolding instruction
  instruction-IsValid w i =
      Reaches-bind (IsValid c q) (IsValid c q) _ _
        (exec-IsValid _ (starting_watts-IsValid (before_decode-IsValid i)))
        λ w2 j. goto _ (ssu_cleanup-IsValid w2 j)

clock_cycle-IsValid :
    (c q : ℕ) (w : Walker) → IsValid c q w → Reaches (IsValid ((c + 1) % 2 ^ 64) q) (clock_cycle w)
unfolding clock_cycle
clock_cycle-IsValid c q w i =
    let P = IsValid ((c + 1) % 2 ^ 64) q in
    let w1 = record w { cycle_count = (w.cycle_count + 1) % 2 ^ 64 } in
    let j : P w1 =
      subst (λ n. IsValid n q w1) (ap (λ n. (n + 1) % 2 ^ 64) i.cycles)
        (counted w1.cycle_count (omega arith) i) in
    let tick = w1.cycle_count % 4 == 0 in
    Reaches-bind P P (if tick then ssu_tick w1 else ok w1) _
      (if-Reaches P tick (ssu_tick w1) (ok w1) (ssu_tick-IsValid w1 j) j)
      λ w2 k. sub_clock_part (w2.cycle_count % 112 == 0) w2 k

after_instruction-IsValid :
    (c q : ℕ) (w : Walker)
    → IsValid c q w
    → Reaches (IsValid ((c + 2) % 2 ^ 64) q) (after_instruction w)
unfolding after_instruction
after_instruction-IsValid c q w i =
    let P = IsValid ((c + 1) % 2 ^ 64) q in
    let two : ((c + 1) % 2 ^ 64 + 1) % 2 ^ 64 ≡ (c + 2) % 2 ^ 64 = omega arith in
    subst (λ n. Reaches (IsValid n q) (after_instruction w)) two
      (Reaches-bind P (IsValid _ q) _ _ (clock_cycle-IsValid c q _ (interrupts-IsValid i))
        (clock_cycle-IsValid _ q))

-- The calls that the emulator leaves out: awake, at the factory tests, the check of the battery or the
-- sleep for the accelerometer.
abbrev pub left_out : Walker → Bool
left_out w = not w.sleep && (w.pc == 0x336 || w.pc == 0x350 || w.pc == 0x7700)

-- The state behind a step from `w`: no cycle for a call that is left out, else 2.
abbrev pub Stepped : ℕ → ℕ → Walker → Walker → Type 0
Stepped c q w w' = IsValid (if left_out w then c else (c + 2) % 2 ^ 64) q w'

-- The order of the tests in runNextInstruction: asleep, then the three addresses.
tests_Reaches :
    (F : ℕ → Walker → Type 0) (m n : ℕ) (s p1 p2 p3 : Bool) (asleep o1 o2 o3 awake : Outcome)
    → Reaches (F n) asleep
    → Reaches (F m) o1
    → Reaches (F m) o2
    → Reaches (F m) o3
    → Reaches (F n) awake
    → Reaches
        (F (if not s && (p1 || p2 || p3) then m else n))
        (if s then asleep else if p1 then o1 else if p2 then o2 else if p3 then o3 else awake)
tests_Reaches F m n true p1 p2 p3 asleep o1 o2 o3 awake h h1 h2 h3 k = h
tests_Reaches F m n false true p2 p3 asleep o1 o2 o3 awake h h1 h2 h3 k = h1
tests_Reaches F m n false false true p3 asleep o1 o2 o3 awake h h1 h2 h3 k = h2
tests_Reaches F m n false false false true asleep o1 o2 o3 awake h h1 h2 h3 k = h3
tests_Reaches F m n false false false false asleep o1 o2 o3 awake h h1 h2 h3 k = k

-- From a state in which every number is in the range of its C type, and every device where its
-- registers can address, runNextInstruction only goes on to such a state: at the same cycle where
-- the processor is awake at 0x336, 0x350 or 0x7700, else exactly 2 cycles later.
pub run_next_instruction-IsValid :
    (c q : ℕ) (w : Walker) → IsValid c q w → Reaches (Stepped c q w) (run_next_instruction w)
unfolding run_next_instruction switch
run_next_instruction-IsValid c q w i =
    let on = after_instruction-IsValid c q in
    tests_Reaches (λ n. IsValid n q) c ((c + 2) % 2 ^ 64) w.sleep (w.pc == 0x336) (w.pc == 0x350)
      (w.pc == 0x7700) _ _ _ _ _ (on w i) (goto _ i) (reg _ _ _ (goto _ i)) (goto _ i)
      (Reaches-bind (IsValid c q) (IsValid ((c + 2) % 2 ^ 64) q) _ _ (instruction-IsValid w i) on)
