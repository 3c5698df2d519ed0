-- ===== src/Step.antt =====
-- runNextInstruction of src/walker.c: the skipped calls, the fetch, the instruction, the SSU
-- cleanup, the interrupts and the clock loop of two cycles.
pub mod Clock
use pokestroller.Base.{ℕ, ◌+◌, ◌%◌, ◌^◌, List, [], ◌∷◌, ◌==◌, has_bit, if◌then◌else◌, switch}
use pokestroller.Machine.{EepromState, AccelState, Walker, Outcome, ok, ◌>>=◌}
use pokestroller.Machine.Memory.{set_memory8, set_memory16, get_memory8}
use pokestroller.Alu.{byte}
use pokestroller.Cpu.Op.{fetch, store_reg, advance}
use pokestroller.Cpu.Exec.{exec}
use pokestroller.Devices.Status.{port1, port9}
use pokestroller.Devices.Ssu.{ssu_tick}
use pokestroller.Timers.{run_sub_clock}
use pokestroller.Interrupts.{interrupts}

-- At 0x9b84 the ROM reads the keys: an input is popped from a queue that is not empty.
unfoldable pub pop_input : List ℕ → Walker → Walker
pop_input [] w = w
pop_input (x ∷ xs) w = set_memory8 0xffde x (record w { input_queue = xs })

-- What the source does at 0x9b84 before it fetches.
unfoldable pub before_decode : Walker → Walker
unfolding pop_input
before_decode w = if w.pc == 0x9b84 then pop_input w.input_queue w else w

-- setMemory16(0xf78e, STARTING_WATTS), after the fetch.
unfoldable pub starting_watts : Walker → Walker
starting_watts w = if w.pc == 0x79b8 then set_memory16 0xf78e 50 w else w

-- "SSU cleanup": a device whose pin is high forgets where it was.
unfoldable pub ssu_cleanup : Walker → Walker
ssu_cleanup w =
    let x = w.accel in
    let w1 =
      if has_bit (get_memory8 port9 w) 0
      then record w { accel = record x { state = AccelState.getting_address; offset = 0 } }
      else w in
    let y = w1.eeprom in
    if has_bit (get_memory8 port1 w1) 2
    then record w1 { eeprom = record y { state = EepromState.empty; offset = 0 } }
    else w1

-- One round of the clock loop. The sub-clock runs every 3686400 / 32768 cycles, which C rounds to 112.
unfoldable pub clock_cycle : Walker → Outcome
clock_cycle w =
    let w1 = record w { cycle_count = (w.cycle_count + 1) % 2 ^ 64 } in
    (if w1.cycle_count % 4 == 0 then ssu_tick w1 else ok w1) >>= λ w2. ok (
      if w2.cycle_count % 112 == 0
      then run_sub_clock
          (record w2 { sub_clock_cycles_ellapsed = (w2.sub_clock_cycles_ellapsed + 1) % 2 ^ 64 })
      else w2)

-- The instruction at pc.
unfoldable pub instruction : Walker → Outcome
unfolding before_decode starting_watts ssu_cleanup
instruction w =
    let w1 = before_decode w in
    exec (fetch w1) (starting_watts w1) >>= λ w2. ok (advance 2 (ssu_cleanup w2))

-- Interrupts, and two cycles.
unfoldable pub after_instruction : Walker → Outcome
after_instruction w = clock_cycle (interrupts w) >>= clock_cycle

-- The calls that the emulator leaves out return at once, with no interrupt and no cycle.
unfoldable pub run_next_instruction : Walker → Outcome
run_next_instruction w =
    if w.sleep
    then after_instruction w
    else switch w.pc
        ((0x336, ok (advance 4 w))
          ∷ (0x350, ok (store_reg byte 8 0 (advance 4 w)))
          ∷ (0x7700, ok (advance 2 w))
          ∷ [])
        (instruction w >>= after_instruction)
