-- ===== src/Examples/Sessions.antt =====
-- Runs of the front end of src/win_main.c and of the sessions that it drives.
use pokestroller.Base.{
  ◌≡◌, ◌⊎◌, refl, arith, List, true, false, not, ◌&&◌, none, some, [], ◌∷◌, ◌++◌, set_bit, switch,
  ◌==◌, if◌then◌else◌,
}
use pokestroller.Machine.{Walker, poke}
use pokestroller.Machine.Reaches.{Reaches}
use pokestroller.Boot
use pokestroller.Boot.{FileCalls, init_walker, started, exited, initialize_walker_images}
use pokestroller.Step.{run_next_instruction, instruction, after_instruction, clock_cycle}
use pokestroller.Cpu.Exec.{exec}
use pokestroller.Cpu.Exec.Group0.{exec_0}
use pokestroller.Cpu.Op.{fetch}
use pokestroller.Machine.Memory.{set_memory8, set_memory16, get_memory8, get_memory16}
use pokestroller.Devices.Protocol.{Holds}
use pokestroller.Devices.Ssu.{transmit}
use pokestroller.Valid.LcdBytes.{lcd_never_stops}
use pokestroller.Valid.{IsValid, poked}
use pokestroller.Valid.Start.{initialize-IsValid, IsStartable, eeprom_bytes, init_walker-IsValid}
use pokestroller.Valid.Steps.{Stepped, run_next_instruction-IsValid}
use pokestroller.Interrupts.{set_keys, quarter_rtc_interrupt, interrupts}
use pokestroller.Interrupts.Rtc.{quarter_wakes}
use pokestroller.Windows.{Message, key_down, dispatched, Front, process_messages, round}
use pokestroller.Windows.Session.{Session, begin, next, IsClocked, Session-clock}
use pokestroller.Windows.Keys.{
  fresh_keys, until_enter, heard, some_ends, succeeds, round_keys, round-running,
}
use pokestroller.Examples.{off}

-- A ROM of NOPs, and an EEPROM of bytes 2.
abbrev started_session : Walker
started_session = initialize_walker_images (λ i. 0) (λ i. 2) off

started_session-IsValid : IsValid 0 0 started_session
started_session-IsValid =
    initialize-IsValid (λ i. 0) (λ i. 2) off (λ j. omega arith) (λ j. omega arith) (omega arith)

run_next_instruction-IsValid_example :
    Reaches (Stepped 0 0 started_session) (run_next_instruction started_session)
run_next_instruction-IsValid_example =
    run_next_instruction-IsValid 0 0 started_session started_session-IsValid

abbrev opened_window : Front
opened_window = record { walker_running = true; walker = started_session; bit_map_memory = λ i. 0 }

opened_window-Session : Session 0 opened_window
opened_window-Session =
    begin (λ i. 0) (λ i. 2) (λ i. 0) off
      (record { rom_bytes = λ j. omega arith; eeprom_bytes = λ j. omega arith }) refl

-- The window behind a round with a key.
abbrev played : Front
played = elim (round (key_down 0x5a 0 ∷ []) opened_window) [ none ↦ opened_window | some f ↦ f ]

played-round : round (key_down 0x5a 0 ∷ []) opened_window ≡ some played
unfolding round run_next_instruction set_keys initialize_walker_images set_memory8 set_memory16
    set_bit switch instruction exec fetch get_memory16 exec_0 after_instruction clock_cycle
    interrupts get_memory8
played-round = refl

played-runs : played.walker_running ≡ true
unfolding round run_next_instruction set_keys initialize_walker_images set_memory8 set_memory16
    set_bit switch instruction exec fetch get_memory16 exec_0 after_instruction clock_cycle
    interrupts get_memory8
played-runs = refl

Session-clock_example : IsClocked 1 played
unfolding process_messages set_keys initialize_walker_images set_memory8 set_memory16 set_bit
Session-clock_example =
    Session-clock 1 played
      (next 0 opened_window played (key_down 0x5a 0 ∷ []) opened_window-Session refl played-round)
      played-runs

-- X, held Z, Z, another message, ENTER, and X again.
abbrev typed : List Message
typed =
    key_down 0x58 1
    ∷ key_down 0x5a 0x40000001
    ∷ key_down 0x5a 1
    ∷ dispatched false
    ∷ key_down 0x20 1
    ∷ key_down 0x58 1
    ∷ []

round_keys_example :
    (process_messages typed true (0, off)).2.input_queue
    ≡ off.input_queue
      ++ heard 0 (if off.flags.i then fresh_keys typed else until_enter (fresh_keys typed))
round_keys_example = round_keys typed true off

round-running_example : played.walker_running ≡ (
    (true && not (some_ends (key_down 0x5a 0 ∷ [])))
    && succeeds (
        run_next_instruction (process_messages (key_down 0x5a 0 ∷ []) true (0, started_session)).2))
round-running_example = round-running (key_down 0x5a 0 ∷ []) opened_window played played-round

-- Blank files.
abbrev blank_dump : FileCalls
blank_dump = record {
  seek_ok = true;
  tell = some 65536;
  read_count = 49152;
  bytes = λ i. 0;
  read_error = false;
  close_ok = true;
}

init_walker-IsValid_example :
    (IsStartable true (some blank_dump) none
      × ((f : FileCalls) × (some blank_dump ≡ some f)
          × (let w' = initialize_walker_images f.bytes (eeprom_bytes true none) off in
              (init_walker true (some blank_dump) none off ≡ started w') × IsValid 0 0 w')))
    ⊎ (¬ IsStartable true (some blank_dump) none
        × ((e : Boot.Message) × (init_walker true (some blank_dump) none off ≡ exited (some e))))
init_walker-IsValid_example =
    init_walker-IsValid true (some blank_dump) none off (λ j. omega arith) tt (omega arith)

-- Asleep, with the RTC's interrupts enabled.
abbrev asleep : Walker
asleep = record off { sleep = true; memory = λ a. if a == 0xfff3 then 128 else 0 }

quarter_wakes_example : (interrupts (quarter_rtc_interrupt asleep)).sleep ≡ false
quarter_wakes_example = quarter_wakes asleep (omega arith) refl refl

-- The session with the LCD's data pin high and the other devices deselected.
abbrev lcd_session : Walker
lcd_session = poke (poke started_session 0xffd4 6) 0xffdc 1

lcd_session-IsValid : IsValid 0 0 lcd_session
lcd_session-IsValid = poked 0xffdc 1 (poked 0xffd4 6 started_session-IsValid)

lcd_never_stops_example : Holds (IsValid 0 0) (transmit lcd_session)
unfolding get_memory8
lcd_never_stops_example = lcd_never_stops 0 0 lcd_session lcd_session-IsValid refl refl
