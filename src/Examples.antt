-- ===== src/Examples.antt =====
-- Runs of the models of src/walker.c and src/queue.c at concrete states: the states, and a child for
-- each part of the program.
mod Cpu
mod Devices
mod System
mod Sessions
mod Fronts
use pokestroller.Base.{Bool, ◌||◌, [], if◌then◌else◌, ◌==◌}
use pokestroller.Machine.{EepromState, AccelState, LcdState, Walker, no_flags}

-- A session before any start, with ER7 at the top of RAM and small numbers in the other registers.
abbrev pub off : Walker
off = record {
  memory = λ a. if a == 0xf0d1 then 254 else 0;
  er = λ i. if i == 7 then 0xff80 else 0x81020304;
  flags = no_flags;
  pc = 0x2c4;
  interrupt_saved_address = 0;
  interrupt_saved_flags = no_flags;
  input_queue = [];
  quarters_ellapsed = 0;
  sub_clock_cycles_ellapsed = 0;
  timer_b = record { on = Bool.true; tlb_value = 7 };
  timer_w_on = Bool.false;
  ssu = record { progress = 0 };
  accel = record { memory = λ i. 0; address = 0; offset = 0; state = AccelState.getting_address };
  eeprom = record {
    memory = λ i. 9;
    status = 0;
    hi_address = 0;
    lo_address = 0;
    state = EepromState.empty;
    offset = 0;
  };
  lcd = record {
    memory = λ i. 0;
    contrast = 20;
    state = LcdState.empty;
    current_column = 0;
    current_page = 0;
    current_byte = 0;
    current_buffer = Bool.false;
  };
  sleep = Bool.false;
  initialized = Bool.false;
  cycle_count = 0;
}

-- The same with an IRQ0 that is pending and enabled.
abbrev pub key_pressed : Walker
key_pressed = record off { memory = λ a. if (a == 0xfff6) || (a == 0xfff3) then 1 else 0 }

-- The same with a timer W that counts to 5 and is cleared there.
abbrev pub counting_to_5 : Walker
counting_to_5 = record off {
  timer_w_on = Bool.true;
  memory = λ a. if (a == 0xf0f0) || (a == 0xf0f1) then 128 else if a == 0xf0f9 then 5 else 0;
}
