-- ===== src/Machine.antt =====
-- The state of src/walker.c (its static variables, and the structs of src/definitions.h), and the
-- outcome of a step. A device register that the source reaches through a pointer into `memory`
-- (`SSU.SSSR = &memory[0xF0E4]`) is that byte of `memory`, so the aliasing is the source's.
-- `er` holds the 32-bit registers ER0 to ER7. The pointers R, E, RL and RH of the source point into
-- them, on a little-endian host: see Machine/Registers.
pub mod Memory
pub mod Registers
pub mod Reaches
use pokestroller.Base.{ℕ, ◌%◌, Bool, true, List, update, u8}

-- struct Flags_t
pub record Flags : Type 0 where
  pub i : Bool
  pub ui : Bool
  pub h : Bool
  pub u : Bool
  pub n : Bool
  pub z : Bool
  pub v : Bool
  pub c : Bool

-- struct SSU_t: the members that are no registers in `memory`.
pub record Ssu : Type 0 where
  pub progress : ℕ

pub data EepromState : Type 0 where
  empty getting_status_register getting_address_hi getting_address_lo getting_bytes : EepromState

-- struct Eeprom_t with its buffer.
pub record Eeprom : Type 0 where
  pub memory : ℕ → ℕ
  pub status : ℕ
  pub hi_address : ℕ
  pub lo_address : ℕ
  pub state : EepromState
  pub offset : ℕ

pub data AccelState : Type 0 where
  getting_address getting_bytes : AccelState

-- struct Accelerometer_t with its buffer.
pub record Accelerometer : Type 0 where
  pub memory : ℕ → ℕ
  pub address : ℕ
  pub offset : ℕ
  pub state : AccelState

pub data LcdState : Type 0 where
  empty reading_contrast : LcdState

-- struct Lcd_t
pub record Lcd : Type 0 where
  pub memory : ℕ → ℕ
  pub contrast : ℕ
  pub state : LcdState
  pub current_column : ℕ
  pub current_page : ℕ
  pub current_byte : ℕ
  pub current_buffer : Bool

-- struct TimerB_t: the members that are no registers in `memory`.
pub record TimerB : Type 0 where
  pub on : Bool
  pub tlb_value : ℕ

-- The static variables, and the caller's cycle counter.
pub record Walker : Type 0 where
  pub memory : ℕ → ℕ
  pub er : ℕ → ℕ
  pub flags : Flags
  pub pc : ℕ
  pub interrupt_saved_address : ℕ
  pub interrupt_saved_flags : Flags
  pub input_queue : List ℕ
  pub quarters_ellapsed : ℕ
  pub sub_clock_cycles_ellapsed : ℕ
  pub timer_b : TimerB
  pub timer_w_on : Bool
  pub ssu : Ssu
  pub accel : Accelerometer
  pub eeprom : Eeprom
  pub lcd : Lcd
  pub sleep : Bool
  pub initialized : Bool
  pub cycle_count : ℕ

-- `ok`: go on, or `return 0`. `unimplemented`: `return 1`, with the state so far. `undefined`: an
-- access out of bounds, a division by zero, a shift by too much, or a failed assertion.
pub data Outcome : Type 0 where
  ok : Walker → Outcome
  unimplemented : Walker → Outcome
  undefined : Outcome

infixl 5 ◌>>=◌
abbrev pub ◌>>=◌ : Outcome → (Walker → Outcome) → Outcome
ok w >>= f = f w
unimplemented w >>= f = unimplemented w
undefined >>= f = undefined

-- `*p` for a pointer into `memory`.
abbrev pub peek : Walker → ℕ → ℕ
peek w a = w.memory a

-- `*p = v` for a `uint8_t` pointer into `memory`.
abbrev pub poke : Walker → ℕ → ℕ → Walker
poke w a v = record w { memory = update w.memory a (u8 v) }

abbrev pub set_flags : Walker → Flags → Walker
set_flags w f = record w { flags = f }

-- `pc = a`, for the `uint16_t` pc.
abbrev pub set_pc : Walker → ℕ → Walker
set_pc w a = record w { pc = a % 65536 }

abbrev pub no_flags : Flags
no_flags = record {
  i = Bool.false;
  ui = Bool.false;
  h = Bool.false;
  u = Bool.false;
  n = Bool.false;
  z = Bool.false;
  v = Bool.false;
  c = Bool.false;
}

-- An address in `memory`: `& 0x0000ffff`.
abbrev pub low16 : ℕ → ℕ
low16 a = a % 65536
