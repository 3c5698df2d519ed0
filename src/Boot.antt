-- ===== src/Boot.antt =====
-- Start-up of src/walker.c: readImage, initWalkerFromFiles, initializeWalkerImages,
-- copyWalkerEEPROM and walkerProgramCounter. The C library's file functions are no part of the
-- program: a record holds what each call on a file returns, for every answer that it may give.
pub mod Laws
use pokestroller.Base.{
  ℕ, ◌+◌, ◌%◌, Bool, true, false, not, ◌&&◌, ◌||◌, Option, none, some, List, [], ◌∷◌, ltb, leb,
  ◌==◌, u8, if◌then◌else◌,
}
use pokestroller.Machine.{EepromState, AccelState, LcdState, Walker, poke, no_flags}
use pokestroller.Machine.Memory.{set_memory8, set_memory16}

abbrev pub rom_size : ℕ
rom_size = 49152

abbrev pub mem_size : ℕ
mem_size = 65536

-- What the calls on an opened file return: fseek, ftell (`none` for -1), fread's count and bytes,
-- ferror and fclose.
pub record FileCalls : Type 0 where
  pub seek_ok : Bool
  pub tell : Option ℕ
  pub read_count : ℕ
  pub bytes : ℕ → ℕ
  pub read_error : Bool
  pub close_ok : Bool

-- The messages of readImage, in its order.
pub data Message : Type 0 where
  cannot_open cannot_read_size wrong_size incomplete : Message

pub data ImageResult : Type 0 where
  image : (ℕ → ℕ) → ImageResult
  error : Message → ImageResult

-- `length != expected && !(allowFullMemoryDump && length == MEM_SIZE)`, negated
abbrev pub size_ok : ℕ → Bool → Option ℕ → Bool
size_ok expected allow none = false
size_ok expected allow (some length) = (length == expected) || (allow && (length == mem_size))

read_opened : FileCalls → ℕ → Bool → ImageResult
read_opened f expected allow =
    if not f.seek_ok
    then error cannot_read_size
    else if not (size_ok expected allow f.tell)
    then error wrong_size
    else if (f.read_count == expected) && not f.read_error && f.close_ok
    then image f.bytes
    else error incomplete

-- `none`: no path, or fopen failed.
unfoldable pub read_image : Option FileCalls → ℕ → Bool → ImageResult
unfolding read_opened
read_image none expected allow = error cannot_open
read_image (some f) expected allow = read_opened f expected allow

-- `*p = v` and setMemory8, one after another.
unfoldable pub write_bytes : List (ℕ × ℕ) → Walker → Walker
write_bytes [] w = w
write_bytes ((a, v) ∷ r) w = write_bytes r (set_memory8 a v w)

-- The device registers. The source writes 0xfffa twice, the second time for CKSTPR2.
abbrev pub reset_registers : List (ℕ × ℕ)
reset_registers =
    (0xf0e9, 0)
    ∷ (0xf0eb, 0)
    ∷ (0xf0e3, 0)
    ∷ (0xf0e4, 4)
    ∷ (0xf0d0, 0x38)
    ∷ (0xf0d1, 0)
    ∷ (0xf0f0, 0x48)
    ∷ (0xf0f1, 0)
    ∷ (0xf0f2, 0x70)
    ∷ (0xf0f3, 0x70)
    ∷ (0xf0f4, 0x88)
    ∷ (0xf0f5, 0x88)
    ∷ []

abbrev pub reset_clocks : List (ℕ × ℕ)
reset_clocks =
    (0xfffa, 3)
    ∷ (0xfffa, 4)
    ∷ (0xfff3, 0)
    ∷ (0xfff4, 0)
    ∷ (0xfff6, 0)
    ∷ (0xfff7, 0)
    ∷ (0xf067, 0)
    ∷ []

-- What the memsets and the assignments to the session's variables leave.
unfoldable pub blank_session : (ℕ → ℕ) → (ℕ → ℕ) → Walker → Walker
blank_session rom eeprom_image w = record w {
  memory = λ j. if ltb j rom_size then rom j else 0;
  er = λ i. 0;
  flags = no_flags;
  pc = 0x02c4;
  interrupt_saved_address = 0;
  interrupt_saved_flags = no_flags;
  input_queue = [];
  quarters_ellapsed = 0;
  sub_clock_cycles_ellapsed = 0;
  timer_b = record { on = false; tlb_value = 0 };
  timer_w_on = false;
  ssu = record { progress = 0 };
  accel = record {
    memory = λ i. if i == 0 then 2 else 0;
    address = 0;
    offset = 0;
    state = AccelState.getting_address;
  };
  eeprom = record {
    memory = eeprom_image;
    status = 0;
    hi_address = 0;
    lo_address = 0;
    state = EepromState.empty;
    offset = 0;
  };
  lcd = record {
    memory = λ i. 0;
    contrast = 20;
    state = LcdState.empty;
    current_column = 0;
    current_page = 0;
    current_byte = 0;
    current_buffer = false;
  };
  sleep = false;
  initialized = true;
}

unfoldable pub initialize_walker_images : (ℕ → ℕ) → (ℕ → ℕ) → Walker → Walker
unfolding write_bytes blank_session
initialize_walker_images rom eeprom_image w =
    let blank = blank_session rom eeprom_image w in
    let w1 = set_memory16 0xf0f6 0 (write_bytes reset_registers blank) in
    let w2 = set_memory16 0xf0fa 0xffff (set_memory16 0xf0f8 0xffff w1) in
    write_bytes reset_clocks (set_memory16 0xf0fc 0xffff w2)

-- `true` and no message, or `false` and a message.
start : ImageResult → ImageResult → Walker → Bool × Option Message × Walker
start (error e) r w = (false, some e, w)
start (image rom) (error e) w = (false, some e, w)
start (image rom) (image eeprom_image) w = (true, none, initialize_walker_images rom eeprom_image w)

unfoldable pub init_walker_from_files :
    Option FileCalls → Option FileCalls → Walker → Bool × Option Message × Walker
unfolding start read_image
init_walker_from_files rom_file eeprom_file w =
    start (read_image rom_file rom_size true) (read_image eeprom_file mem_size false) w

-- The destination's bytes afterwards; `none` is `false`. `destination` says whether it is not NULL.
unfoldable pub copy_walker_eeprom : Bool → ℕ → Walker → Option (ℕ → ℕ)
copy_walker_eeprom destination capacity w =
    if not w.initialized || not destination || ltb capacity mem_size
    then none
    else some w.eeprom.memory

unfoldable pub walker_program_counter : Walker → ℕ
walker_program_counter w = w.pc

-- How initWalker ends: with a session, or with the message that it prints before `exit`.
pub data Start : Type 0 where
  started : Walker → Start
  exited : Option Message → Start

-- With INIT_EEPROM: no EEPROM file, but an image of bytes 0xff.
start_blank : ImageResult → Walker → Start
start_blank (image rom) w = started (initialize_walker_images rom (λ i. 255) w)
start_blank (error e) w = exited (some e)

-- Without it: the result of initWalkerFromFiles.
start_result : Bool × Option Message × Walker → Start
start_result (true, e, w) = started w
start_result (false, e, w) = exited e

unfoldable pub init_walker : Bool → Option FileCalls → Option FileCalls → Walker → Start
unfolding start_blank start_result read_image init_walker_from_files
init_walker init_eeprom rom_file eeprom_file w =
    if init_eeprom
    then start_blank (read_image rom_file rom_size true) w
    else start_result (init_walker_from_files rom_file eeprom_file w)
