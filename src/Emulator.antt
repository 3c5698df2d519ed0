-- ===== src/Emulator.antt =====
-- The adapter of src/emulator.cpp between the PocketWalker core and the macOS front end. The core,
-- an H838606 with its buzzer, is the vendored third_party/pocketwalker and a parameter: `cycle` is what one call of Cycle on
-- each of the two does, and `read8` and `write8` are its memory.
pub mod Snapshot
pub mod Run
pub mod Queues
pub mod Core
use pokestroller.Base.{
  ℕ, zero, suc, ◌+◌, ◌-◌, ◌*◌, ◌/◌, ◌%◌, ◌^◌, Bool, true, false, not, ◌&&◌, ◌||◌, Option, none,
  some, length, List, [], ◌∷◌, ◌++◌, bit_and, bit_or, bit_xor, ◌==◌, ltb, leb, update,
  if◌then◌else◌,
}

abbrev pub pw_clock : ℕ
pw_clock = 3686400

-- PW_AUDIO_RATE / 2
abbrev pub audio_room : ℕ
audio_room = 16000

-- What throws: the core, and the program's own exceptions.
pub data Failure : Type 0 where
  core : ℕ → Failure
  wrong_sizes queue_overflow : Failure

-- The members of struct PWEmulator besides the peripherals, which are part of the core, and the
-- oscillator; a negative `clock_origin` is `none`.
pub record Emulator (S : Type 0) : Type 0 where
  pub soc : S
  pub audio : List ℕ
  pub ir : List ℕ
  pub error : Option Failure
  pub cycles : ℕ
  pub target : ℕ
  pub last_ir_cycle : ℕ
  pub known_firmware : Bool
  pub clock_origin : Option ℕ

-- A round of the core: its state, the cycles that Cycle returns, the calls of OnTransmitIR, each with
-- the state at the call and the byte, the samples for the audio queue, or the calls before what was
-- thrown.
pub data Round (S : Type 0) : Type 0 where
  elapsed : S → ℕ → List (S × ℕ) → List ℕ → Round S
  thrown : S → ℕ → List (S × ℕ) → Round S

-- The checks of pw_create on its buffers: whether each is there, and its size.
unfoldable pub sizes_ok : Bool → ℕ → Bool → ℕ → Bool
sizes_ok rom rom_size eeprom eeprom_size = not (
    not rom
    || not eeprom
    || (not (rom_size == 49152) && not (rom_size == 65536))
    || not (eeprom_size == 65536))

-- The FNV-1a hash of the firmware, from the bytes left.
unfoldable pub fingerprint : ℕ → List ℕ → ℕ
fingerprint h [] = h
fingerprint h (b ∷ bs) = fingerprint (bit_xor h b * 1099511628211 % 2 ^ 64) bs

-- `std::copy_n(rom, PW_ROM_SIZE, …)`
unfoldable pub copy_n : ℕ → List ℕ → List ℕ
copy_n zero xs = []
copy_n (suc n) [] = []
copy_n (suc n) (x ∷ xs) = x ∷ copy_n n xs

pub data Created (S : Type 0) : Type 0 where
  created : Emulator S → Created S
  refused : Failure → Created S

-- pw_create: whether the buffers are there, the ROM's bytes, the EEPROM's size, and the new core.
unfoldable pub pw_create : {S : Type 0} → Bool → List ℕ → Bool → ℕ → S → Created S
pw_create rom rom_bytes eeprom eeprom_size soc =
    if sizes_ok rom (length rom_bytes) eeprom eeprom_size
    then created (record {
      soc = soc;
      audio = [];
      ir = [];
      error = none;
      cycles = 0;
      target = 0;
      last_ir_cycle = 0;
      clock_origin = none;
      known_firmware =
          fingerprint 14695981039346656037 (copy_n 49152 rom_bytes) == 0x4fb3ade124517802;
    })
    else refused wrong_sizes

-- The audio callback: a bounded queue that forgets its oldest sample.
unfoldable pub push_sample : List ℕ → ℕ → List ℕ
push_sample [] sample = sample ∷ []
push_sample (x ∷ q) sample =
    if length (x ∷ q) == audio_room then q ++ (sample ∷ []) else x ∷ q ++ (sample ∷ [])

unfoldable pub push_samples : List ℕ → List ℕ → List ℕ
push_samples q [] = q
push_samples q (x ∷ xs) = push_samples (push_sample q x) xs

-- `drain`, with the rounds left: the elements taken, and the queue.
unfoldable pub drain_loop : ℕ → List ℕ → List ℕ × List ℕ
drain_loop zero q = ([], q)
drain_loop (suc n) [] = ([], [])
drain_loop (suc n) (x ∷ q) = let (out, rest) = drain_loop n q in (x ∷ out, rest)

unfoldable pub drain : List ℕ → ℕ → List ℕ × List ℕ
drain q capacity = drain_loop (if ltb (length q) capacity then length q else capacity) q

-- The 24 bytes of HealthData, with their checksum, from round i on.
unfoldable pub flush_loop : (ℕ → ℕ) → ℕ → ℕ → ℕ → ℕ → (ℕ → ℕ) → (ℕ → ℕ) × ℕ
flush_loop read8 base zero i checksum bytes = (bytes, checksum)
flush_loop read8 base (suc n) i checksum bytes =
    let v = read8 (0xf780 + i) in
    flush_loop read8 base n (i + 1) ((checksum + v) % 256) (update bytes (base + i) v)

unfoldable pub flush : (ℕ → ℕ) → ℕ → (ℕ → ℕ) → ℕ → ℕ
flush read8 base bytes =
    let (b, checksum) = flush_loop read8 base 24 0 1 bytes in update b (base + 24) checksum

-- "nintendo"
abbrev pub magic : List ℕ
magic = 110 ∷ 105 ∷ 110 ∷ 116 ∷ 101 ∷ 110 ∷ 100 ∷ 111 ∷ []

-- `std::equal`
abbrev pub equal_from : ℕ → (ℕ → ℕ) → List ℕ → Bool
equal_from i bytes [] = true
equal_from i bytes (x ∷ xs) = (bytes i == x) && equal_from (i + 1) bytes xs

module _ {S : Type 0} where
  -- OnTransmitIR; `none` is the exception.
  unfoldable pub on_transmit : ℕ → Emulator S → Option (Emulator S)
  on_transmit byte pw =
      if length pw.ir == 65536
      then none
      else some (record pw { ir = pw.ir ++ (byte ∷ []); last_ir_cycle = pw.cycles })

  -- The calls of a round; an exception leaves the core where the call stood.
  unfoldable pub transmit_all : List (S × ℕ) → Emulator S → Emulator S × Bool
  transmit_all [] pw = (pw, true)
  transmit_all ((s, x) ∷ xs) pw = elim (on_transmit x pw) [
    | none ↦ (record pw { soc = s }, false)
    | some pw1 ↦ transmit_all xs pw1
  ]

  -- One round of the loop of pw_run: the state, and whether nothing was thrown.
  unfoldable pub run_round : Round S → Emulator S → Emulator S × Bool
  run_round (thrown soc e sent) pw =
      let (pw1, fine) = transmit_all sent pw in
      if fine
      then (record pw1 { soc = soc; error = some (core e) }, false)
      else (record pw1 { error = some queue_overflow }, false)
  run_round (elapsed soc n sent samples) pw =
      let (pw1, fine) = transmit_all sent pw in
      let clock = (pw1.cycles + n) % 2 ^ 64 in
      if fine
      then (record pw1 { soc = soc; cycles = clock; audio = push_samples pw1.audio samples }, true)
      else (record pw1 { error = some queue_overflow }, false)

  unfoldable pub pw_audio : ℕ → Emulator S → List ℕ × Emulator S
  pw_audio n pw = let (out, rest) = drain pw.audio n in (out, record pw { audio = rest })

  -- PW_CLOCK / 4000
  unfoldable pub pw_ir_transmit : ℕ → Emulator S → List ℕ × Emulator S
  pw_ir_transmit n pw =
      let (out, rest) = drain pw.ir n in
      if ltb ((pw.cycles + 2 ^ 64 - pw.last_ir_cycle) % 2 ^ 64) 921
      then ([], pw)
      else (out, record pw { ir = rest })

module _ {S : Type 0} (cycle : S → Round S) where
  -- `while (pw->cycles < pw->target)`; `none` where the rounds given are not enough.
  unfoldable pub run_loop : ℕ → Emulator S → Option (Emulator S × Bool)
  run_loop zero pw = if ltb pw.cycles pw.target then none else some (pw, true)
  run_loop (suc fuel) pw =
      let (pw1, fine) = run_round (cycle pw.soc) pw in
      let rest = run_loop fuel pw1 in
      if ltb pw.cycles pw.target
      then (if fine then rest else some (pw1, false))
      else some (pw, true)

  -- `error` is `none` where `pw->error` is empty; what is thrown has a message.
  unfoldable pub pw_run : ℕ → ℕ → Emulator S → Option (Emulator S × Bool)
  pw_run fuel cycles pw = elim pw.error [
    | some e ↦ some (pw, false)
    | none ↦ run_loop fuel (record pw { target = (pw.target + cycles) % 2 ^ 64 })
  ]

module _ {S : Type 0} (read8 : S → ℕ → ℕ) where
  -- The EEPROM of the core, with the cached HealthData of a recognised and booted firmware.
  unfoldable pub pw_eeprom : (ℕ → ℕ) → Emulator S → ℕ → ℕ
  pw_eeprom eeprom pw =
      if pw.known_firmware && leb pw_clock pw.cycles && equal_from 0 eeprom magic
      then flush (read8 pw.soc) 0x256 (flush (read8 pw.soc) 0x156 eeprom)
      else eeprom

  -- The bits of PW_CENTER, PW_LEFT and PW_RIGHT in the port at SSU_ADDR_PDRB, which is a parameter.
  unfoldable pub pw_button : (S → ℕ → ℕ → S) → ℕ → ℕ → Bool → Emulator S → Emulator S
  pw_button write8 pdrb mask down pw =
      let value = read8 pw.soc pdrb in
      let m = bit_and mask 21 in
      let new = if down then bit_or value m else bit_and value (255 - m) in
      record pw { soc = write8 pw.soc pdrb new }
