-- ===== src/Devices/Status.antt =====
-- The SSU registers in memory, and the pins of the devices (the constants of src/definitions.h).
use pokestroller.Base.{ℕ, ◌+◌, ◌%◌, Bool, true, false, not, ◌==◌, has_bit, set_bit, if◌then◌else◌}
use pokestroller.Machine.{Walker, peek, poke}
use pokestroller.Machine.Memory.{get_memory8}

abbrev pub sser : ℕ
sser = 0xf0e3

abbrev pub sssr : ℕ
sssr = 0xf0e4

abbrev pub ssrdr : ℕ
ssrdr = 0xf0e9

abbrev pub sstdr : ℕ
sstdr = 0xf0eb

abbrev pub port1 : ℕ
port1 = 0xffd4

abbrev pub port9 : ℕ
port9 = 0xffdc

-- Bits of SSSR: receive data full, transmit data empty, transmit end.
abbrev pub rdrf : ℕ
rdrf = 1

abbrev pub tdre : ℕ
tdre = 2

abbrev pub tend : ℕ
tend = 3

-- `*SSU.SSSR |= flag`
abbrev pub raise : ℕ → Walker → Walker
raise bit w = poke w sssr (set_bit (peek w sssr) bit)

-- The devices' chip selects: accelerometer on port 9; EEPROM, LCD and LCD data on port 1.
abbrev pub accel_selected : Walker → Bool
accel_selected w = not (has_bit (get_memory8 port9 w) 0)

abbrev pub eeprom_selected : Walker → Bool
eeprom_selected w = not (has_bit (get_memory8 port1 w) 2)

abbrev pub lcd_selected : Walker → Bool
lcd_selected w = not (has_bit (get_memory8 port1 w) 0)

abbrev pub lcd_data_selected : Walker → Bool
lcd_data_selected w = has_bit (get_memory8 port1 w) 1

-- `SSU.progress += 1`, back to 0 at 7, and whether the operation is finished.
unfoldable pub progress : Walker → Walker × Bool
progress w =
    let p = (w.ssu.progress + 1) % 256 in
    if p == 7
    then (record w { ssu = record { progress = 0 } }, true)
    else (record w { ssu = record { progress = p } }, false)
