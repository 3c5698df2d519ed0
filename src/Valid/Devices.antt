-- ===== src/Valid/Devices.antt =====
-- The devices on the SSU leave a valid state valid where they do not stop the program.
use pokestroller.Base.{
  ℕ, ◌+◌, ◌%◌, ◌<◌, arith, Bool, Bool-cases, inl, inr, ◌==◌, ltb, update, set_bit, set_bit-lt,
  if◌then◌else◌,
}
use pokestroller.Machine.{
  EepromState, AccelState, LcdState, Walker, Outcome, ok, unimplemented, undefined, peek, ◌>>=◌,
}
use pokestroller.Machine.Reaches.{Reaches, Reaches-bind, if-Reaches}
use pokestroller.Devices.Status.{
  ssrdr, sstdr, rdrf, tdre, tend, raise, progress, accel_selected, eeprom_selected, lcd_selected,
  lcd_data_selected,
}
use pokestroller.Devices.Accel.{accel_receive_in, accel_receive, accel_transmit_in, accel_transmit}
use pokestroller.Devices.Eeprom.{
  eeprom_receive_in, eeprom_receive, eeprom_transmit_in, eeprom_transmit, eeprom_index,
}
use pokestroller.Devices.Lcd.{lcd_data, lcd_command, lcd_command_in, lcd_index, lcd_mem_size}
use pokestroller.Devices.Lcd.Bounds.{lcd_command_in-IsPlaced}
use pokestroller.Devices.Ssu.{transmit_receive, transmit, ssu_tick}
use pokestroller.Machine.{Lcd}
use pokestroller.Valid.{
  IsValid, update-lt, either, poked, with_ssu, with_accel, with_eeprom, with_lcd,
}

lcd_command_in-bytes :
    (s : LcdState) (v : ℕ) (x : Lcd)
    → ((j : ℕ) → x.memory j < 256)
    → (j : ℕ) → (lcd_command_in s v x).memory j < 256
unfolding lcd_command_in
lcd_command_in-bytes LcdState.empty v x h j = ground (arith, h j)
lcd_command_in-bytes LcdState.reading_contrast v x h j = h j

lcd_command_in-contrast :
    (s : LcdState) (v : ℕ) (x : Lcd)
    → v < 256
    → x.contrast < 256
    → (lcd_command_in s v x).contrast < 256
unfolding lcd_command_in
lcd_command_in-contrast LcdState.empty v x h k = ground (arith, k)
lcd_command_in-contrast LcdState.reading_contrast v x h k = h

raised :
    (c q : ℕ) (w : Walker) → IsValid c q w → IsValid c q (raise tend (raise tdre (raise rdrf w)))
raised c q w i = poked _ _ (poked _ _ (poked _ _ i))

module _ {c q : ℕ} {w : Walker} where
  progress-IsValid : IsValid c q w → IsValid c q (progress w).0
  unfolding progress
  progress-IsValid i =
      let p = i.devices.partial in
      let k = (w.ssu.progress + 1) % 256 in
      elim (Bool-cases (k == 7)) [
        | inl e ↦ rw e (with_ssu 0 (omega arith) i)
        | inr e ↦ rw e (with_ssu k (ground (arith, e, p)) i)
      ]

  accel_receive_in-IsValid :
      (s : AccelState) → IsValid c q w → Reaches (IsValid c q) (accel_receive_in s w)
  unfolding accel_receive_in
  accel_receive_in-IsValid AccelState.getting_address i =
      let low : peek w sstdr % 16 < 256 = omega arith in
      let none_yet : 0 < 256 = omega arith in search (poked, with_accel, i.devices.accel_bytes)
  accel_receive_in-IsValid AccelState.getting_bytes i =
      let x = w.accel in
      let d = i.devices in
      let read =
        with_accel (record x { offset = (x.offset + 1) % 256 }) d.accel_address (omega arith)
          d.accel_bytes (poked ssrdr (x.memory (x.address + x.offset)) i) in
      if-Reaches (IsValid c q) (ltb (x.address + x.offset) 29) _ undefined (raised c q _ read) tt

  accel_transmit_in-IsValid :
      (s : AccelState) → IsValid c q w → Reaches (IsValid c q) (accel_transmit_in s w)
  unfolding accel_transmit_in
  accel_transmit_in-IsValid AccelState.getting_address i =
      search (poked, with_accel, i.bytes, i.devices.accel_bytes)
  accel_transmit_in-IsValid AccelState.getting_bytes i =
      search (if-Reaches, poked, with_accel, update-lt, i.bytes, i.devices.accel_bytes, tt) depth 12

  eeprom_receive_in-IsValid :
      (s : EepromState) → IsValid c q w → Reaches (IsValid c q) (eeprom_receive_in s w)
  unfolding eeprom_receive_in
  eeprom_receive_in-IsValid EepromState.empty i =
      search (either, with_eeprom, i.devices.eeprom_bytes)
  eeprom_receive_in-IsValid EepromState.getting_status_register i = search (poked)
  eeprom_receive_in-IsValid EepromState.getting_address_hi i =
      search (with_eeprom, i.bytes, i.devices.eeprom_bytes)
  eeprom_receive_in-IsValid EepromState.getting_address_lo i =
      search (with_eeprom, i.bytes, i.devices.eeprom_bytes)
  eeprom_receive_in-IsValid EepromState.getting_bytes i =
      let x = w.eeprom in
      let d = i.devices in
      let read =
        with_eeprom (record x { offset = (x.offset + 1) % 65536 }) d.eeprom_status d.eeprom_hi
          d.eeprom_lo (omega arith) d.eeprom_bytes (poked ssrdr (x.memory (eeprom_index x)) i) in
      search (if-Reaches, poked, read, tt)

  eeprom_transmit_in-IsValid :
      (s : EepromState) → IsValid c q w → Reaches (IsValid c q) (eeprom_transmit_in s w)
  unfolding eeprom_transmit_in
  eeprom_transmit_in-IsValid EepromState.empty i =
      let latched : set_bit w.eeprom.status 1 < 256 =
        set_bit-lt w.eeprom.status 1 8 (omega (arith, i.devices.eeprom_status)) (omega arith) in
      search (either, poked, with_eeprom, i.devices.eeprom_bytes)
  eeprom_transmit_in-IsValid EepromState.getting_status_register i = tt
  eeprom_transmit_in-IsValid EepromState.getting_address_hi i =
      search (with_eeprom, i.bytes, i.devices.eeprom_bytes)
  eeprom_transmit_in-IsValid EepromState.getting_address_lo i =
      search (with_eeprom, i.bytes, i.devices.eeprom_bytes)
  eeprom_transmit_in-IsValid EepromState.getting_bytes i =
      let next : (w.eeprom.offset + 1) % 128 < 65536 = omega arith in
      search (if-Reaches, poked, with_eeprom, update-lt, i.bytes, i.devices.eeprom_bytes, tt) depth
        12

  pub lcd_command-IsValid : IsValid c q w → IsValid c q (lcd_command w)
  unfolding lcd_command
  lcd_command-IsValid i =
      let placed = lcd_command_in-IsPlaced w.lcd.state _ w.lcd (i.bytes sstdr) i.devices.lcd in
      let bytes = lcd_command_in-bytes w.lcd.state (peek w sstdr) w.lcd i.devices.lcd_bytes in
      let contrast =
        lcd_command_in-contrast w.lcd.state (peek w sstdr) w.lcd (i.bytes sstdr)
          i.devices.contrast in
      search (poked, with_lcd)

  -- A data byte, behind the count of the calls.
  data_byte-IsValid :
      IsValid c q w
      → Reaches (IsValid c q) (
          let x = w.lcd in
          let i = lcd_index x in
          if ltb i lcd_mem_size
          then ok (
              raise tend (
                raise tdre (record w {
                  lcd = record x {
                    memory = update x.memory i (peek w sstdr);
                    current_column =
                        if x.current_byte == 1
                        then (x.current_column + 1) % 256
                        else x.current_column;
                    current_byte = (x.current_byte + 1) % 2;
                  };
                })))
          else undefined)
  data_byte-IsValid i =
      let p = i.devices.lcd in
      let column : (if w.lcd.current_byte == 1
            then (w.lcd.current_column + 1) % 256
            else w.lcd.current_column)
          < 256 =
        ground (arith, p.column) in
      let byte : (w.lcd.current_byte + 1) % 2 < 2 = omega arith in
      search (if-Reaches, poked, with_lcd, update-lt, i.bytes, i.devices.lcd_bytes, tt) depth 12

  ssu_start : (b : Bool) → IsValid c q w → IsValid c q (if b then w else raise tdre w)
  ssu_start b i = search (either, poked)

-- Behind the seventh call of a transfer.
then_raise :
    (c q bit : ℕ) (o : Outcome)
    → Reaches (IsValid c q) o
    → Reaches (IsValid c q) (o >>= λ w1. ok (raise bit w1))
then_raise c q bit (ok w) h = poked _ _ h
then_raise c q bit (unimplemented w) h = tt
then_raise c q bit undefined h = tt

then_raise_both :
    (c q : ℕ) (o : Outcome)
    → Reaches (IsValid c q) o
    → Reaches (IsValid c q) (o >>= λ w1. ok (raise tdre (raise rdrf w1)))
then_raise_both c q (ok w) h = poked _ _ (poked _ _ h)
then_raise_both c q (unimplemented w) h = tt
then_raise_both c q undefined h = tt

module _ {c q : ℕ} where
  eeprom_receive-IsValid : (w : Walker) → IsValid c q w → Reaches (IsValid c q) (eeprom_receive w)
  unfolding eeprom_receive
  eeprom_receive-IsValid w i =
      let p = progress-IsValid i in
      if-Reaches (IsValid c q) (progress w).1 _ (ok (progress w).0)
        (then_raise_both c q _ (eeprom_receive_in-IsValid _ p)) p

  eeprom_transmit-IsValid : (w : Walker) → IsValid c q w → Reaches (IsValid c q) (eeprom_transmit w)
  unfolding eeprom_transmit
  eeprom_transmit-IsValid w i =
      let p = progress-IsValid i in
      if-Reaches (IsValid c q) (progress w).1 _ (ok (progress w).0)
        (then_raise c q tdre _ (eeprom_transmit_in-IsValid _ p)) p

  pub lcd_data-IsValid : (w : Walker) → IsValid c q w → Reaches (IsValid c q) (lcd_data w)
  unfolding lcd_data
  lcd_data-IsValid w i =
      let p = progress-IsValid i in
      if-Reaches (IsValid c q) (progress w).1 _ (ok (progress w).0) (data_byte-IsValid p) p

  transmit_receive-IsValid :
      (w : Walker) → IsValid c q w → Reaches (IsValid c q) (transmit_receive w)
  unfolding transmit_receive accel_receive
  transmit_receive-IsValid w i =
      search (if-Reaches, accel_receive_in-IsValid, eeprom_receive-IsValid)

  accel_part :
      (w : Walker)
      → IsValid c q w
      → Reaches (IsValid c q) (if accel_selected w then accel_transmit w else ok w)
  unfolding accel_transmit
  accel_part w i = search (if-Reaches, accel_transmit_in-IsValid)

  eeprom_part :
      (w : Walker)
      → IsValid c q w
      → Reaches (IsValid c q) (if eeprom_selected w then eeprom_transmit w else ok w)
  eeprom_part w i = search (if-Reaches, eeprom_transmit-IsValid)

  lcd_part :
      (w : Walker)
      → IsValid c q w
      → Reaches (IsValid c q) (
          if lcd_data_selected w
          then lcd_data w
          else if lcd_selected w
          then ok (lcd_command w)
          else ok w)
  lcd_part w i = search (if-Reaches, lcd_data-IsValid, lcd_command-IsValid)

  transmit-IsValid : (w : Walker) → IsValid c q w → Reaches (IsValid c q) (transmit w)
  unfolding transmit
  transmit-IsValid w i =
      let P = IsValid c q in
      Reaches-bind P P _ _ (Reaches-bind P P _ _ (accel_part w i) eeprom_part) lcd_part

  pub ssu_tick-IsValid : (w : Walker) → IsValid c q w → Reaches (IsValid c q) (ssu_tick w)
  unfolding ssu_tick
  ssu_tick-IsValid w i =
      search (if-Reaches, ssu_start, transmit_receive-IsValid, transmit-IsValid, tt)
