-- ===== src/Devices/Eeprom.antt =====
-- The EEPROM on the SSU: a command byte, two address bytes, then data. Its memory has 65536 bytes,
-- and the source adds the offset to the address without a check.
use pokestroller.Base.{ℕ, ◌+◌, ◌*◌, ◌%◌, [], ◌∷◌, ltb, update, switch, set_bit, if◌then◌else◌}
use pokestroller.Machine.{
  Eeprom, EepromState, Walker, Outcome, ok, unimplemented, undefined, peek, poke, ◌>>=◌,
}
use pokestroller.Devices.Status.{ssrdr, sstdr, rdrf, tdre, tend, raise, progress}

abbrev pub eeprom_size : ℕ
eeprom_size = 65536

abbrev pub page_size : ℕ
page_size = 128

abbrev with_eeprom : Walker → Eeprom → Walker
with_eeprom w x = record w { eeprom = x }

-- `((hiAddress << 8) | loAddress) + offset`, for two bytes.
abbrev pub eeprom_index : Eeprom → ℕ
eeprom_index x = x.hi_address * 256 + x.lo_address + x.offset

-- One received byte.
unfoldable pub eeprom_receive_in : EepromState → Walker → Outcome
unfolding switch
eeprom_receive_in EepromState.empty w =
    let x = w.eeprom in
    ok (
      switch (peek w sstdr)
        ((3, with_eeprom w (record x { state = EepromState.getting_address_hi }))
          ∷ (5, with_eeprom w (record x { state = EepromState.getting_status_register }))
          ∷ [])
        w)
eeprom_receive_in EepromState.getting_status_register w =
    ok (raise tend (poke w ssrdr w.eeprom.status))
eeprom_receive_in EepromState.getting_address_hi w =
    let x = w.eeprom in
    ok (
      with_eeprom w
        (record x { hi_address = peek w sstdr; state = EepromState.getting_address_lo }))
eeprom_receive_in EepromState.getting_address_lo w =
    let x = w.eeprom in
    ok (with_eeprom w (record x { lo_address = peek w sstdr; state = EepromState.getting_bytes }))
eeprom_receive_in EepromState.getting_bytes w =
    let x = w.eeprom in
    let i = eeprom_index x in
    let w1 =
      with_eeprom (poke w ssrdr (x.memory i)) (record x { offset = (x.offset + 1) % 65536 }) in
    if ltb i eeprom_size then ok (raise tend w1) else undefined

unfoldable pub eeprom_receive : Walker → Outcome
unfolding eeprom_receive_in progress
eeprom_receive w =
    let (w1, finished) = progress w in
    if finished
    then (eeprom_receive_in w1.eeprom.state w1 >>= λ w2. ok (raise tdre (raise rdrf w2)))
    else ok w1

-- One transmitted byte; WRITE does not test the write enable latch.
unfoldable pub eeprom_transmit_in : EepromState → Walker → Outcome
unfolding switch
eeprom_transmit_in EepromState.empty w =
    let x = w.eeprom in
    ok (
      switch (peek w sstdr)
        ((6, raise tend (with_eeprom w (record x { status = set_bit x.status 1 })))
          ∷ (2, with_eeprom w (record x { state = EepromState.getting_address_hi }))
          ∷ [])
        w)
eeprom_transmit_in EepromState.getting_status_register w = unimplemented w
eeprom_transmit_in EepromState.getting_address_hi w =
    let x = w.eeprom in
    ok (
      with_eeprom w
        (record x { hi_address = peek w sstdr; state = EepromState.getting_address_lo }))
eeprom_transmit_in EepromState.getting_address_lo w =
    let x = w.eeprom in
    ok (with_eeprom w (record x { lo_address = peek w sstdr; state = EepromState.getting_bytes }))
eeprom_transmit_in EepromState.getting_bytes w =
    let x = w.eeprom in
    let i = eeprom_index x in
    let w1 = with_eeprom w (record x {
      memory = update x.memory i (peek w sstdr);
      offset = (x.offset + 1) % page_size;
    }) in
    if ltb i eeprom_size then ok (raise tend w1) else undefined

unfoldable pub eeprom_transmit : Walker → Outcome
unfolding eeprom_transmit_in progress
eeprom_transmit w =
    let (w1, finished) = progress w in
    if finished then (eeprom_transmit_in w1.eeprom.state w1 >>= λ w2. ok (raise tdre w2)) else ok w1
