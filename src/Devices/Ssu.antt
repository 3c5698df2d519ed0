-- ===== src/Devices/Ssu.antt =====
-- The SSU part of the clock loop of runNextInstruction.
use pokestroller.Base.{not, ◌&&◌, has_bit, if◌then◌else◌}
use pokestroller.Machine.{Walker, Outcome, ok, unimplemented, peek, ◌>>=◌}
use pokestroller.Devices.Status.{
  sser, sssr, tdre, raise, accel_selected, eeprom_selected, lcd_selected, lcd_data_selected,
}
use pokestroller.Devices.Accel.{accel_receive, accel_transmit}
use pokestroller.Devices.Eeprom.{eeprom_receive, eeprom_transmit}
use pokestroller.Devices.Lcd.{lcd_data, lcd_command}

-- Transmission and reception: the accelerometer, else the EEPROM.
unfoldable pub transmit_receive : Walker → Outcome
transmit_receive w =
    if accel_selected w
    then accel_receive w
    else if eeprom_selected w
    then eeprom_receive w
    else ok w

-- Transmission: each selected device in turn.
unfoldable pub transmit : Walker → Outcome
transmit w =
    (if accel_selected w then accel_transmit w else ok w)
    >>= (λ w1. if eeprom_selected w1 then eeprom_transmit w1 else ok w1)
    >>= λ w2.
        if lcd_data_selected w2
        then lcd_data w2
        else if lcd_selected w2
        then ok (lcd_command w2)
        else ok w2

-- SSER bit 7 is TE and bit 6 is RE; a transfer starts when TDRE is clear.
unfoldable pub ssu_tick : Walker → Outcome
ssu_tick w =
    let te = has_bit (peek w sser) 7 in
    let re = has_bit (peek w sser) 6 in
    let w1 = if te then w else raise tdre w in
    let busy = not (has_bit (peek w1 sssr) tdre) in
    if te && re
    then (if busy then transmit_receive w1 else ok w1)
    else if te
    then (if busy then transmit w1 else ok w1)
    else if re
    then unimplemented w1
    else ok w1
