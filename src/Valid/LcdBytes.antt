-- ===== src/Valid/LcdBytes.antt =====
-- A transmission to the LCD alone does not stop the program.
use pokestroller.Base.{ℕ, ◌≡◌, false, Bool-cases, inl, inr}
use pokestroller.Machine.{Walker, Outcome, ok, unimplemented, undefined}
use pokestroller.Machine.Reaches.{Reaches}
use pokestroller.Devices.Status.{accel_selected, eeprom_selected, lcd_selected, lcd_data_selected}
use pokestroller.Devices.Lcd.{lcd_data}
use pokestroller.Devices.Lcd.Bounds.{IsPlaced, lcd_data-IsPlaced}
use pokestroller.Devices.Protocol.{Holds}
use pokestroller.Devices.Ssu.{transmit}
use pokestroller.Valid.{IsValid}
use pokestroller.Valid.Devices.{lcd_data-IsValid, lcd_command-IsValid}

-- An outcome that goes on, with what holds where it does.
Holds-of_Reaches : (P Q : Walker → Type 0) (o : Outcome) → Holds Q o → Reaches P o → Holds P o
Holds-of_Reaches P Q (ok w) h r = r
Holds-of_Reaches P Q (unimplemented w) h r = absurd h
Holds-of_Reaches P Q undefined h r = absurd h

-- In a state in which every number is in the range of its C type, and every device where its
-- registers can address, a transmission with the accelerometer and the EEPROM deselected goes on to
-- such a state: neither a data byte nor a command byte of the LCD stops the program, and the
-- assertion `lcdMemIndex < LCD_MEM_SIZE` does not fail.
pub lcd_never_stops :
    (c q : ℕ) (w : Walker)
    → IsValid c q w
    → accel_selected w ≡ false
    → eeprom_selected w ≡ false
    → Holds (IsValid c q) (transmit w)
unfolding transmit
lcd_never_stops c q w i a e =
    rw (a, e)
      (elim (Bool-cases (lcd_data_selected w)) [
        | inl d ↦ rw d (
            Holds-of_Reaches (IsValid c q) (λ w'. IsPlaced w'.lcd) (lcd_data w)
              (lcd_data-IsPlaced w i.devices.lcd) (lcd_data-IsValid w i))
        | inr d ↦ rw d (elim (Bool-cases (lcd_selected w)) [
          | inl l ↦ rw l (lcd_command-IsValid i)
          | inr l ↦ rw l i
        ])
      ])
