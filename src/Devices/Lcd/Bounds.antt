-- ===== src/Devices/Lcd/Bounds.antt =====
-- About the LCD's memory index and its assertion.
use pokestroller.Base.{ℕ, ◌+◌, ◌%◌, ◌<◌, ◌≡◌, arith, true, Bool-cases, inl, inr, ltb, ◌==◌}
use pokestroller.Machine.{Lcd, LcdState, Walker, peek}
use pokestroller.Devices.Status.{sstdr}
use pokestroller.Devices.Lcd.{lcd_data, lcd_command, lcd_command_in, lcd_index}
use pokestroller.Devices.Protocol.{Holds}

-- Column, page and byte stay in the ranges of their registers.
pub record IsPlaced (x : Lcd) : Type 0 where
  pub column : x.current_column < 256
  pub page : x.current_page < 16
  pub byte : x.current_byte < 2

pub lcd_command_in-IsPlaced :
    (s : LcdState) (v : ℕ) (x : Lcd) → v < 256 → IsPlaced x → IsPlaced (lcd_command_in s v x)
unfolding lcd_command_in
lcd_command_in-IsPlaced LcdState.empty v x h p = ground arith
lcd_command_in-IsPlaced LcdState.reading_contrast v x h p = ground arith

pub lcd_data-IsPlaced : (w : Walker) → IsPlaced w.lcd → Holds (λ w'. IsPlaced w'.lcd) (lcd_data w)
unfolding lcd_data
lcd_data-IsPlaced w p = elim (Bool-cases ((w.ssu.progress + 1) % 256 == 7)) [
  | inl e ↦
      let inside : ltb (lcd_index w.lcd) 5632 ≡ true = ground arith in rw (e, inside) (ground arith)
  | inr e ↦ rw e p
]

-- While column, page and byte are in their ranges, a data byte never fails the assertion
-- `lcdMemIndex < LCD_MEM_SIZE`, and data and command bytes keep the ranges.
pub lcd_in_bounds :
    (w : Walker)
    → IsPlaced w.lcd
    → peek w sstdr < 256
    → Holds (λ w'. IsPlaced w'.lcd) (lcd_data w) × IsPlaced (lcd_command w).lcd
unfolding lcd_command
lcd_in_bounds w p h =
    (lcd_data-IsPlaced w p, lcd_command_in-IsPlaced w.lcd.state (peek w sstdr) w.lcd h p)
