-- ===== src/Devices/Lcd.antt =====
-- The LCD controller on the SSU: data bytes go to its memory, command bytes set column and page.
pub mod Bounds
use pokestroller.Base.{ℕ, ◌+◌, ◌*◌, ◌/◌, ◌%◌, Bool, ltb, leb, ◌&&◌, ◌==◌, update, if◌then◌else◌}
use pokestroller.Machine.{Lcd, LcdState, Walker, Outcome, ok, undefined, peek}
use pokestroller.Devices.Status.{sstdr, tdre, tend, raise, progress}

abbrev pub lcd_width : ℕ
lcd_width = 96

abbrev pub lcd_height : ℕ
lcd_height = 64

-- LCD_MEM_WIDTH * LCD_MEM_HEIGHT / 4
abbrev pub lcd_mem_size : ℕ
lcd_mem_size = 5632

abbrev with_lcd : Walker → Lcd → Walker
with_lcd w x = record w { lcd = x }

-- `lcdMemIndex`
abbrev pub lcd_index : Lcd → ℕ
lcd_index x = x.current_page * 192 + x.current_column * 2 + x.current_byte

-- One data byte: `assert(lcdMemIndex < LCD_MEM_SIZE)`, then the write.
unfoldable pub lcd_data : Walker → Outcome
unfolding progress
lcd_data w =
    let (w1, finished) = progress w in
    let x = w1.lcd in
    let i = lcd_index x in
    let column = if x.current_byte == 1 then (x.current_column + 1) % 256 else x.current_column in
    let w2 = with_lcd w1 (record x {
      memory = update x.memory i (peek w1 sstdr);
      current_column = column;
      current_byte = (x.current_byte + 1) % 2;
    }) in
    if finished
    then (if ltb i lcd_mem_size then ok (raise tend (raise tdre w2)) else undefined)
    else ok w1

-- `switch(*SSU.SSTDR)` of the commands. The ors of the source join disjoint bit fields.
unfoldable pub lcd_command_in : LcdState → ℕ → Lcd → Lcd
lcd_command_in LcdState.empty v x =
    if ltb v 0x10
    then record x { current_column = v % 16 + x.current_column / 16 % 16 * 16; current_byte = 0 }
    else if ltb v 0x18
    then record x { current_column = v % 8 * 16 + x.current_column % 16; current_byte = 0 }
    else if leb 0xb0 v && leb v 0xbf
    then record x { current_page = v % 16 }
    else if v == 0x81
    then record x { state = LcdState.reading_contrast }
    else x
lcd_command_in LcdState.reading_contrast v x = record x { contrast = v; state = LcdState.empty }

unfoldable pub lcd_command : Walker → Walker
unfolding lcd_command_in
lcd_command w =
    raise tend (raise tdre (with_lcd w (lcd_command_in w.lcd.state (peek w sstdr) w.lcd)))
