-- ===== src/Examples/Devices.antt =====
-- Runs of the devices, the timers and the interrupts.
use pokestroller.Base.{
  ℕ, ◌≡◌, ◌<◌, ◌≤◌, ◌+◌, ◌*◌, refl, arith, true, false, not, ◌&&◌, [], ◌∷◌, ◌==◌, has_bit,
  if◌then◌else◌,
}
use pokestroller.Machine.{EepromState, Walker, peek, undefined}
use pokestroller.Cpu.Op.{advance}
use pokestroller.Cpu.Branches.{rte}
use pokestroller.Devices.Status.{ssrdr}
use pokestroller.Devices.Lcd.{lcd_mem_size}
use pokestroller.Devices.Protocol.{Holds, Between, each, receive_byte, transmit_byte}
use pokestroller.Devices.Protocol.Accel.{accel_byte, accel_read}
use pokestroller.Devices.Protocol.Reading.{eeprom_read, eeprom_read_past}
use pokestroller.Devices.Protocol.Writing.{stored, eeprom_write}
use pokestroller.Timers.{tcb1, irr2}
use pokestroller.Timers.Laws.{timer_b_ticks, timer_b_period}
use pokestroller.Interrupts.{interrupts}
use pokestroller.Interrupts.Laws.{
  irq0_pending, rtc_enabled, timer_b_pending, rte-interrupts, timer_b_starved,
}
use pokestroller.Video.{pixel_index, fill_video_buffer}
use pokestroller.Video.Laws.{fill_video_buffer_lem, pixel_index_lem}
use pokestroller.Machine.Memory.{get_memory16}
use pokestroller.Timers.{tcnt, gra}
use pokestroller.Timers.Match.{Counted, Matched, timer_w_ticks, timer_w_period}
use pokestroller.Examples.{off, key_pressed, counting_to_5}
use pokestroller.Interrupts.{ienr1, set_keys}
use pokestroller.Interrupts.Keys.{set_keys_lem}
use pokestroller.Interrupts.Rtc.{Counts, quarters, quarters-Counts}

idle : Between EepromState.empty (λ i. 9) 0 off
idle = record { whole = refl; now = refl; holds = refl; done = refl }

eeprom_write_example :
    Holds
      (λ w'. (j : ℕ) → w'.eeprom.memory j ≡ stored (λ i. 9) (1 * 256 + 4) (5 ∷ 6 ∷ []) j)
      (each transmit_byte (2 ∷ 1 ∷ 4 ∷ 5 ∷ 6 ∷ []) off)
eeprom_write_example =
    eeprom_write (λ i. 9) 1 4 (5 ∷ 6 ∷ []) off idle (omega arith) (omega arith)
      (omega arith, (omega arith, tt)) (omega arith) (omega arith)

eeprom_read_example :
    Holds
      (λ w'. (peek w' ssrdr ≡ 9) × (w'.eeprom.memory ≡ λ i. 9))
      (each receive_byte (3 ∷ 1 ∷ 4 ∷ 0 ∷ 0 ∷ []) off)
eeprom_read_example =
    eeprom_read (λ i. 9) 1 4 0 (0 ∷ []) off idle (λ i. omega arith) (omega arith) (omega arith)
      (omega arith)

eeprom_read_past_example : each receive_byte (3 ∷ 255 ∷ 255 ∷ 0 ∷ 0 ∷ []) off ≡ undefined
eeprom_read_past_example =
    eeprom_read_past (λ i. 9) 255 255 0 (0 ∷ []) off idle (omega arith) (omega arith) (omega arith)
      (omega arith)

timer_b_period_example :
    (254 + 2 < 256
      → (peek (timer_b_ticks 2 off) tcb1 ≡ 254 + 2) × (peek (timer_b_ticks 2 off) irr2 ≡ 0))
    × (254 + 2 ≡ 256
        → 254 < 256
        → (peek (timer_b_ticks 2 off) tcb1 ≡ 7)
          × (has_bit (peek (timer_b_ticks 2 off) irr2) 2 ≡ true))
timer_b_period_example = timer_b_period 2 off (record { on = refl; phase = refl }) (omega arith)

rte-interrupts_example :
    let w' = advance 2 (rte (interrupts key_pressed)) in
    (w'.pc ≡ 0x2c4) × (w'.flags ≡ key_pressed.flags)
rte-interrupts_example = rte-interrupts key_pressed refl (unfold interrupts in refl) (omega arith)

timer_b_starved_example : ((interrupts key_pressed).pc == 0x06fa) ≡ (
    not false
    && not (irq0_pending key_pressed)
    && not (rtc_enabled key_pressed)
    && timer_b_pending key_pressed)
timer_b_starved_example = timer_b_starved key_pressed (omega arith)

-- The LCD with one bit of pixel (4, 1), in its first byte.
abbrev drawn : Walker
drawn = record off { lcd = record off.lcd { memory = λ i. if i == 8 then 2 else 0 } }

fill_video_buffer_lem_example :
    let (frame, w') = fill_video_buffer (λ j. 0) drawn in
    (frame 100 ≡ 0x666666) × (w'.lcd.current_buffer ≡ true)
fill_video_buffer_lem_example = fill_video_buffer_lem (λ j. 0) drawn 100

pixel_index_lem_example :
    (pixel_index off.lcd 95 63 + 1 < lcd_mem_size) × (pixel_index off.lcd 95 63 ≡ 1534)
pixel_index_lem_example = pixel_index_lem off.lcd 95 63 (omega arith) (omega arith)

quarters-Counts_example : Counts 5 off (quarters 5 off)
quarters-Counts_example = quarters-Counts 5 off (omega arith)

set_keys_lem_example :
    (true ≡ false → let w' = set_keys 1 off in (w'.input_queue ≡ 1 ∷ 0 ∷ []) × (w'.sleep ≡ false))
    × (true ≡ true
        → ((set_keys 1 off).input_queue ≡ [])
          × (has_bit (peek off ienr1) 0 ≡ true
              → let w' = interrupts (set_keys 1 off) in
                (w'.input_queue ≡ 1 ∷ 0 ∷ []) × (w'.sleep ≡ false) × (w'.pc ≡ 0xa300)))
set_keys_lem_example = set_keys_lem 1 off

accel_read_example :
    (2 + 1 < 29 → Holds (λ w'. peek w' ssrdr ≡ 0) (each accel_byte (0x82 ∷ 0 ∷ 0 ∷ []) off))
    × (29 ≤ 2 + 1 → each accel_byte (0x82 ∷ 0 ∷ 0 ∷ []) off ≡ undefined)
accel_read_example =
    accel_read (λ i. 0) 0x82 0 (0 ∷ []) off (record { now = refl; holds = refl }) (λ i. omega arith)
      (omega arith)

timer_w_period_example :
    (get_memory16 tcnt counting_to_5 + 4 < get_memory16 gra counting_to_5
      → Counted (get_memory16 tcnt counting_to_5 + 4) counting_to_5 (timer_w_ticks 4 counting_to_5))
    × (get_memory16 tcnt counting_to_5 + 5 ≡ get_memory16 gra counting_to_5
        → Matched counting_to_5 (timer_w_ticks 5 counting_to_5))
timer_w_period_example =
    timer_w_period 4 counting_to_5 (record { on = refl; counting = refl; clearing = refl })
