-- ===== src/Step/Clock.antt =====
-- About the clock loop of runNextInstruction, and the interrupts before it.
use pokestroller.Base.{
  ℕ, ◌+◌, ◌%◌, ◌^◌, ◌≡◌, refl, ◌∙◌, arith, ltb, Bool, true, false, inl, inr, Bool-cases, ◌==◌,
  switch, if◌then◌else◌, has_bit, not, ◌&&◌,
}
use pokestroller.Machine.{
  EepromState, AccelState, Walker, Outcome, ok, unimplemented, undefined, ◌>>=◌,
}
use pokestroller.Machine.Reaches.{Reaches, Reaches-bind, Reaches-mono, if-Reaches}
use pokestroller.Devices.Status.{
  progress, sser, sssr, tdre, raise, accel_selected, eeprom_selected, lcd_selected,
  lcd_data_selected,
}
use pokestroller.Devices.Accel.{accel_receive_in, accel_receive, accel_transmit_in, accel_transmit}
use pokestroller.Devices.Eeprom.{
  eeprom_receive_in, eeprom_receive, eeprom_transmit_in, eeprom_transmit,
}
use pokestroller.Devices.Lcd.{lcd_data, lcd_command, lcd_index, lcd_mem_size}
use pokestroller.Devices.Ssu.{transmit_receive, transmit, ssu_tick}
use pokestroller.Machine.{peek}
use pokestroller.Machine.Memory.{set_memory16}
use pokestroller.Timers.{enter_interrupt, timer_b_tick, timer_w_tick, run_sub_clock}
use pokestroller.Interrupts.{interrupts}
use pokestroller.Step.{clock_cycle, after_instruction}

-- The registers and the cycle counter are as they were.
pub record Keeps (w w' : Walker) : Type 0 where
  pub registers : w'.er ≡ w.er
  pub cycles : w'.cycle_count ≡ w.cycle_count

same : (w : Walker) → Keeps w w
same w = record { registers = refl; cycles = refl }

eeprom_receive_in-Keeps : (s : EepromState) (w : Walker) → Reaches (Keeps w) (eeprom_receive_in s w)
unfolding eeprom_receive_in switch
eeprom_receive_in-Keeps EepromState.empty w = ground arith
eeprom_receive_in-Keeps EepromState.getting_status_register w = record {
  registers = refl;
  cycles = refl;
}
eeprom_receive_in-Keeps EepromState.getting_address_hi w = record {
  registers = refl;
  cycles = refl;
}
eeprom_receive_in-Keeps EepromState.getting_address_lo w = record {
  registers = refl;
  cycles = refl;
}
eeprom_receive_in-Keeps EepromState.getting_bytes w = ground arith

accel_receive_in-Keeps : (s : AccelState) (w : Walker) → Reaches (Keeps w) (accel_receive_in s w)
unfolding accel_receive_in
accel_receive_in-Keeps AccelState.getting_address w = record { registers = refl; cycles = refl }
accel_receive_in-Keeps AccelState.getting_bytes w = ground arith

if-Keeps :
    (w : Walker) (b : Bool) (x y : Walker) → Keeps w x → Keeps w y → Keeps w (if b then x else y)
if-Keeps w true x y h k = h
if-Keeps w false x y h k = k

timer_b_tick-Keeps : (w : Walker) → Keeps w (timer_b_tick w)
unfolding timer_b_tick
timer_b_tick-Keeps w = ground arith

timer_w_tick-Keeps : (w : Walker) → Keeps w (timer_w_tick w)
unfolding timer_w_tick enter_interrupt set_memory16
timer_w_tick-Keeps w = ground arith

run_sub_clock-Keeps : (w : Walker) → Keeps w (run_sub_clock w)
unfolding run_sub_clock
run_sub_clock-Keeps w =
    let b = timer_b_tick-Keeps w in
    let t = timer_w_tick-Keeps (timer_b_tick w) in
    record { registers = t.registers ∙ b.registers; cycles = t.cycles ∙ b.cycles }

interrupts-Keeps : (w : Walker) → Keeps w (interrupts w)
unfolding interrupts
interrupts-Keeps w = ground arith

accel_transmit_in-Keeps : (s : AccelState) (w : Walker) → Reaches (Keeps w) (accel_transmit_in s w)
unfolding accel_transmit_in
accel_transmit_in-Keeps AccelState.getting_address w = record { registers = refl; cycles = refl }
accel_transmit_in-Keeps AccelState.getting_bytes w = ground arith

eeprom_transmit_in-Keeps :
    (s : EepromState) (w : Walker) → Reaches (Keeps w) (eeprom_transmit_in s w)
unfolding eeprom_transmit_in switch
eeprom_transmit_in-Keeps EepromState.empty w = ground arith
eeprom_transmit_in-Keeps EepromState.getting_status_register w = tt
eeprom_transmit_in-Keeps EepromState.getting_address_hi w = record {
  registers = refl;
  cycles = refl;
}
eeprom_transmit_in-Keeps EepromState.getting_address_lo w = record {
  registers = refl;
  cycles = refl;
}
eeprom_transmit_in-Keeps EepromState.getting_bytes w = ground arith

progress-Keeps : (w : Walker) → Keeps w (progress w).0
unfolding progress
progress-Keeps w = ground arith

from : (w w1 w2 : Walker) → Keeps w w1 → Keeps w1 w2 → Keeps w w2
from w w1 w2 h k = record { registers = k.registers ∙ h.registers; cycles = k.cycles ∙ h.cycles }

eeprom_receive-Keeps : (w : Walker) → Reaches (Keeps w) (eeprom_receive w)
unfolding eeprom_receive
eeprom_receive-Keeps w =
    let w1 = (progress w).0 in
    let p = progress-Keeps w in
    elim (Bool-cases (progress w).1) [
      | inl e ↦ rw e (
          Reaches-bind (Keeps w1) (Keeps w) _ _ (eeprom_receive_in-Keeps w1.eeprom.state w1)
            λ w2 h. record { registers = h.registers ∙ p.registers; cycles = h.cycles ∙ p.cycles })
      | inr e ↦ rw e p
    ]

eeprom_transmit-Keeps : (w : Walker) → Reaches (Keeps w) (eeprom_transmit w)
unfolding eeprom_transmit
eeprom_transmit-Keeps w =
    let w1 = (progress w).0 in
    let p = progress-Keeps w in
    elim (Bool-cases (progress w).1) [
      | inl e ↦ rw e (
          Reaches-bind (Keeps w1) (Keeps w) _ _ (eeprom_transmit_in-Keeps w1.eeprom.state w1)
            λ w2 h. record { registers = h.registers ∙ p.registers; cycles = h.cycles ∙ p.cycles })
      | inr e ↦ rw e p
    ]

lcd_data-Keeps : (w : Walker) → Reaches (Keeps w) (lcd_data w)
unfolding lcd_data
lcd_data-Keeps w =
    let p = progress-Keeps w in
    elim (Bool-cases (progress w).1) [
      | inl e ↦ elim (Bool-cases (ltb (lcd_index (progress w).0.lcd) lcd_mem_size)) [
        | inl e' ↦ rw (e, e') (record { registers = p.registers; cycles = p.cycles })
        | inr e' ↦ rw (e, e') tt
      ]
      | inr e ↦ rw e p
    ]

transmit_receive-Keeps : (w : Walker) → Reaches (Keeps w) (transmit_receive w)
unfolding transmit_receive accel_receive
transmit_receive-Keeps w =
    if-Reaches (Keeps w) (accel_selected w) (accel_receive w)
      (if eeprom_selected w then eeprom_receive w else ok w)
      (accel_receive_in-Keeps w.accel.state w)
      (if-Reaches (Keeps w) (eeprom_selected w) (eeprom_receive w) (ok w) (eeprom_receive-Keeps w)
        (same w))

-- A stage that keeps the state it starts from, behind one that kept the state `w`.
Reaches-Keeps :
    (w w1 : Walker) (o : Outcome) → Keeps w w1 → Reaches (Keeps w1) o → Reaches (Keeps w) o
Reaches-Keeps w w1 (ok w2) h k = from w w1 w2 h k
Reaches-Keeps w w1 (unimplemented w2) h k = tt
Reaches-Keeps w w1 undefined h k = tt

lcd-Keeps :
    (w : Walker)
    → Reaches (Keeps w) (
        if lcd_data_selected w
        then lcd_data w
        else if lcd_selected w
        then ok (lcd_command w)
        else ok w)
unfolding lcd_command
lcd-Keeps w =
    if-Reaches (Keeps w) (lcd_data_selected w) (lcd_data w)
      (if lcd_selected w then ok (lcd_command w) else ok w) (lcd_data-Keeps w)
      (if-Reaches (Keeps w) (lcd_selected w) (ok (lcd_command w)) (ok w)
        (record { registers = refl; cycles = refl }) (same w))

transmit-Keeps : (w : Walker) → Reaches (Keeps w) (transmit w)
unfolding transmit accel_transmit
transmit-Keeps w =
    Reaches-bind (Keeps w) (Keeps w)
      ((if accel_selected w then accel_transmit w else ok w) >>= λ w1.
        if eeprom_selected w1 then eeprom_transmit w1 else ok w1)
      _
      (Reaches-bind (Keeps w) (Keeps w) (if accel_selected w then accel_transmit w else ok w) _
        (if-Reaches (Keeps w) (accel_selected w) (accel_transmit w) (ok w)
          (accel_transmit_in-Keeps w.accel.state w) (same w))
        λ w1 h. Reaches-Keeps w w1 (if eeprom_selected w1 then eeprom_transmit w1 else ok w1) h (
          if-Reaches (Keeps w1) (eeprom_selected w1) (eeprom_transmit w1) (ok w1)
            (eeprom_transmit-Keeps w1) (same w1)))
      λ w2 h. Reaches-Keeps w w2 _ h (lcd-Keeps w2)

ssu_tick-Keeps : (w : Walker) → Reaches (Keeps w) (ssu_tick w)
unfolding ssu_tick
ssu_tick-Keeps w =
    let te = has_bit (peek w sser) 7 in
    let re = has_bit (peek w sser) 6 in
    let w1 = if te then w else raise tdre w in
    let start =
      if-Keeps w te w (raise tdre w) (same w) (record { registers = refl; cycles = refl }) in
    let busy = not (has_bit (peek w1 sssr) tdre) in
    let both =
      if-Reaches (Keeps w) busy (transmit_receive w1) (ok w1)
        (Reaches-Keeps w w1 (transmit_receive w1) start (transmit_receive-Keeps w1)) start in
    let out =
      if-Reaches (Keeps w) busy (transmit w1) (ok w1)
        (Reaches-Keeps w w1 (transmit w1) start (transmit-Keeps w1)) start in
    if-Reaches (Keeps w) (te && re) (if busy then transmit_receive w1 else ok w1)
      (if te then (if busy then transmit w1 else ok w1) else if re then unimplemented w1 else ok w1)
      both
      (if-Reaches (Keeps w) te (if busy then transmit w1 else ok w1)
        (if re then unimplemented w1 else ok w1) out
        (if-Reaches (Keeps w) re (unimplemented w1) (ok w1) tt start))

-- The registers of the state before, and its cycle counter `n` cycles on.
pub record Ticks (n : ℕ) (w w' : Walker) : Type 0 where
  pub registers : w'.er ≡ w.er
  pub cycles : w'.cycle_count ≡ (w.cycle_count + n) % 2 ^ 64

clock_cycle-Ticks : (w : Walker) → Reaches (Ticks 1 w) (clock_cycle w)
unfolding clock_cycle
clock_cycle-Ticks w =
    let w1 = record w { cycle_count = (w.cycle_count + 1) % 2 ^ 64 } in
    Reaches-bind (Keeps w1) (Ticks 1 w) (if w1.cycle_count % 4 == 0 then ssu_tick w1 else ok w1) _
      (if-Reaches (Keeps w1) (w1.cycle_count % 4 == 0) (ssu_tick w1) (ok w1) (ssu_tick-Keeps w1)
        (same w1))
      λ w2 h.
        let ticked = record w2 {
          sub_clock_cycles_ellapsed = (w2.sub_clock_cycles_ellapsed + 1) % 2 ^ 64;
        } in
        let k =
          if-Keeps w2 (w2.cycle_count % 112 == 0) (run_sub_clock ticked) w2
            (from w2 ticked (run_sub_clock ticked) (record { registers = refl; cycles = refl })
              (run_sub_clock-Keeps ticked))
            (same w2) in
        record { registers = k.registers ∙ h.registers; cycles = k.cycles ∙ h.cycles }

-- The interrupts and the clock loop that follow an instruction, or stand in for it while the
-- processor sleeps, leave the general registers alone and advance the cycle counter by 2, modulo
-- 2 ^ 64, wherever the devices do not stop the program.
pub after_instruction-Ticks : (w : Walker) → Reaches (Ticks 2 w) (after_instruction w)
unfolding after_instruction
after_instruction-Ticks w =
    let i = interrupts-Keeps w in
    Reaches-bind (Ticks 1 (interrupts w)) (Ticks 2 w) (clock_cycle (interrupts w)) clock_cycle
      (clock_cycle-Ticks (interrupts w))
      λ w1 h. Reaches-mono (Ticks 1 w1) (Ticks 2 w) (clock_cycle w1) (clock_cycle-Ticks w1) λ w2 k.
        record {
          registers = k.registers ∙ h.registers ∙ i.registers;
          cycles = omega (arith, k.cycles, h.cycles, i.cycles);
        }
