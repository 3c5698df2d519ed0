-- ===== src/Windows/Session.antt =====
-- About the sessions of the main loop of src/win_main.c: the states that it reaches, round by round.
use pokestroller.Base.{
  ℕ, ◌+◌, ◌-◌, ◌*◌, ◌%◌, ◌^◌, ◌<◌, ◌≤◌, ◌≡◌, refl, sym, subst, ap, ◌∙◌, arith, Bool, true, false,
  some, List, [], ◌∷◌, Bool-cases, inl, inr, ◌==◌, has_bit, leb, set_bit-lt, if◌then◌else◌,
}
use mathlib.Core.Option.{some-injective, none-ne-some}
use mathlib.Core.Bool.{false≢true}
use pokestroller.Machine.{Walker, Outcome, ok, unimplemented, undefined}
use pokestroller.Machine.Reaches.{Reaches}
use pokestroller.Boot.{initialize_walker_images, copy_walker_eeprom}
use pokestroller.Step.{run_next_instruction}
use pokestroller.Interrupts.{quarter_rtc_interrupt}
use pokestroller.Video.{fill_video_buffer}
use pokestroller.Valid.{IsValid, counted, with_lcd, recast}
use pokestroller.Valid.Start.{initialize-IsValid}
use pokestroller.Valid.Steps.{
  set_keys-IsValid, quarter_rtc_interrupt-IsValid, Stepped, left_out, run_next_instruction-IsValid,
}
use pokestroller.Windows.{
  Message, key_down, quit, dispatched, Front, vk_space, enter, left, right, press, on_key_down,
  process_messages, tick, after_step, round,
}

-- The images that a session starts from.
pub record AreImages (rom eeprom_image : ℕ → ℕ) : Type 0 where
  pub rom_bytes : (j : ℕ) → rom j < 256
  pub eeprom_bytes : (j : ℕ) → eeprom_image j < 256

-- The state in which a round calls runNextInstruction.
abbrev pub stepped_from : List Message → Front → Walker
stepped_from ms f = (process_messages ms f.walker_running (0, f.walker)).2

-- A round counts unless it calls runNextInstruction for a call that the emulator leaves out.
abbrev pub rounds_counted : List Message → Front → ℕ
rounds_counted ms f = if left_out (stepped_from ms f) then 0 else 1

-- `Session n f`: the loop is at `f` behind `n` rounds that count, and any number of others.
pub data Session : ℕ → Front → Type 0 where
  begin :
      (rom eeprom_image picture : ℕ → ℕ) (w : Walker)
      → AreImages rom eeprom_image
      → w.cycle_count ≡ 0
      → Session 0 (record {
        walker_running = true;
        walker = initialize_walker_images rom eeprom_image w;
        bit_map_memory = picture;
      })
  next :
      (n : ℕ) (f f' : Front) (ms : List Message)
      → Session n f
      → f.walker_running ≡ true
      → round ms f ≡ some f'
      → Session (n + rounds_counted ms f) f'

-- The `n` rounds that count took 2 cycles each, the others none, and `quarters` times the counter was
-- reduced by 921600 and a quarter of a second was signalled.
pub record IsClocked (n : ℕ) (f : Front) : Type 0 where
  pub quarters : ℕ
  pub cycles : quarters * 921600 + f.walker.cycle_count ≡ 2 * n
  pub below : f.walker.cycle_count < 921600
  pub valid : IsValid f.walker.cycle_count (quarters % 256) f.walker

module _ {c q : ℕ} where
  press-IsValid :
      (key code bit n : ℕ) (w : Walker)
      → bit < 8
      → n < 256
      → IsValid c q w
      → let (n', w') = press key code bit (n, w) in (n' < 256) × IsValid c q w'
  unfolding press
  press-IsValid key code bit n w b h i =
      let input = set_bit-lt n bit 8 (omega (arith, h)) b in
      elim (Bool-cases (key == code)) [
        | inl e ↦ rw e (omega (arith, input), set_keys-IsValid _ (omega (arith, input)) i)
        | inr e ↦ rw e (h, i)
      ]

  on_key_down-IsValid :
      (key l_param n : ℕ) (w : Walker)
      → n < 256
      → IsValid c q w
      → let (n', w') = on_key_down key l_param (n, w) in (n' < 256) × IsValid c q w'
  unfolding on_key_down
  on_key_down-IsValid key l_param n w h i =
      let enters = press-IsValid key vk_space enter n w (omega arith) h i in
      let lefts = press-IsValid key 0x5a left _ _ (omega arith) enters.0 enters.1 in
      elim (Bool-cases (has_bit l_param 30)) [
        | inl e ↦ rw e (h, i)
        | inr e ↦ rw e (press-IsValid key 0x58 right _ _ (omega arith) lefts.0 lefts.1)
      ]

  process_messages-IsValid :
      (ms : List Message) (running : Bool) (n : ℕ) (w : Walker)
      → n < 256
      → IsValid c q w
      → IsValid c q (process_messages ms running (n, w)).2
  unfolding process_messages
  process_messages-IsValid [] running n w h i = i
  process_messages-IsValid (key_down key l_param ∷ ms) running n w h i =
      let pressed = on_key_down-IsValid key l_param n w h i in
      process_messages-IsValid ms running _ _ pressed.0 pressed.1
  process_messages-IsValid (quit ∷ ms) running n w h i = process_messages-IsValid ms false n w h i
  process_messages-IsValid (dispatched closing ∷ ms) running n w h i =
      process_messages-IsValid ms _ n w h i

  picture-IsValid :
      (picture : ℕ → ℕ) (w : Walker) → IsValid c q w → IsValid c q (fill_video_buffer picture w).1
  unfolding fill_video_buffer
  picture-IsValid picture w i =
      with_lcd _
        (record {
          column = i.devices.lcd.column;
          page = i.devices.lcd.page;
          byte = i.devices.lcd.byte;
        })
        i.devices.contrast i.devices.lcd_bytes i

tick-running : (f : Front) → (tick f).walker_running ≡ f.walker_running
unfolding tick
tick-running f = ground arith

-- Behind a call that took the counter to `c`, with the quarters before the tick.
tick-IsClocked :
    (n q c : ℕ) (f : Front)
    → IsValid c (q % 256) f.walker
    → q * 921600 + c ≡ 2 * n
    → c < 921602
    → IsClocked n (tick f)
unfolding tick
tick-IsClocked n q c f i sum small = elim (Bool-cases (leb 921600 f.walker.cycle_count)) [
  | inl e ↦
      let w1 = record f.walker { cycle_count = f.walker.cycle_count - 921600 } in
      let j =
        quarter_rtc_interrupt-IsValid w1
          (counted w1.cycle_count (omega (arith, i.cycle_range)) i) in
      let v = picture-IsValid f.bit_map_memory (quarter_rtc_interrupt w1) j in
      let next_quarter : (q % 256 + 1) % 256 ≡ (q + 1) % 256 = omega arith in
      let full : 921600 ≤ f.walker.cycle_count = ground (arith, e) in
      rw e (record {
        quarters = q + 1;
        cycles = omega (arith, full, v.cycles, i.cycles, sum);
        below = omega (arith, full, v.cycles, i.cycles, small);
        valid = recast v (sym v.cycles) next_quarter;
      })
  | inr e ↦ rw e (record {
    quarters = q;
    cycles = omega (arith, sum, i.cycles);
    below = ground (arith, e);
    valid = recast i (sym i.cycles) refl;
  })
]

counted_cycles :
    (n q c : ℕ) (out : Bool)
    → q * 921600 + c ≡ 2 * n
    → c < 921600
    → let c' = if out then c else (c + 2) % 2 ^ 64 in
      (q * 921600 + c' ≡ 2 * (n + (if out then 0 else 1))) × (c' < 921602)
counted_cycles n q c true h k = (omega (arith, h), omega (arith, k))
counted_cycles n q c false h k = (omega (arith, h, k), omega (arith, k))

-- A step from `w0` that goes on to `w`: the counter, and the rounds that count.
after_step-IsClocked :
    (n : ℕ) (running : Bool) (picture : ℕ → ℕ) (f f' : Front) (w0 : Walker) (h : IsClocked n f)
    (o : Outcome)
    → Reaches (Stepped f.walker.cycle_count (h.quarters % 256) w0) o
    → after_step running picture o ≡ some f'
    → f'.walker_running ≡ true
    → IsClocked (n + (if left_out w0 then 0 else 1)) f'
unfolding after_step
after_step-IsClocked n running picture f f' w0 h (ok w) i e r =
    let out = left_out w0 in
    let k = n + (if out then 0 else 1) in
    let c = f.walker.cycle_count in
    let c' = if out then c else (c + 2) % 2 ^ 64 in
    let (sum, small) = counted_cycles n h.quarters c out h.cycles h.below in
    subst (IsClocked k) (some-injective _ _ e) (tick-IsClocked k h.quarters c' _ i sum small)
after_step-IsClocked n running picture f f' w0 h (unimplemented w) i e r =
    let stopped : Front = record { walker_running = false; walker = w; bit_map_memory = picture } in
    absurd (
      false≢true
        (sym (tick-running stopped) ∙ ap (λ x. x.walker_running) (some-injective _ _ e) ∙ r))
after_step-IsClocked n running picture f f' w0 h undefined i e r = absurd (none-ne-some f' e)

round-after_step :
    (ms : List Message) (f : Front)
    → after_step
        (process_messages ms f.walker_running (0, f.walker)).0
        f.bit_map_memory
        (run_next_instruction (process_messages ms f.walker_running (0, f.walker)).2)
      ≡ round ms f
unfolding round
round-after_step ms f = refl

-- While the loop runs, every number of the session is in the range of its C type and every device
-- where its registers can address. The cycle counter is below 921600 at the head of the loop; with
-- 921600 for each quarter of a second that was signalled it is twice the number of rounds so far, not
-- counting those whose call of runNextInstruction is left out.
pub Session-clock : (n : ℕ) (f : Front) → Session n f → f.walker_running ≡ true → IsClocked n f
Session-clock n f (begin rom eeprom_image picture w m z) r =
    let start =
      initialize-IsValid rom eeprom_image w m.rom_bytes m.eeprom_bytes (omega (arith, z)) in
    record {
      quarters = 0;
      cycles = omega (arith, start.cycles, z);
      below = omega (arith, start.cycles, z);
      valid = recast start (sym start.cycles) refl;
    }
Session-clock n f (next n' f0 f' ms s r0 e) r =
    let h = Session-clock n' f0 s r0 in
    let w0 = stepped_from ms f0 in
    after_step-IsClocked n' _ f0.bit_map_memory f0 f w0 h (run_next_instruction w0)
      (run_next_instruction-IsValid _ _ _
        (process_messages-IsValid ms f0.walker_running 0 f0.walker (omega arith) h.valid))
      (round-after_step ms f0 ∙ e) r

-- In any state that the running loop reaches, the session can be saved, and the saved EEPROM, with a
-- ROM image, is again an image that a session can start from.
pub Session-save :
    (rom : ℕ → ℕ) (n : ℕ) (f : Front)
    → ((j : ℕ) → rom j < 256)
    → Session n f
    → f.walker_running ≡ true
    → (m : ℕ → ℕ) × (copy_walker_eeprom true 65536 f.walker ≡ some m) × AreImages rom m
unfolding copy_walker_eeprom
Session-save rom n f h s r =
    let v = (Session-clock n f s r).valid in
    (
      f.walker.eeprom.memory,
      rw v.ready refl,
      record { rom_bytes = h; eeprom_bytes = v.devices.eeprom_bytes },
    )
