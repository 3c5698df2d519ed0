-- ===== src/Windows.antt =====
-- The main loop of src/win_main.c: messages, one call of runNextInstruction, and the picture and the
-- quarter of a second at every 921600 cycles. PeekMessage, which yields the messages of a round, is
-- Windows', so a round takes them as a list; drawing on the window and the waiting for the clock do
-- not change the session.
pub mod Session
pub mod Keys
use pokestroller.Base.{
  ℕ, ◌-◌, Bool, true, false, ◌&&◌, not, Option, none, some, List, [], ◌∷◌, ◌==◌, leb, has_bit,
  set_bit, if◌then◌else◌,
}
use pokestroller.Machine.{Walker, Outcome, ok, unimplemented, undefined}
use pokestroller.Interrupts.{set_keys, quarter_rtc_interrupt}
use pokestroller.Step.{run_next_instruction}
use pokestroller.Video.{fill_video_buffer}

-- `msg.message`; `dispatched` is any other message, `closing` saying whether DispatchMessage calls
-- WindowProc with WM_CLOSE.
pub data Message : Type 0 where
  key_down : ℕ → ℕ → Message
  quit : Message
  dispatched : Bool → Message

-- `walkerRunning`, the session with `cycleCount`, and `bitMapMemory`.
pub record Front : Type 0 where
  pub walker_running : Bool
  pub walker : Walker
  pub bit_map_memory : ℕ → ℕ

-- The virtual key codes, and the bits of walker.h.
abbrev pub vk_space : ℕ
vk_space = 0x20

abbrev pub enter : ℕ
enter = 0

abbrev pub left : ℕ
left = 2

abbrev pub right : ℕ
right = 4

-- SYSTEM_CLOCK_CYCLES_PER_SECOND / TICKS_PER_SEC
abbrev pub cycles_per_tick : ℕ
cycles_per_tick = 921600

-- One `if (key == …)`: the keys of the round so far, with one more, go to setKeys.
unfoldable pub press : ℕ → ℕ → ℕ → ℕ × Walker → ℕ × Walker
press key code bit (new_input, w) =
    let input = set_bit new_input bit in
    if key == code then (input, set_keys input w) else (new_input, w)

-- WM_KEYDOWN: bit 30 of lParam says that the key was down before.
unfoldable pub on_key_down : ℕ → ℕ → ℕ × Walker → ℕ × Walker
unfolding press
on_key_down key l_param s =
    if has_bit l_param 30
    then s
    else press key 0x58 right (press key 0x5a left (press key vk_space enter s))

-- WindowProc, as far as it changes the loop's state: WM_CLOSE ends the loop.
unfoldable pub window_proc : Bool → Bool → Bool
window_proc closing running = running && not closing

-- `while (PeekMessage(…))`
unfoldable pub process_messages : List Message → Bool → ℕ × Walker → Bool × ℕ × Walker
unfolding on_key_down window_proc
process_messages [] running s = (running, s.0, s.1)
process_messages (key_down key l_param ∷ ms) running s =
    process_messages ms running (on_key_down key l_param s)
process_messages (quit ∷ ms) running s = process_messages ms false s
process_messages (dispatched closing ∷ ms) running s =
    process_messages ms (window_proc closing running) s

-- `if (cycleCount >= …)`
unfoldable pub tick : Front → Front
tick f =
    let w = f.walker in
    let w1 = record w { cycle_count = w.cycle_count - cycles_per_tick } in
    let (picture, w2) = fill_video_buffer f.bit_map_memory (quarter_rtc_interrupt w1) in
    if leb cycles_per_tick w.cycle_count
    then record f { walker = w2; bit_map_memory = picture }
    else f

-- `if (error) walkerRunning = false`, and the tick; `none` where runNextInstruction is undefined.
unfoldable pub after_step : Bool → (ℕ → ℕ) → Outcome → Option Front
unfolding tick
after_step running picture (ok w) =
    some (tick (record { walker_running = running; walker = w; bit_map_memory = picture }))
after_step running picture (unimplemented w) =
    some (tick (record { walker_running = false; walker = w; bit_map_memory = picture }))
after_step running picture undefined = none

-- One round of `while (walkerRunning)`.
unfoldable pub round : List Message → Front → Option Front
unfolding process_messages after_step
round ms f =
    let (running, keys, w) = process_messages ms f.walker_running (0, f.walker) in
    after_step running f.bit_map_memory (run_next_instruction w)
