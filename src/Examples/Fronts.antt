-- ===== src/Examples/Fronts.antt =====
-- Runs of src/macos_audio.c, src/ir_link.cpp, src/emulator.cpp and src/lcdMemViewer.c.
use pokestroller.Base.{
  ℕ, ◌+◌, ◌*◌, ◌%◌, ◌≡◌, ◌≢◌, ◌<◌, ◌≤◌, ◌⊎◌, refl, arith, Bool, true, false, ◌&&◌, none, some,
  length, List, [], ◌∷◌, ◌++◌, ◌==◌, ltb, leb, if◌then◌else◌,
}
use pokestroller.Audio.{Audio, opened, Move, audio, main, submit, set_active, moves}
use pokestroller.Audio.Schedule.{ring_fifo, ring_apart}
use pokestroller.Link.{
  Link, connected, SocketAnswers, ListenAnswers, pw_link_create, pw_link_listen,
}
use pokestroller.Link.Poll.{
  PollAnswers, Accepted, Sent, Received, bytes, taken, not_yet, pw_link_poll,
}
use pokestroller.Link.Held.{IsLink}
use pokestroller.Link.Bounds.{Ends, listen, created, called, Reached-IsLink}
use pokestroller.Link.Stream.{IsMoved, poll_stream}
use pokestroller.Link.Ending.{IsEnded, poll_ends}
use pokestroller.Emulator.{
  Emulator, Round, elapsed, pw_run, pw_ir_transmit, pw_eeprom, pw_clock, equal_from, magic,
}
use pokestroller.Emulator.Queues.{pw_ir_transmit_lem}
use pokestroller.Emulator.Run.{IsRun, pw_run-IsRun}
use pokestroller.Emulator.Snapshot.{IsRecord, pw_eeprom_lem}
use pokestroller.Viewer.{HasNoDash, print_lines, print_lines-HasNoDash}

-- Two samples are submitted, and a callback is about to render the first while a third is submitted.
abbrev ring_moves : List Move
ring_moves =
    set_active true
    ∷ submit (5 ∷ 6 ∷ [])
    ∷ main
    ∷ main
    ∷ main
    ∷ main
    ∷ audio
    ∷ audio
    ∷ audio
    ∷ submit (7 ∷ [])
    ∷ main
    ∷ []

abbrev ring_state : Audio
ring_state = moves (λ x v. x) (λ v. v) ring_moves (opened 1)

ring_fifo_example :
    (ring_state.taken < ring_state.logged) × (ring_state.ring 0 ≡ ring_state.log ring_state.taken)
unfolding moves
ring_fifo_example =
    ring_fifo (λ x v. x) (λ v. v) ring_moves 1 0 2 1 512 (λ i. 0) refl (λ e. omega (arith, e))

ring_apart_example : (0 + 1) % 4294967296 % 8192 ≢ 2 % 8192
unfolding moves
ring_apart_example =
    ring_apart (λ x v. x) (λ v. v) ring_moves 1 0 2 1 512 0 2 1 (λ i. 0) (7 ∷ []) refl refl
      (omega arith) (omega arith)

abbrev new_socket : SocketAnswers
new_socket = record { fd = some 3; flags_ok = true; errno = 0 }

abbrev bound_there : ListenAnswers
bound_there = record { bound = true; named = true; name_port = 49200; errno = 0 }

abbrev listening_link : Link
listening_link = (pw_link_listen new_socket bound_there pw_link_create).1

Reached-IsLink_example : IsLink listening_link
Reached-IsLink_example =
    Reached-IsLink listening_link
      (called (listen new_socket bound_there) pw_link_create listening_link created refl)

-- Three bytes wait, the first call of send takes two, and five bytes arrive.
abbrev joined_link : Link
joined_link = record pw_link_create {
  peer = some 4;
  state = connected;
  tx = 1 ∷ 2 ∷ 3 ∷ [];
  open_fds = 4 ∷ [];
}

abbrev answers : PollAnswers
answers = record {
  accepted = Accepted.again;
  progress = not_yet;
  sends = λ i. if i == 0 then taken 2 else Sent.would_block;
  receives = λ i. if i == 0 then bytes (9 ∷ 8 ∷ 7 ∷ 6 ∷ 5 ∷ []) else Received.would_block;
}

poll_stream_example :
    Ends (IsMoved answers.receives joined_link) (pw_link_poll 4 answers joined_link)
poll_stream_example = poll_stream 4 answers joined_link 4 refl refl

poll_ends_example : IsEnded (pw_link_poll (0 + 3 + 1) answers joined_link)
poll_ends_example = poll_ends 0 answers joined_link (λ i h e. ground (arith, e))

-- A core that counts its rounds, of three cycles each.
abbrev core_round : ℕ → Round ℕ
core_round s = elapsed (s + 1) 3 [] (s ∷ [])

abbrev emulator : Emulator ℕ
emulator = record {
  soc = 0;
  audio = [];
  ir = 1 ∷ 2 ∷ [];
  error = none;
  cycles = 3686400;
  target = 3686400;
  last_ir_cycle = 0;
  known_firmware = true;
  clock_origin = none;
}

pw_run-IsRun_example :
    (r : Emulator ℕ × Bool) × (pw_run core_round 5 5 emulator ≡ some r) × IsRun (3686400 + 5) r
pw_run-IsRun_example =
    pw_run-IsRun core_round (λ s. (omega arith, omega arith)) 5 emulator
      (record { audio_room = omega arith; ir_room = omega arith }) (omega arith) (omega arith)
      (omega arith)

pw_ir_transmit_lem_example :
    let (out, pw1) = pw_ir_transmit 1 emulator in
    (3686400 < 0 + 921 → (out ≡ []) × (pw1 ≡ emulator))
    × (0 + 921 ≤ 3686400 → (out ++ pw1.ir ≡ 1 ∷ 2 ∷ []) × (length out ≡ (if ltb 2 1 then 2 else 1)))
pw_ir_transmit_lem_example = pw_ir_transmit_lem 1 emulator (omega arith) (omega arith)

-- An EEPROM that begins with "nintendo".
abbrev marked : ℕ → ℕ
marked j =
    if j == 0
    then 110
    else if j == 1
    then 105
    else if j == 2
    then 110
    else if j == 3
    then 116
    else if j == 4
    then 101
    else if j == 5
    then 110
    else if j == 6
    then 100
    else 111

pw_eeprom_lem_example :
    let ready =
      emulator.known_firmware && leb pw_clock emulator.cycles && equal_from 0 marked magic in
    let b = pw_eeprom (λ s a. a % 256) marked emulator in
    (ready ≡ true
      → IsRecord (λ a. a % 256) 0x156 b
        × IsRecord (λ a. a % 256) 0x256 b
        × ((j : ℕ) → (j < 0x156) ⊎ ((0x16f ≤ j) × (j < 0x256)) ⊎ (0x26f ≤ j) → b j ≡ marked j))
    × (ready ≡ false → b ≡ marked)
pw_eeprom_lem_example = pw_eeprom_lem (λ s a. a % 256) marked emulator

-- Two whole pictures: one all dark, one of alternating columns.
print_lines-HasNoDash_example :
    HasNoDash (209 * 64) (print_lines (λ i. 255) (λ i. i % 2 * 255) 64 0)
print_lines-HasNoDash_example = print_lines-HasNoDash (λ i. 255) (λ i. i % 2 * 255) 64 0
