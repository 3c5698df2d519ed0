-- ===== src/Lib.antt =====
-- The Pokewalker emulator of src/walker.c and src/queue.c: a model of it, and what it does.
--
-- The program emulates a pedometer with an H8/300H processor. A front end calls runNextInstruction
-- in a loop, fillVideoBuffer for each picture, setKeys for each key and quarterRTCInterrupt four
-- times a second; initWalkerFromFiles starts a session from a ROM and an EEPROM file.
--
-- Parts, and the files that model them:
--   Machine          the static variables of src/walker.c and the structs of src/definitions.h as
--                    one record `Walker`; `Outcome`, the result of a step
--   Machine/Memory   setMemory8/16/32 and getMemory8/16/32
--   Machine/Registers  src/regRef.h and getRegRef8/16/32, with the aliasing of ER, E, R, RH and RL
--   Alu              setFlags, setFlagsADD, setFlagsSUB, setFlagsINC, setFlagsMOV
--   Cpu              the instruction decoder of runNextInstruction: Cpu/Op the fetch, Cpu/Arith,
--                    Shifts, Moves, BitOps and Branches the instructions, Cpu/Extended the opcodes
--                    that begin with 0x01, Cpu/Exec the `switch(aH)` and its cases
--   Devices          the SSU part of the clock loop: the accelerometer, the EEPROM and the LCD
--   Timers           runSubClock
--   Interrupts       setKeys, the three RTC interrupts, and "Interrupt handling"
--   Step             runNextInstruction as a whole, composed of the parts above
--   Video            fillVideoBuffer
--   Boot             readImage, initWalkerFromFiles, initializeWalkerImages, copyWalkerEEPROM,
--                    walkerProgramCounter
--   Queue            src/queue.c on an explicit heap
--   Valid            the states in which every number is in the range of its C type: that every
--                    part of runNextInstruction keeps them, opcode table by opcode table
--   Windows          the main loop of src/win_main.c; Windows/Session, the states that it reaches
--   Audio            src/macos_audio.c: the two threads at the ring, step by step
--   Link             src/ir_link.cpp: Link/Poll is pw_link_poll
--   Emulator         src/emulator.cpp, around a core that is a parameter; Emulator/Core, the calls
--                    that pass on to it, and pw_frame
--   Viewer           src/lcdMemViewer.c, from the two dumps to the characters printed
-- Files called Laws, or below a folder of that name, hold the theorems, as do Alu/Compare, Alu/Sums,
-- Devices/Protocol, Devices/Lcd/Bounds, Timers/Match, Interrupts/Keys, Interrupts/Rtc,
-- Step/Clock, Queue/Refine, Windows/Session, Windows/Keys, the files below Audio and Emulator, and
-- Link/Held, Link/Bounds, Link/Stream, Link/Ending and Viewer. Examples holds runs at concrete states.
--
-- Numbers. Every integer is a natural number with the wrap-around of its C type written out. The
-- device registers that the source reaches through pointers into `memory` are bytes of `memory`. The
-- registers alias as on a little-endian host.
--
-- Outcomes. `ok` goes on or returns 0, `unimplemented` returns 1 with the state so far, and
-- `undefined` stands for what C leaves undefined (an index out of bounds, a division by zero, a
-- shift by too much, a signed overflow) and for a failed assertion.
--
-- Parameters. The results of the C library's file calls are the record `FileCalls` of Boot, and
-- malloc is a parameter of Queue. The messages of a round are an argument in Windows; the product
-- and the clamping of floats are parameters of Audio; what the sockets answer is an argument of each
-- operation in Link; the core of PocketWalker is a parameter of Emulator. Null checks of handles are
-- left out.
--
-- Fuel. The loop of pw_run and the send loop of pw_link_poll take the rounds that they may use and
-- return `none` if these are too few; the theorems say how many are enough. All other loops are
-- structural.
--
-- Threads. In Audio each access to a shared variable is a step, atomic accesses happen in one order,
-- and the theorems hold for every sequence of steps. `log`, `logged` and `taken` are read by no
-- thread; they say what was accepted and how much of it was rendered or dropped. In the same way
-- `open_fds` and `wire` of Link record what the operating system holds and has taken.
--
-- Not modelled: the debugging output of src/walker.c and src/utils.c, which prints;
-- the file calls of src/lcdMemViewer.c; the window, the drawing and the waiting of
-- src/win_main.c, and the audio device of src/macos_audio.c, which are calls of the system; of
-- src/emulator.cpp, pw_destroy, the wave form, which is in floats, and the calls that only read a
-- member of the core; the macOS front end in Objective-C; the vendored third_party/pocketwalker.
pub mod Base
pub mod Machine
pub mod Alu
pub mod Cpu
pub mod Devices
pub mod Timers
pub mod Interrupts
pub mod Step
pub mod Video
pub mod Boot
pub mod Queue
pub mod Valid
pub mod Windows
pub mod Audio
pub mod Link
pub mod Emulator
pub mod Viewer
pub mod Examples
