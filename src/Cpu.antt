-- ===== src/Cpu.antt =====
-- The instruction decoder of runNextInstruction in src/walker.c: the `switch(aH)` and all below it.
-- A family of instructions that the source writes out for 8, 16 and 32 bits is one function of the
-- width. Each function takes the nibbles of the instruction that the source passes to getRegRef.
pub mod Op
pub mod Arith
pub mod Shifts
pub mod Moves
pub mod BitOps
pub mod Branches
pub mod Extended
pub mod Exec
pub mod Laws
