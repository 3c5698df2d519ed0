-- ===== src/Cpu/Exec/Group7.antt =====
-- src/walker.c, runNextInstruction: the opcodes 0x70 to 0x7f.
use pokestroller.Base.{ℕ, ◌+◌, ◌/◌, [], ◌∷◌, ◌==◌, switch, if◌then◌else◌}
use pokestroller.Machine.{Walker, Outcome, ok, unimplemented, ◌>>=◌}
use pokestroller.Alu.{Width, byte, word, long}
use pokestroller.Cpu.Op.{Op, load_reg, advance}
use pokestroller.Cpu.Arith.{add, sub, cmp, and_reg, or_reg, xor_reg}
use pokestroller.Cpu.Moves.{mov}
use pokestroller.Cpu.BitOps.{
  bset_reg, bclr_reg, bset_mem, bclr_mem, bnot_mem, bst_mem, btst_reg, bld_reg, bld_mem,
}

-- 0x79 and 0x7a: an immediate word or long, with the source's `switch(bH)`.
unfoldable pub exec_immediate : Width → ℕ → Op → Walker → Outcome
exec_immediate wd value op w =
    switch op.bh
      ((0x0, ok (mov wd value op.bl w))
        ∷ (0x1, ok (add wd op.bl value w))
        ∷ (0x2, ok (cmp wd op.bl value w))
        ∷ (0x3, ok (sub wd op.bl value w))
        ∷ (0x4, ok (or_reg wd value op.bl w))
        ∷ (0x5, ok (xor_reg wd value op.bl w))
        ∷ (0x6, ok (and_reg wd value op.bl w))
        ∷ [])
      (unimplemented w)

-- 0x7e: BLD #xx:3, @aa:8; the other bit tests return 1.
unfoldable pub exec_bit_test_abs : Op → Walker → Outcome
exec_bit_test_abs op w =
    (if op.ch == 0x6
      then unimplemented w
      else if op.ch == 0x7
      then (if op.cl == 0x7
          then ok (if op.dh / 128 == 1 then w else bld_mem op.dh (65280 + op.b) w)
          else unimplemented w)
      else ok w)
    >>= λ w1. ok (advance 2 w1)

-- 0x7d: bit instructions @ERd
unfoldable pub exec_bit_indirect : Op → Walker → Outcome
exec_bit_indirect op w =
    let address = load_reg long op.bh w in
    switch op.c
      ((0x70, bset_mem op.dh address w)
        ∷ (0x60, bset_mem (load_reg byte op.dh w) address w)
        ∷ (0x71, bnot_mem op.dh address w)
        ∷ (0x72, bclr_mem op.dh address w)
        ∷ (0x62, bclr_mem (load_reg byte op.dh w) address w)
        ∷ (0x67, bst_mem op.dh address w)
        ∷ [])
      (unimplemented w)
    >>= λ w1. ok (advance 2 w1)

-- 0x7f: bit instructions @aa:8
unfoldable pub exec_bit_abs : Op → Walker → Outcome
exec_bit_abs op w =
    let address = 65280 + op.b in
    switch op.c
      ((0x70, bset_mem op.dh address w)
        ∷ (0x60, bset_mem (load_reg byte op.dh w) address w)
        ∷ (0x72, bclr_mem op.dh address w)
        ∷ (0x62, bclr_mem (load_reg byte op.dh w) address w)
        ∷ [])
      (unimplemented w)
    >>= λ w1. ok (advance 2 w1)

-- 0x7X; BILD, with `bH >> 7`, does nothing.
unfoldable pub exec_7 : Op → Walker → Outcome
exec_7 op w =
    switch op.al
      ((0x0, bset_reg op.bh op.bl w)
        ∷ (0x2, bclr_reg op.bh op.bl w)
        ∷ (0x3, ok (btst_reg op.bh op.bl w))
        ∷ (0x7, ok (if op.bh / 128 == 1 then w else bld_reg op.bh op.bl w))
        ∷ (0x9, exec_immediate word op.cd op w >>= λ w1. ok (advance 2 w1))
        ∷ (0xa, exec_immediate long op.cdef op w >>= λ w1. ok (advance 4 w1))
        ∷ (
          0xc,
          if op.c == 0x77
              then ok (advance 2 (bld_mem op.dh (load_reg long op.bh w) w))
              else unimplemented w,
        )
        ∷ (0xd, exec_bit_indirect op w)
        ∷ (0xe, exec_bit_test_abs op w)
        ∷ (0xf, exec_bit_abs op w)
        ∷ [])
      (unimplemented w)
