-- ===== src/Cpu/Exec/Group6.antt =====
-- src/walker.c, runNextInstruction: the opcodes 0x60 to 0x6f.
use pokestroller.Base.{◌/◌, [], ◌∷◌, ◌==◌, has_bit, switch, if◌then◌else◌}
use pokestroller.Machine.{Walker, Outcome, ok, unimplemented, ◌>>=◌}
use pokestroller.Alu.{byte, word, long}
use pokestroller.Cpu.Op.{Op, load_reg, advance}
use pokestroller.Cpu.Arith.{and_reg, or_reg, xor_reg}
use pokestroller.Cpu.Moves.{
  load_from, store_to, load_inc, store_dec, store_dec_b, load_disp, store_disp, load_abs_b,
  store_abs_b,
}
use pokestroller.Cpu.BitOps.{bset_reg, bclr_reg, bst_reg}

-- 0x6a and 0x6b: MOV with @aa:16
unfoldable pub exec_mov_abs : Op → Walker → Outcome
exec_mov_abs op w =
    switch op.bh
      ((0x0, ok (if op.al == 0xa then load_abs_b op.cd op.bl w else load_from word op.cd op.bl w))
        ∷ (
          0x8,
          ok (if op.al == 0xa then store_abs_b op.bl op.cd w else store_to word op.bl op.cd w),
        )
        ∷ [])
      (unimplemented w)
    >>= λ w1. ok (advance 2 w1)

-- 0x68, 0x69 and 0x6c to 0x6f: MOV.b and MOV.w through a register
unfoldable pub exec_mov_indirect : Op → Walker → Outcome
exec_mov_indirect op w =
    let into_memory = has_bit op.bh 3 in
    let via = load_reg long op.bh w in
    switch op.al
      ((0x8, ok (if has_bit op.b 7 then store_to byte op.bl via w else load_from byte via op.bl w))
        ∷ (
          0x9,
          ok (if has_bit op.b 7 then store_to word op.bl via w else load_from word via op.bl w),
        )
        ∷ (0xc, ok (if into_memory then store_dec_b op.bl op.bh w else load_inc byte op.bh op.bl w))
        ∷ (
          0xd,
          ok (if into_memory then store_dec word op.bl op.bh w else load_inc word op.bh op.bl w),
        )
        ∷ (
          0xe,
          ok (
              advance 2 (
                if into_memory
                then store_disp byte op.cd op.bl op.bh w
                else load_disp byte op.cd op.bh op.bl w)),
        )
        ∷ (
          0xf,
          ok (
              advance 2 (
                if into_memory
                then store_disp word op.cd op.bl op.bh w
                else load_disp word op.cd op.bh op.bl w)),
        )
        ∷ [])
      (unimplemented w)

-- 0x6X; BIST, with `bH >> 7`, does nothing.
unfoldable pub exec_6 : Op → Walker → Outcome
exec_6 op w =
    switch op.al
      ((0x0, bset_reg (load_reg byte op.bh w) op.bl w)
        ∷ (0x2, bclr_reg (load_reg byte op.bh w) op.bl w)
        ∷ (0x4, ok (or_reg word (load_reg word op.bh w) op.bl w))
        ∷ (0x5, ok (xor_reg word (load_reg word op.bh w) op.bl w))
        ∷ (0x6, ok (and_reg word (load_reg word op.bh w) op.bl w))
        ∷ (0x7, if op.bh / 128 == 1 then ok w else bst_reg op.bh op.bl w)
        ∷ (0xa, exec_mov_abs op w)
        ∷ (0xb, exec_mov_abs op w)
        ∷ (0x1, unimplemented w)
        ∷ (0x3, unimplemented w)
        ∷ [])
      (exec_mov_indirect op w)
