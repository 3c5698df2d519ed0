-- ===== src/Cpu/Exec/Group5.antt =====
-- src/walker.c, runNextInstruction: the opcodes 0x50 to 0x5f.
use pokestroller.Base.{[], ◌∷◌, switch}
use pokestroller.Machine.{Walker, Outcome, ok, unimplemented}
use pokestroller.Cpu.Op.{Op}
use pokestroller.Cpu.Arith.{mulxu_b, mulxu_w, divxu_b, divxu_w}
use pokestroller.Cpu.Branches.{branch16, rts, bsr8, bsr16, rte, jmp_reg, jmp_abs, jsr_reg, jsr_abs}

-- 0x5X
unfoldable pub exec_5 : Op → Walker → Outcome
exec_5 op w =
    switch op.al
      ((0x0, mulxu_b op.bh op.bl w)
        ∷ (0x2, mulxu_w op.bh op.bl w)
        ∷ (0x1, divxu_b op.bh op.bl w)
        ∷ (0x3, divxu_w op.bh op.bl w)
        ∷ (0x4, ok (rts w))
        ∷ (0x5, ok (bsr8 op.b w))
        ∷ (0xc, ok (bsr16 op.cd w))
        ∷ (0x6, ok (rte w))
        ∷ (0x8, branch16 op.bh op.cd w)
        ∷ (0x9, ok (jmp_reg op.bh w))
        ∷ (0xa, ok (jmp_abs op.b op.cd w))
        ∷ (0xb, ok w)
        ∷ (0xd, ok (jsr_reg op.bh w))
        ∷ (0xe, ok (jsr_abs op.b op.cd w))
        ∷ (0xf, ok w)
        ∷ [])
      (unimplemented w)
