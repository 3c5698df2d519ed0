-- ===== src/Cpu/Exec/Group0.antt =====
-- src/walker.c, runNextInstruction: the opcodes 0x00 to 0x0f.
use pokestroller.Base.{[], ◌∷◌, ◌==◌, leb, switch, if◌then◌else◌}
use pokestroller.Machine.{Walker, Outcome, ok, unimplemented, set_flags}
use pokestroller.Alu.{byte, word, long, load_flags}
use pokestroller.Cpu.Op.{Op, load_reg}
use pokestroller.Cpu.Arith.{add, inc, adds}
use pokestroller.Cpu.Moves.{mov}
use pokestroller.Cpu.Extended.{exec_extended}

-- 0x0a: INC.b and ADD.l
unfoldable pub exec_inc_add : Op → Walker → Outcome
exec_inc_add op w =
    if op.bh == 0x0
    then ok (inc byte 1 op.bl w)
    else if leb 8 op.bh
    then ok (add long op.bl (load_reg long op.bh w) w)
    else unimplemented w

-- 0x0b: ADDS and INC
unfoldable pub exec_adds_inc : Op → Walker → Outcome
exec_adds_inc op w =
    switch op.bh
      ((0x0, ok (adds 1 op.bl w))
        ∷ (0x8, ok (adds 2 op.bl w))
        ∷ (0x9, ok (adds 4 op.bl w))
        ∷ (0x5, ok (inc word 1 op.bl w))
        ∷ (0x7, ok (inc long 1 op.bl w))
        ∷ (0xd, ok (inc word 2 op.bl w))
        ∷ (0xf, ok (inc long 2 op.bl w))
        ∷ [])
      (unimplemented w)

-- 0x0X
unfoldable pub exec_0 : Op → Walker → Outcome
exec_0 op w =
    switch op.al
      ((0x0, ok w)
        ∷ (0x1, exec_extended op w)
        ∷ (0x3, ok (set_flags w (load_flags (load_reg byte op.bl w))))
        ∷ (0x7, ok (set_flags w (load_flags op.b)))
        ∷ (0x8, ok (add byte op.bl (load_reg byte op.bh w) w))
        ∷ (0x9, ok (add word op.bl (load_reg word op.bh w) w))
        ∷ (0xa, exec_inc_add op w)
        ∷ (0xb, exec_adds_inc op w)
        ∷ (0xc, ok (mov byte (load_reg byte op.bh w) op.bl w))
        ∷ (0xd, ok (mov word (load_reg word op.bh w) op.bl w))
        ∷ (
          0xf,
          if leb 8 op.bh then ok (mov long (load_reg long op.bh w) op.bl w) else unimplemented w,
        )
        ∷ [])
      (unimplemented w)
