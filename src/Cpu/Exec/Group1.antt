-- ===== src/Cpu/Exec/Group1.antt =====
-- src/walker.c, runNextInstruction: the opcodes 0x10 to 0x1f.
use pokestroller.Base.{[], ◌∷◌, ◌==◌, leb, switch, if◌then◌else◌}
use pokestroller.Machine.{Walker, Outcome, ok, unimplemented}
use pokestroller.Alu.{byte, word, long}
use pokestroller.Cpu.Op.{Op, load_reg}
use pokestroller.Cpu.Arith.{
  sub, cmp, dec, subs, subx, neg, extu, exts, not_reg, and_reg, or_reg, xor_reg,
}
use pokestroller.Cpu.Shifts.{shll, shal, shlr, shar, rotxl, rotl}

-- 0x10: SHLL and SHAL
unfoldable pub exec_shift_left : Op → Walker → Outcome
exec_shift_left op w =
    switch op.bh
      ((0x0, ok (shll byte op.bl w))
        ∷ (0x1, ok (shll word op.bl w))
        ∷ (0x3, ok (shll long op.bl w))
        ∷ (0x8, ok (shal byte op.bl w))
        ∷ (0x9, ok (shal word op.bl w))
        ∷ (0xb, ok (shal long op.bl w))
        ∷ [])
      (unimplemented w)

-- 0x11: SHLR and SHAR
unfoldable pub exec_shift_right : Op → Walker → Outcome
exec_shift_right op w =
    switch op.bh
      ((0x0, ok (shlr byte op.bl w))
        ∷ (0x1, ok (shlr word op.bl w))
        ∷ (0x3, ok (shlr long op.bl w))
        ∷ (0x9, ok (shar word op.bl w))
        ∷ (0xb, ok (shar long op.bl w))
        ∷ [])
      (unimplemented w)

-- 0x12: ROTXL and ROTL
unfoldable pub exec_rotate : Op → Walker → Outcome
exec_rotate op w =
    switch op.bh
      ((0x0, ok (rotxl byte op.bl w))
        ∷ (0x1, ok (rotxl word op.bl w))
        ∷ (0x3, ok (rotxl long op.bl w))
        ∷ (0x8, ok (rotl byte op.bl w))
        ∷ (0x9, ok (rotl word op.bl w))
        ∷ (0xb, ok (rotl long op.bl w))
        ∷ [])
      (unimplemented w)

-- 0x17: NOT, EXTU, NEG and EXTS
unfoldable pub exec_unary : Op → Walker → Outcome
exec_unary op w =
    switch op.bh
      ((0x0, ok (not_reg byte op.bl w))
        ∷ (0x1, ok (not_reg word op.bl w))
        ∷ (0x5, ok (extu word 256 op.bl w))
        ∷ (0x7, ok (extu long 65536 op.bl w))
        ∷ (0x8, ok (neg byte op.bl w))
        ∷ (0x9, ok (neg word op.bl w))
        ∷ (0xd, ok (exts word 256 op.bl w))
        ∷ (0xf, ok (exts long 65536 op.bl w))
        ∷ [])
      (unimplemented w)

-- 0x1a: DEC.b and SUB.l
unfoldable pub exec_dec_sub : Op → Walker → Outcome
exec_dec_sub op w =
    if op.bh == 0x0
    then ok (dec byte 1 op.bl w)
    else if leb 8 op.bh
    then ok (sub long op.bl (load_reg long op.bh w) w)
    else unimplemented w

-- 0x1b: SUBS and DEC
unfoldable pub exec_subs_dec : Op → Walker → Outcome
exec_subs_dec op w =
    switch op.bh
      ((0x0, ok (subs 1 op.bl w))
        ∷ (0x8, ok (subs 2 op.bl w))
        ∷ (0x9, ok (subs 4 op.bl w))
        ∷ (0x5, ok (dec word 1 op.bl w))
        ∷ (0x7, ok (dec long 1 op.bl w))
        ∷ (0xd, ok (dec word 2 op.bl w))
        ∷ (0xf, ok (dec long 2 op.bl w))
        ∷ [])
      (unimplemented w)

-- 0x1X
unfoldable pub exec_1 : Op → Walker → Outcome
exec_1 op w =
    switch op.al
      ((0x0, exec_shift_left op w)
        ∷ (0x1, exec_shift_right op w)
        ∷ (0x2, exec_rotate op w)
        ∷ (0x4, ok (or_reg byte (load_reg byte op.bh w) op.bl w))
        ∷ (0x5, ok (xor_reg byte (load_reg byte op.bh w) op.bl w))
        ∷ (0x6, ok (and_reg byte (load_reg byte op.bh w) op.bl w))
        ∷ (0x7, exec_unary op w)
        ∷ (0x8, ok (sub byte op.bl (load_reg byte op.bh w) w))
        ∷ (0x9, ok (sub word op.bl (load_reg word op.bh w) w))
        ∷ (0xa, exec_dec_sub op w)
        ∷ (0xb, exec_subs_dec op w)
        ∷ (0xc, ok (cmp byte op.bl (load_reg byte op.bh w) w))
        ∷ (0xd, ok (cmp word op.bl (load_reg word op.bh w) w))
        ∷ (0xe, ok (subx op.bh op.bl w))
        ∷ (
          0xf,
          if leb 8 op.bh then ok (cmp long op.bl (load_reg long op.bh w) w) else unimplemented w,
        )
        ∷ [])
      (unimplemented w)
