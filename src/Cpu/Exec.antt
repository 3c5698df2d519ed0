-- ===== src/Cpu/Exec.antt =====
-- The opcode tables of src/walker.c: a child for each large case of `switch(aH)`, and the switch.
pub mod Group0
pub mod Group1
pub mod Group5
pub mod Group6
pub mod Group7
use pokestroller.Base.{
  ℕ, ◌+◌, ◌*◌, ◌/◌, ◌%◌, Bool, not, ◌&&◌, List, [], ◌∷◌, ◌==◌, leb, has_bit, switch, if◌then◌else◌,
}
use pokestroller.Machine.{Walker, Outcome, ok, unimplemented, set_flags, ◌>>=◌}
use pokestroller.Alu.{Width, byte, word, long, load_flags}
use pokestroller.Cpu.Op.{Op, load_reg, advance}
use pokestroller.Cpu.Arith.{
  add, sub, cmp, inc, dec, adds, subs, subx, neg, extu, exts, not_reg, and_reg, or_reg, xor_reg,
  mulxu_b, mulxu_w, divxu_b, divxu_w,
}
use pokestroller.Cpu.Shifts.{shll, shal, shlr, shar, rotxl, rotl}
use pokestroller.Cpu.Moves.{
  mov, load_from, store_to, load_inc, store_dec, store_dec_b, load_disp, store_disp, load_abs_b,
  store_abs_b,
}
use pokestroller.Cpu.BitOps.{
  bset_reg, bclr_reg, bset_mem, bclr_mem, bnot_mem, bst_mem, bst_reg, btst_reg, bld_reg, bld_mem,
}
use pokestroller.Cpu.Branches.{
  branch8, branch16, rts, bsr8, bsr16, rte, jmp_reg, jmp_abs, jsr_reg, jsr_abs,
}
use pokestroller.Cpu.Extended.{exec_extended}
use pokestroller.Cpu.Exec.Group0.{exec_0}
use pokestroller.Cpu.Exec.Group1.{exec_1}
use pokestroller.Cpu.Exec.Group5.{exec_5}
use pokestroller.Cpu.Exec.Group6.{exec_6}
use pokestroller.Cpu.Exec.Group7.{exec_7}

-- `switch(aH)`
unfoldable pub exec : Op → Walker → Outcome
exec op w =
    switch op.ah
      ((0x0, exec_0 op w)
        ∷ (0x1, exec_1 op w)
        ∷ (0x2, ok (load_from byte (65280 + op.b) op.al w))
        ∷ (0x3, ok (store_to byte op.al (65280 + op.b) w))
        ∷ (0x4, branch8 op.al op.b w)
        ∷ (0x5, exec_5 op w)
        ∷ (0x6, exec_6 op w)
        ∷ (0x7, exec_7 op w)
        ∷ (0x8, ok (add byte op.al (op.bh * 16 + op.bl) w))
        ∷ (0xa, ok (cmp byte op.al (op.bh * 16 + op.bl) w))
        ∷ (0xc, ok (or_reg byte op.b op.al w))
        ∷ (0xd, ok (xor_reg byte op.b op.al w))
        ∷ (0xe, ok (and_reg byte op.b op.al w))
        ∷ (0xf, ok (mov byte op.b op.al w))
        ∷ [])
      (unimplemented w)
