-- ===== src/Examples/Cpu.antt =====
-- Runs of instructions.
use pokestroller.Base.{◌≡◌, ◌+◌, ◌*◌, arith, true, false}
use pokestroller.Base.Int.{pos, negsuc, ltb_ℤ, ◌+ℤ◌}
use pokestroller.Machine.{no_flags}
use pokestroller.Alu.{byte, word, long, modulus, set_flags_add, set_flags_inc, minus}
use pokestroller.Alu.Compare.{signed}
use pokestroller.Alu.Sums.{
  overflows, set_flags_add_lem, set_flags_add_carry, set_flags_inc_lem, set_flags_inc_zero,
}
use pokestroller.Cpu.Op.{load_reg, flag_value}
use pokestroller.Cpu.Arith.{cmp}
use pokestroller.Cpu.Shifts.{rotxl}
use pokestroller.Cpu.Moves.{load_inc, store_dec}
use pokestroller.Cpu.Branches.{jsr_abs, jsr_reg, bsr8, bsr16}
use pokestroller.Cpu.Laws.{load_reg-lt}
use pokestroller.Cpu.Laws.Compare.{Decides, cmp-Decides}
use pokestroller.Cpu.Laws.Calls.{returned, ReturnsTo, rts_after_call, load_inc-store_dec}
use pokestroller.Cpu.Laws.Values.{rotxl_lem}
use pokestroller.Examples.{off}

cmp-Decides_example : Decides byte (load_reg byte 8 off) 200 (cmp byte 8 200 off).flags
cmp-Decides_example =
    cmp-Decides byte 8 200 off (load_reg-lt byte 8 off (omega arith)) (omega arith)

rts_after_call_example :
    ReturnsTo (0x2c4 + 4) off (returned (jsr_abs 0x12 0x3456 off))
    × ReturnsTo (0x2c4 + 2) off (returned (jsr_reg 3 off))
    × ReturnsTo (0x2c4 + 2) off (returned (bsr8 0xf0 off))
    × ReturnsTo (0x2c4 + 4) off (returned (bsr16 0xf0 off))
rts_after_call_example = rts_after_call 0x12 0x3456 3 0xf0 off (omega arith)

load_inc-store_dec_example :
    let w' = load_inc long 7 2 (store_dec long 1 7 off) in
    (load_reg long 2 w' ≡ load_reg long 1 off) × (load_reg long 7 w' ≡ load_reg long 7 off)
load_inc-store_dec_example =
    load_inc-store_dec 1 2 off (omega arith) (omega arith) (load_reg-lt long 7 off (omega arith))
      (load_reg-lt long 1 off (omega arith))

set_flags_add_lem_example :
    let g = set_flags_add byte 127 1 no_flags in
    (g.z ≡ false)
    × (g.n ≡ ltb_ℤ (signed byte 128) (pos 0))
    × (g.v ≡ overflows byte (signed byte 127 +ℤ signed byte 1))
set_flags_add_lem_example = set_flags_add_lem byte 127 1 no_flags (omega arith) (omega arith)

set_flags_add_carry_example : (set_flags_add byte 255 255 no_flags).c ≡ false
set_flags_add_carry_example = set_flags_add_carry byte 255 255 no_flags (omega arith) (omega arith)

set_flags_inc_lem_example :
    let g = set_flags_inc word 2 (minus 2) no_flags in
    (g.z ≡ true) × (g.v ≡ overflows word (signed word 2 +ℤ negsuc 1))
set_flags_inc_lem_example =
    set_flags_inc_lem word 2 2 no_flags (omega arith) (omega arith) (omega arith)

set_flags_inc_zero_example : (set_flags_inc byte 255 1 no_flags).z ≡ false
set_flags_inc_zero_example =
    set_flags_inc_zero byte 1 255 no_flags (omega arith) (λ e. cc) (omega arith) (omega arith)

rotxl_lem_example :
    let w' = rotxl long 0 off in
    flag_value w'.flags.c * modulus long + load_reg long 0 w'
    ≡ 2 * load_reg long 0 off + flag_value false
rotxl_lem_example = rotxl_lem long 0 off (load_reg-lt long 0 off (omega arith))
