-- ===== src/Cpu/Shifts.antt =====
-- The shifts and rotations of src/walker.c (opcodes 0x10 to 0x12), for the three widths.
use pokestroller.Base.{ℕ, ◌+◌, ◌*◌, ◌/◌, ◌%◌, ◌^◌, not, ◌&&◌, has_bit}
use pokestroller.Machine.{Walker}
use pokestroller.Alu.{Width, sign_pos}
use pokestroller.Cpu.Op.{load_reg, store_reg, mov_flags, set_c, set_v, flag_value}

unfoldable pub shll : Width → ℕ → Walker → Walker
shll wd rd w =
    let x = load_reg wd rd w in
    let w1 = store_reg wd rd (x * 2) (set_c (has_bit x (sign_pos wd)) w) in
    mov_flags wd (load_reg wd rd w1) w1

-- SHAL differs from SHLL in the V flag.
unfoldable pub shal : Width → ℕ → Walker → Walker
unfolding shll
shal wd rd w =
    let w1 = shll wd rd w in
    set_v (w1.flags.c && not (has_bit (load_reg wd rd w1) (sign_pos wd))) w1

unfoldable pub shlr : Width → ℕ → Walker → Walker
shlr wd rd w =
    let x = load_reg wd rd w in
    let w1 = store_reg wd rd (x / 2) (set_c (has_bit x 0) w) in mov_flags wd (load_reg wd rd w1) w1

-- `(x >> 1) | (x & signBit)`: the sign bit of `x >> 1` is clear, so the or is a sum.
unfoldable pub shar : Width → ℕ → Walker → Walker
shar wd rd w =
    let x = load_reg wd rd w in
    let sign = x / 2 ^ sign_pos wd % 2 * 2 ^ sign_pos wd in
    let w1 = store_reg wd rd (x / 2 + sign) (set_c (has_bit x 0) w) in
    mov_flags wd (load_reg wd rd w1) w1

-- `(x << 1) | carry`: the lowest bit of `x << 1` is clear, so the or is a sum.
unfoldable pub rotxl : Width → ℕ → Walker → Walker
rotxl wd rd w =
    let x = load_reg wd rd w in
    let old_carry = w.flags.c in
    let w1 = store_reg wd rd (x * 2 + flag_value old_carry) (set_c (has_bit x (sign_pos wd)) w) in
    mov_flags wd (load_reg wd rd w1) w1

unfoldable pub rotl : Width → ℕ → Walker → Walker
rotl wd rd w =
    let x = load_reg wd rd w in
    let w1 = set_c (has_bit x (sign_pos wd)) w in
    let w2 = store_reg wd rd (x * 2 + flag_value w1.flags.c) w1 in
    mov_flags wd (load_reg wd rd w2) w2
