-- ===== src/Cpu/Arith.antt =====
-- The arithmetic and logical instructions on registers: ADD, SUB, CMP, INC, DEC, ADDS, SUBS, SUBX,
-- NEG, EXTU, EXTS, NOT, AND, OR, XOR, multiplication and division.
use pokestroller.Base.{
  ℕ, ◌+◌, ◌-◌, ◌*◌, ◌/◌, ◌%◌, ◌^◌, not, ◌&&◌, bit_and, bit_or, bit_xor, ltb, leb, ◌==◌, has_bit,
  if◌then◌else◌, xor,
}
use pokestroller.Machine.{Walker, Outcome, ok, undefined}
use pokestroller.Alu.{Width, byte, word, long, modulus, sign_pos, minus}
use pokestroller.Cpu.Op.{
  load_reg, store_reg, add_flags, sub_flags, inc_flags, mov_flags, set_z, set_n, flag_value,
  sign_extend16, sign_extend8,
}

-- ADD, with the second operand a register or an immediate value.
unfoldable pub add : Width → ℕ → ℕ → Walker → Walker
add wd rd value w = let x = load_reg wd rd w in store_reg wd rd (x + value) (add_flags wd x value w)

-- SUB; `*Rd.ptr -= value` wraps.
unfoldable pub sub : Width → ℕ → ℕ → Walker → Walker
sub wd rd value w =
    let x = load_reg wd rd w in store_reg wd rd (x + 4294967296 - value) (sub_flags wd x value w)

unfoldable pub cmp : Width → ℕ → ℕ → Walker → Walker
cmp wd rd value w = sub_flags wd (load_reg wd rd w) value w

unfoldable pub inc : Width → ℕ → ℕ → Walker → Walker
inc wd k rd w = let x = load_reg wd rd w in store_reg wd rd (x + k) (inc_flags wd x k w)

unfoldable pub dec : Width → ℕ → ℕ → Walker → Walker
dec wd k rd w =
    let x = load_reg wd rd w in store_reg wd rd (x + minus k) (inc_flags wd x (minus k) w)

unfoldable pub adds : ℕ → ℕ → Walker → Walker
adds k rd w = store_reg long rd (load_reg long rd w + k) w

unfoldable pub subs : ℕ → ℕ → Walker → Walker
subs k rd w = store_reg long rd (load_reg long rd w + minus k) w

-- SUBX: the flags are taken first, so the second subtraction uses the new carry.
unfoldable pub subx : ℕ → ℕ → Walker → Walker
subx rs rd w =
    let w1 = sub_flags byte (load_reg byte rd w) (load_reg byte rs w + flag_value w.flags.c) w in
    let w2 = store_reg byte rd (load_reg byte rd w1 + 256 - load_reg byte rs w1) w1 in
    store_reg byte rd (load_reg byte rd w2 + 256 - flag_value w2.flags.c) w2

-- NEG.b and NEG.w: the most negative value stays.
unfoldable pub neg : Width → ℕ → Walker → Walker
neg wd rd w =
    let x = load_reg wd rd w in
    let w1 = sub_flags wd 0 x w in
    if x == 2 ^ sign_pos wd then w1 else store_reg wd rd (modulus wd - x) w1

unfoldable pub extu : Width → ℕ → ℕ → Walker → Walker
extu wd low rd w =
    let w1 = store_reg wd rd (load_reg wd rd w % low) w in mov_flags wd (load_reg wd rd w1) w1

-- EXTS.w and EXTS.l: `low` is 2 ^ 8 or 2 ^ 16.
unfoldable pub exts : Width → ℕ → ℕ → Walker → Walker
exts wd low rd w =
    let x = load_reg wd rd w in
    let sign = x / (low / 2) % 2 == 1 in
    let w1 = store_reg wd rd (if sign then x % low + (modulus wd - low) else x % low) w in
    mov_flags wd (load_reg wd rd w1) w1

-- NOT: `~` of the promoted value, cut to the width.
unfoldable pub not_reg : Width → ℕ → Walker → Walker
not_reg wd rd w =
    let w1 = store_reg wd rd (modulus wd - 1 - load_reg wd rd w) w in
    mov_flags wd (load_reg wd rd w1) w1

unfoldable pub and_reg : Width → ℕ → ℕ → Walker → Walker
and_reg wd value rd w =
    let new = bit_and value (load_reg wd rd w) in store_reg wd rd new (mov_flags wd new w)

unfoldable pub or_reg : Width → ℕ → ℕ → Walker → Walker
or_reg wd value rd w =
    let new = bit_or value (load_reg wd rd w) in store_reg wd rd new (mov_flags wd new w)

unfoldable pub xor_reg : Width → ℕ → ℕ → Walker → Walker
xor_reg wd value rd w =
    let new = bit_xor value (load_reg wd rd w) in store_reg wd rd new (mov_flags wd new w)

-- MULXU.b
unfoldable pub mulxu_b : ℕ → ℕ → Walker → Outcome
mulxu_b rs rd w = ok (store_reg word rd (load_reg byte rs w * (load_reg word rd w % 256)) w)

-- MULXU.w: a product of two `uint16_t` is one of `int`, which overflows from 2 ^ 31 on.
unfoldable pub mulxu_w : ℕ → ℕ → Walker → Outcome
mulxu_w rs rd w =
    let product = load_reg word rs w * (load_reg long rd w % 65536) in
    if ltb product 2147483648 then ok (store_reg long rd product w) else undefined

-- DIVXU.b: the flags read Rs after Rd is written.
unfoldable pub divxu_b : ℕ → ℕ → Walker → Outcome
divxu_b rs rd w =
    let x = load_reg word rd w in
    let y = load_reg byte rs w in
    let w1 = store_reg word rd (x % y % 256 * 256 + x / y % 256) w in
    let y1 = load_reg byte rs w1 in
    if y == 0 then undefined else ok (set_n (has_bit y1 15) (set_z (y1 == 0) w1))

-- DIVXU.w: `remainder << 16` is undefined where it does not fit an `int`.
unfoldable pub divxu_w : ℕ → ℕ → Walker → Outcome
divxu_w rs rd w =
    let x = load_reg long rd w in
    let y = load_reg word rs w in
    let r = if y == 0 then 0 else x % y in
    let w1 = store_reg long rd (r * 65536 + x / y % 65536) w in
    let y1 = load_reg word rs w1 in
    if y == 0
    then undefined
    else if leb 32768 r
    then undefined
    else ok (set_n (has_bit y1 31) (set_z (y1 == 0) w1))

-- MULXS.b: `(int16_t)*Rs.ptr` is not sign-extended, since `*Rs.ptr` is a `uint8_t`.
unfoldable pub mulxs_b : ℕ → ℕ → Walker → Walker
mulxs_b rs rd w =
    let w1 = store_reg word rd (load_reg byte rs w * sign_extend8 (load_reg word rd w % 256)) w in
    let x = load_reg word rd w1 in set_n (has_bit x 15) (set_z (x == 0) w1)

-- MULXS.w
unfoldable pub mulxs_w : ℕ → ℕ → Walker → Walker
mulxs_w rs rd w =
    let w1 =
      store_reg long rd (load_reg word rs w * sign_extend16 (load_reg long rd w % 65536)) w in
    let x = load_reg long rd w1 in set_n (has_bit x 31) (set_z (x == 0) w1)

-- The magnitude of a two's complement number of `2 * half` values.
abbrev magnitude : ℕ → ℕ → ℕ
magnitude half x = if ltb x half then x else 2 * half - x

-- The quotient of two such numbers, rounded towards zero, modulo `m`.
abbrev quotient : ℕ → ℕ → ℕ → ℕ → ℕ → ℕ
quotient m half x half_y y =
    let q = magnitude half x / magnitude half_y y in
    if xor (ltb x half) (ltb y half_y) then (m - q % m) % m else q % m

-- DIVXS.b: `remainder << 8` is undefined for a negative remainder, which has the sign of the
-- dividend.
unfoldable pub divxs_b : ℕ → ℕ → Walker → Outcome
unfolding xor
divxs_b rs rd w =
    let x = load_reg word rd w in
    let y = load_reg byte rs w in
    let q = quotient 256 32768 x 128 y in
    let r = if y == 0 then 0 else magnitude 32768 x % magnitude 128 y in
    let w1 = store_reg word rd (bit_or (r * 256) (sign_extend8 q % 65536)) w in
    let y1 = load_reg byte rs w1 in
    let positive = ltb 0 q && ltb q 128 in
    if y == 0
    then undefined
    else if not (ltb x 32768) && not (r == 0)
    then undefined
    else ok (set_n (not positive) (set_z (y1 == 0) w1))

-- DIVXS.w: as above; the most negative dividend divided by -1 overflows too.
unfoldable pub divxs_w : ℕ → ℕ → Walker → Outcome
unfolding xor
divxs_w rs rd w =
    let x = load_reg long rd w in
    let y = load_reg word rs w in
    let q = quotient 65536 2147483648 x 32768 y in
    let r = if y == 0 then 0 else magnitude 2147483648 x % magnitude 32768 y in
    let w1 = store_reg long rd (bit_or (r * 65536) (sign_extend16 q)) w in
    let y1 = load_reg word rs w1 in
    if y == 0
    then undefined
    else if x == 2147483648 && y == 65535
    then undefined
    else if not (ltb x 2147483648) && not (r == 0)
    then undefined
    else ok (set_n (has_bit q 15) (set_z (y1 == 0) w1))
