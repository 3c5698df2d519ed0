-- ===== src/Cpu/Op.antt =====
-- The fetched instruction (walker.c, runNextInstruction, from `uint16_t ab`), registers by operand
-- nibble, and calls of the setFlags functions on the state.
use pokestroller.Base.{ℕ, ◌+◌, ◌*◌, ◌/◌, ◌%◌, Bool, has_bit, if◌then◌else◌}
use pokestroller.Machine.{Walker, set_flags, set_pc}
use pokestroller.Machine.Memory.{get_memory16}
use pokestroller.Machine.Registers.{
  get_reg_ref8, get_reg_ref16, get_reg_ref32, load8, load16, load32, store8, store16, store32,
}
use pokestroller.Alu.{
  Width, byte, word, long, set_flags_add, set_flags_sub, set_flags_inc, set_flags_mov,
}

-- The local variables of the fetch: `ah` is `aH`, the upper nibble of byte `a`.
pub record Op : Type 0 where
  pub ah : ℕ
  pub al : ℕ
  pub b : ℕ
  pub bh : ℕ
  pub bl : ℕ
  pub c : ℕ
  pub ch : ℕ
  pub cl : ℕ
  pub dh : ℕ
  pub dl : ℕ
  pub cd : ℕ
  pub ef : ℕ
  pub cdef : ℕ

unfoldable pub decode : ℕ → ℕ → ℕ → Op
decode ab cd ef = record {
  ah = ab / 4096 % 16;
  al = ab / 256 % 16;
  b = ab % 256;
  bh = ab / 16 % 16;
  bl = ab % 16;
  c = cd / 256 % 256;
  ch = cd / 4096 % 16;
  cl = cd / 256 % 16;
  dh = cd / 16 % 16;
  dl = cd % 16;
  cd = cd;
  ef = ef;
  cdef = cd * 65536 + ef;
}

unfoldable pub fetch : Walker → Op
unfolding decode
fetch w = decode (get_memory16 w.pc w) (get_memory16 (w.pc + 2) w) (get_memory16 (w.pc + 4) w)

-- `*getRegRef(operand).ptr`
unfoldable pub load_reg : Width → ℕ → Walker → ℕ
load_reg byte operand w = load8 (get_reg_ref8 operand) w
load_reg word operand w = load16 (get_reg_ref16 operand) w
load_reg long operand w = load32 (get_reg_ref32 operand) w

-- `*getRegRef(operand).ptr = value`
unfoldable pub store_reg : Width → ℕ → ℕ → Walker → Walker
store_reg byte operand value w = store8 (get_reg_ref8 operand) value w
store_reg word operand value w = store16 (get_reg_ref16 operand) value w
store_reg long operand value w = store32 (get_reg_ref32 operand) value w

-- `pc += k`
abbrev pub advance : ℕ → Walker → Walker
advance k w = set_pc w (w.pc + k)

abbrev pub add_flags : Width → ℕ → ℕ → Walker → Walker
add_flags wd value1 value2 w = set_flags w (set_flags_add wd value1 value2 w.flags)

abbrev pub sub_flags : Width → ℕ → ℕ → Walker → Walker
sub_flags wd value1 value2 w = set_flags w (set_flags_sub wd value1 value2 w.flags)

abbrev pub inc_flags : Width → ℕ → ℕ → Walker → Walker
inc_flags wd value1 value2 w = set_flags w (set_flags_inc wd value1 value2 w.flags)

abbrev pub mov_flags : Width → ℕ → Walker → Walker
mov_flags wd value w = set_flags w (set_flags_mov wd value w.flags)

abbrev pub set_c : Bool → Walker → Walker
set_c x w = let f = w.flags in set_flags w (record f { c = x })

abbrev pub set_v : Bool → Walker → Walker
set_v x w = let f = w.flags in set_flags w (record f { v = x })

abbrev pub set_z : Bool → Walker → Walker
set_z x w = let f = w.flags in set_flags w (record f { z = x })

abbrev pub set_n : Bool → Walker → Walker
set_n x w = let f = w.flags in set_flags w (record f { n = x })

-- A flag in an arithmetic expression.
abbrev pub flag_value : Bool → ℕ
flag_value x = if x then 1 else 0

-- `(disp & 0x8000) ? (0xFFFF0000 | disp) : disp`, and the conversion of an `int16_t`.
abbrev pub sign_extend16 : ℕ → ℕ
sign_extend16 x = if has_bit x 15 then 4294901760 + x else x

-- An `int8_t` added to a `uint16_t` or an `int`: its value modulo 2 ^ 32.
abbrev pub sign_extend8 : ℕ → ℕ
sign_extend8 x = if has_bit x 7 then 4294967040 + x else x
