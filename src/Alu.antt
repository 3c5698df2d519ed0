-- ===== src/Alu.antt =====
-- The condition codes of src/walker.c: setFlags, setFlagsADD, setFlagsSUB, setFlagsINC and
-- setFlagsMOV. `numberOfBits` is 8, 16 or 32 in every call, hence a type of widths. A test of one
-- masked bit, `x & negativeFlag`, is `has_bit`; the sums and differences are those of `uint32_t`.
pub mod Compare
pub mod Sums
use pokestroller.Base.{
  ℕ, ◌+◌, ◌-◌, ◌%◌, ◌/◌, ◌^◌, Bool, true, false, not, ◌&&◌, xor, ltb, ◌==◌, has_bit, u32,
}
use pokestroller.Machine.{Flags}

pub data Width : Type 0 where
  byte word long : Width

-- The index of the bit in `negativeFlag`.
abbrev pub sign_pos : Width → ℕ
sign_pos byte = 7
sign_pos word = 15
sign_pos long = 31

-- 2 ^ numberOfBits
abbrev pub modulus : Width → ℕ
modulus byte = 256
modulus word = 65536
modulus long = 4294967296

-- maxValueLo + 1: `x & maxValueLo` is the remainder by it.
abbrev pub lo_modulus : Width → ℕ
lo_modulus byte = 16
lo_modulus word = 256
lo_modulus long = 65536

-- The index of the bit in `halfCarryFlag`.
abbrev pub half_carry_pos : Width → ℕ
half_carry_pos byte = 3
half_carry_pos word = 8
half_carry_pos long = 16

unfoldable pub load_flags : ℕ → Flags
load_flags value = record {
  c = has_bit value 0;
  v = has_bit value 1;
  z = has_bit value 2;
  n = has_bit value 3;
  u = has_bit value 4;
  h = has_bit value 5;
  ui = has_bit value 6;
  i = has_bit value 7;
}

-- In the source `(lo1 + lo2 & halfCarryFlag)` adds before it masks.
unfoldable pub set_flags_add : Width → ℕ → ℕ → Flags → Flags
unfolding xor
set_flags_add wd value1 value2 f =
    let sum = u32 (value1 + value2) in
    let s1 = has_bit value1 (sign_pos wd) in
    let s2 = has_bit value2 (sign_pos wd) in
    let ss = has_bit sum (sign_pos wd) in
    record f {
      z = sum % modulus wd == 0;
      n = ss;
      v = not (xor s1 s2) && xor ss s1;
      c = s1 && not s2 && not ss;
      h = has_bit (value1 % lo_modulus wd + value2 % lo_modulus wd) (half_carry_pos wd);
    }

unfoldable pub set_flags_sub : Width → ℕ → ℕ → Flags → Flags
unfolding xor
set_flags_sub wd value1 value2 f =
    let diff = u32 (value1 + 4294967296 - value2) in
    let s1 = has_bit value1 (sign_pos wd) in
    let s2 = has_bit value2 (sign_pos wd) in
    let sd = has_bit diff (sign_pos wd) in
    record f {
      n = sd;
      z = diff == 0;
      v = xor s1 s2 && not (xor sd s2);
      c = ltb value1 value2;
      h = ltb (value1 % lo_modulus wd) (value2 % lo_modulus wd);
    }

unfoldable pub set_flags_inc : Width → ℕ → ℕ → Flags → Flags
unfolding xor
set_flags_inc wd value1 value2 f =
    let sum = u32 (value1 + value2) in
    let s1 = has_bit value1 (sign_pos wd) in
    let s2 = has_bit value2 (sign_pos wd) in
    let ss = has_bit sum (sign_pos wd) in
    record f { n = ss; z = sum == 0; v = not (xor s1 s2) && xor ss s1 }

unfoldable pub set_flags_mov : Width → ℕ → Flags → Flags
set_flags_mov wd value f = record f { v = false; z = value == 0; n = has_bit value (sign_pos wd) }

-- `-1` and `-2` as `uint32_t` arguments.
abbrev pub minus : ℕ → ℕ
minus k = 4294967296 - k
