-- ===== src/Machine/Registers.antt =====
-- The register references of src/walker.c: getRegRef8/16/32 and the accesses through their `ptr`.
-- ER[i] is a 32-bit register. On the little-endian hosts of the program R[i] is its low half, E[i]
-- its high half, RL[i] its lowest byte and RH[i] the next one.
pub mod Laws
use pokestroller.Base.{
  ℕ, ◌+◌, ◌-◌, ◌*◌, ◌/◌, ◌%◌, Bool, true, false, update, u8, u16, u32, has_bit, if◌then◌else◌,
}
use pokestroller.Machine.{Walker}

-- struct RegRef8: `lo` is `loOrHiReg == 'l'`.
pub record RegRef8 : Type 0 where
  pub idx : ℕ
  pub lo : Bool

-- struct RegRef16: `ext` is `loOrHiReg == 'e'`.
pub record RegRef16 : Type 0 where
  pub idx : ℕ
  pub ext : Bool

-- struct RegRef32
pub record RegRef32 : Type 0 where
  pub idx : ℕ

abbrev pub get_reg_ref8 : ℕ → RegRef8
get_reg_ref8 operand = record { idx = operand % 8; lo = has_bit operand 3 }

abbrev pub get_reg_ref16 : ℕ → RegRef16
get_reg_ref16 operand = record { idx = operand % 8; ext = has_bit operand 3 }

abbrev pub get_reg_ref32 : ℕ → RegRef32
get_reg_ref32 operand = record { idx = operand % 8 }

-- `*ref.ptr` and `*ref.ptr = value`, for each width.
unfoldable pub load8 : RegRef8 → Walker → ℕ
load8 r w = if r.lo then w.er r.idx % 256 else w.er r.idx / 256 % 256

unfoldable pub load16 : RegRef16 → Walker → ℕ
load16 r w = if r.ext then w.er r.idx / 65536 % 65536 else w.er r.idx % 65536

unfoldable pub load32 : RegRef32 → Walker → ℕ
load32 r w = w.er r.idx

unfoldable pub store8 : RegRef8 → ℕ → Walker → Walker
store8 r value w =
    let old = w.er r.idx in
    let new =
      if r.lo
      then old / 256 * 256 + u8 value
      else old / 65536 * 65536 + u8 value * 256 + old % 256 in
    record w { er = update w.er r.idx new }

unfoldable pub store16 : RegRef16 → ℕ → Walker → Walker
store16 r value w =
    let old = w.er r.idx in
    let new = if r.ext then u16 value * 65536 + old % 65536 else old / 65536 * 65536 + u16 value in
    record w { er = update w.er r.idx new }

unfoldable pub store32 : RegRef32 → ℕ → Walker → Walker
store32 r value w = record w { er = update w.er r.idx (u32 value) }

-- `SP = ER[7]`
abbrev pub sp : RegRef32
sp = record { idx = 7 }
