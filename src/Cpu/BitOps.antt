-- ===== src/Cpu/BitOps.antt =====
-- The bit instructions of src/walker.c: BSET, BCLR, BNOT, BTST, BLD and BST on registers and memory.
use pokestroller.Base.{ℕ, not, leb, ◌==◌, has_bit, set_bit, clear_bit, bit_and, if◌then◌else◌}
use pokestroller.Machine.{Walker, Outcome, ok, undefined}
use pokestroller.Machine.Memory.{set_memory8, get_memory8}
use pokestroller.Alu.{byte}
use pokestroller.Cpu.Op.{load_reg, store_reg, set_c, set_z}

-- `1 << bit` is undefined for an `int` from bit 31 on.
abbrev pub shiftable : ℕ → Walker → Outcome
shiftable bit w = if leb 31 bit then undefined else ok w

unfoldable pub bset_reg : ℕ → ℕ → Walker → Outcome
bset_reg bit rd w = shiftable bit (store_reg byte rd (set_bit (load_reg byte rd w) bit) w)

unfoldable pub bclr_reg : ℕ → ℕ → Walker → Outcome
bclr_reg bit rd w = shiftable bit (store_reg byte rd (clear_bit (load_reg byte rd w) bit) w)

unfoldable pub bset_mem : ℕ → ℕ → Walker → Outcome
bset_mem bit address w = shiftable bit (set_memory8 address (set_bit (get_memory8 address w) bit) w)

unfoldable pub bclr_mem : ℕ → ℕ → Walker → Outcome
bclr_mem bit address w =
    shiftable bit (set_memory8 address (clear_bit (get_memory8 address w) bit) w)

-- BNOT #xx:3, @ERd: the test masks with the bit's number.
unfoldable pub bnot_mem : ℕ → ℕ → Walker → Outcome
unfolding bset_mem bclr_mem
bnot_mem bit address w =
    if not (bit_and (get_memory8 address w) bit == 0)
    then bclr_mem bit address w
    else bset_mem bit address w

-- BST: the carry goes to a bit of memory.
unfoldable pub bst_mem : ℕ → ℕ → Walker → Outcome
unfolding bset_mem bclr_mem
bst_mem bit address w = if w.flags.c then bset_mem bit address w else bclr_mem bit address w

-- BST #xx:3, Rd: the source uses the register's value as an address.
unfoldable pub bst_reg : ℕ → ℕ → Walker → Outcome
unfolding bst_mem
bst_reg bit rd w = bst_mem bit (load_reg byte rd w) w

unfoldable pub btst_reg : ℕ → ℕ → Walker → Walker
btst_reg bit rd w = set_z (not (has_bit (load_reg byte rd w) bit)) w

unfoldable pub bld_reg : ℕ → ℕ → Walker → Walker
bld_reg bit rd w = set_c (has_bit (load_reg byte rd w) bit) w

unfoldable pub bld_mem : ℕ → ℕ → Walker → Walker
bld_mem bit address w = set_c (has_bit (get_memory8 address w) bit) w
