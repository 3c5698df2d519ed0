-- ===== src/Cpu/Moves.antt =====
-- The MOV instructions of src/walker.c: between registers, immediate values and memory, in the
-- addressing modes @ERn, @(d:16,ERn), @ERn+, @-ERn, @aa:8 and @aa:16.
use pokestroller.Base.{ℕ, ◌+◌, clear_bit, ◌==◌, if◌then◌else◌}
use pokestroller.Machine.{Walker, peek, poke}
use pokestroller.Machine.Memory.{
  set_memory8, set_memory16, set_memory32, get_memory8, get_memory16, get_memory32,
}
use pokestroller.Alu.{Width, byte, word, long, minus}
use pokestroller.Cpu.Op.{load_reg, store_reg, mov_flags, sign_extend16}

-- getMemory8, getMemory16 and getMemory32 by width.
unfoldable pub get_memory : Width → ℕ → Walker → ℕ
get_memory byte a w = get_memory8 a w
get_memory word a w = get_memory16 a w
get_memory long a w = get_memory32 a w

unfoldable pub set_memory : Width → ℕ → ℕ → Walker → Walker
set_memory byte a value w = set_memory8 a value w
set_memory word a value w = set_memory16 a value w
set_memory long a value w = set_memory32 a value w

-- The number of bytes of a width.
abbrev pub size : Width → ℕ
size byte = 1
size word = 2
size long = 4

-- MOV #xx, Rd and MOV Rs, Rd
unfoldable pub mov : Width → ℕ → ℕ → Walker → Walker
mov wd value rd w = store_reg wd rd value (mov_flags wd value w)

-- MOV @aa, Rd and MOV @ERs, Rd
unfoldable pub load_from : Width → ℕ → ℕ → Walker → Walker
load_from wd address rd w =
    let value = get_memory wd address w in store_reg wd rd value (mov_flags wd value w)

-- MOV Rs, @aa and MOV Rs, @ERd
unfoldable pub store_to : Width → ℕ → ℕ → Walker → Walker
store_to wd rs address w =
    let value = load_reg wd rs w in set_memory wd address value (mov_flags wd value w)

-- MOV @ERs+, Rd
unfoldable pub load_inc : Width → ℕ → ℕ → Walker → Walker
load_inc wd rs rd w =
    let value = get_memory wd (load_reg long rs w) w in
    let w1 = store_reg long rs (load_reg long rs w + size wd) w in
    store_reg wd rd value (mov_flags wd value w1)

-- MOV.w and MOV.l Rs, @-ERd
unfoldable pub store_dec : Width → ℕ → ℕ → Walker → Walker
store_dec wd rs rd w =
    let w1 = store_reg long rd (load_reg long rd w + minus (size wd)) w in
    let value = load_reg wd rs w1 in
    mov_flags wd value (set_memory wd (load_reg long rd w1) value w1)

-- MOV.b Rs, @-ERd: the byte goes to the address that the byte register holds.
unfoldable pub store_dec_b : ℕ → ℕ → Walker → Walker
store_dec_b rs rd w =
    let w1 = store_reg long rd (load_reg long rd w + minus 1) w in
    let value = load_reg byte rs w1 in
    mov_flags byte value (set_memory8 (load_reg byte rs w1) value w1)

-- MOV @(d:16, ERs), Rd
unfoldable pub load_disp : Width → ℕ → ℕ → ℕ → Walker → Walker
load_disp wd disp rs rd w =
    let value = get_memory wd (load_reg long rs w + sign_extend16 disp) w in
    mov_flags wd value (store_reg wd rd value w)

-- MOV Rs, @(d:16, ERd)
unfoldable pub store_disp : Width → ℕ → ℕ → ℕ → Walker → Walker
store_disp wd disp rs rd w =
    let value = load_reg wd rs w in
    set_memory wd (load_reg long rd w + sign_extend16 disp) value (mov_flags wd value w)

-- MOV.b @aa:16, Rd: reading SSRDR clears bit 1 of SSSR.
unfoldable pub load_abs_b : ℕ → ℕ → Walker → Walker
unfolding load_from
load_abs_b cd rd w =
    let w1 = load_from byte cd rd w in
    if cd == 0xf0e9 then poke w1 0xf0e4 (clear_bit (peek w1 0xf0e4) 1) else w1

-- MOV.b Rs, @aa:16: writing SSTDR clears bits 2 and 3 of SSSR, and writing TCB1 sets its reload value.
unfoldable pub store_abs_b : ℕ → ℕ → Walker → Walker
unfolding store_to
store_abs_b rs cd w =
    let value = load_reg byte rs w in
    let w1 = store_to byte rs cd w in
    let w2 = poke w1 0xf0e4 (clear_bit (peek w1 0xf0e4) 2) in
    let t = w1.timer_b in
    if cd == 0xf0eb
    then poke w2 0xf0e4 (clear_bit (peek w2 0xf0e4) 3)
    else if cd == 0xf0d1
    then record w1 { timer_b = record t { tlb_value = value } }
    else w1
