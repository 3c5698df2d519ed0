-- ===== src/Cpu/Branches.antt =====
-- Branches, jumps, calls and returns of src/walker.c (opcodes 0x40 to 0x4f and 0x54 to 0x5f). At the
-- end of a step the source adds 2 to pc, so a jump stores its target less 2.
use pokestroller.Base.{
  ℕ, ◌+◌, ◌*◌, ◌%◌, Bool, true, false, not, ◌||◌, xor, [], ◌∷◌, ◌==◌, switch, if◌then◌else◌,
}
use pokestroller.Machine.{Flags, Walker, Outcome, ok, unimplemented, set_pc}
use pokestroller.Machine.Memory.{set_memory16, get_memory16}
use pokestroller.Alu.{long, minus}
use pokestroller.Cpu.Op.{load_reg, store_reg, advance, sign_extend8, sign_extend16}

-- The test of a conditional branch, by its condition nibble.
unfoldable pub condition : ℕ → Flags → Bool
unfolding switch xor
condition cc f =
    switch cc
      ((0x0, true)
        ∷ (0x1, false)
        ∷ (0x2, not (f.c || f.z))
        ∷ (0x3, f.c || f.z)
        ∷ (0x4, not f.c)
        ∷ (0x5, f.c)
        ∷ (0x6, not f.z)
        ∷ (0x7, f.z)
        ∷ (0x8, not f.v)
        ∷ (0x9, f.v)
        ∷ (0xa, not f.n)
        ∷ (0xb, f.n)
        ∷ (0xc, not (xor f.n f.v))
        ∷ (0xd, xor f.n f.v)
        ∷ (0xe, not (f.z || xor f.n f.v))
        ∷ (0xf, f.z || xor f.n f.v)
        ∷ [])
      false

-- Bcc d:8; BRN returns 1.
unfoldable pub branch8 : ℕ → ℕ → Walker → Outcome
unfolding condition
branch8 cc disp w =
    if cc == 1
    then unimplemented w
    else ok (if condition cc w.flags then advance (sign_extend8 disp) w else w)

-- Bcc d:16; BRN does not skip its displacement.
unfoldable pub branch16 : ℕ → ℕ → Walker → Outcome
unfolding condition
branch16 cc disp w =
    if cc == 1
    then ok w
    else ok (if condition cc w.flags then advance (2 + sign_extend16 disp) w else advance 2 w)

-- `*SP -= 2; setMemory16(*SP, value)`
unfoldable pub push16 : ℕ → Walker → Walker
push16 value w =
    let w1 = store_reg long 7 (load_reg long 7 w + minus 2) w in
    set_memory16 (load_reg long 7 w1) value w1

unfoldable pub rts : Walker → Walker
rts w =
    let w1 = set_pc w (get_memory16 (load_reg long 7 w) w + 65534) in
    store_reg long 7 (load_reg long 7 w1 + 2) w1

unfoldable pub bsr8 : ℕ → Walker → Walker
unfolding push16
bsr8 disp w = advance (sign_extend8 disp) (push16 (w.pc + 2) w)

unfoldable pub bsr16 : ℕ → Walker → Walker
unfolding push16
bsr16 disp w = advance (2 + sign_extend16 disp) (push16 (w.pc + 4) w)

unfoldable pub rte : Walker → Walker
rte w =
    let w1 = set_pc w (w.interrupt_saved_address + 65534) in
    record w1 { flags = w.interrupt_saved_flags }

unfoldable pub jmp_reg : ℕ → Walker → Walker
jmp_reg er w = set_pc w (load_reg long er w % 65536 + 65534)

unfoldable pub jmp_abs : ℕ → ℕ → Walker → Walker
jmp_abs b cd w = set_pc w (b * 65536 + cd + 65534)

-- JSR @ERn reads the register after the push, which moves ER7.
unfoldable pub jsr_reg : ℕ → Walker → Walker
unfolding push16
jsr_reg er w = let w1 = push16 (w.pc + 2) w in set_pc w1 (load_reg long er w1 % 65536 + 65534)

unfoldable pub jsr_abs : ℕ → ℕ → Walker → Walker
unfolding push16
jsr_abs b cd w = set_pc (push16 (w.pc + 4) w) (b * 65536 + cd + 65534)
