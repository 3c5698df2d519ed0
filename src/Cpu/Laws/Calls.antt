-- ===== src/Cpu/Laws/Calls.antt =====
-- About JSR, BSR and RTS, and about MOV.l to and from the stack.
use pokestroller.Base.{ℕ, ◌+◌, ◌%◌, ◌<◌, ◌≡◌, ◌≢◌, refl, sym, arith}
use pokestroller.Machine.{Flags, Walker, set_flags}
use pokestroller.Machine.Memory.{set_memory16, get_memory16, set_memory32, get_memory32}
use pokestroller.Machine.Registers.{load32, store32}
use pokestroller.Alu.{long}
use pokestroller.Cpu.Op.{load_reg, store_reg, advance}
use pokestroller.Cpu.Moves.{load_inc, store_dec, get_memory, set_memory}
use pokestroller.Cpu.Laws.{load_reg-store_reg, load_reg-set_flags}
use pokestroller.Cpu.Branches.{jsr_abs, jsr_reg, bsr8, bsr16, rts}

-- The steps of a call instruction and of the RTS that ends the routine, `pc += 2` included.
abbrev pub returned : Walker → Walker
returned w = advance 2 (rts (advance 2 w))

-- What a call and its return do to pc and to the stack pointer.
abbrev pub ReturnsTo : ℕ → Walker → Walker → Type 0
ReturnsTo next w w' = (w'.pc ≡ next % 65536) × (load_reg long 7 w' ≡ load_reg long 7 w)

jsr_abs-ReturnsTo :
    (b cd : ℕ) (w : Walker)
    → w.er 7 < 4294967296
    → ReturnsTo (w.pc + 4) w (returned (jsr_abs b cd w))
unfolding jsr_abs rts load_reg store_reg load32 store32 set_memory16 get_memory16
jsr_abs-ReturnsTo b cd w h = ground arith

jsr_reg-ReturnsTo :
    (er : ℕ) (w : Walker) → w.er 7 < 4294967296 → ReturnsTo (w.pc + 2) w (returned (jsr_reg er w))
unfolding jsr_reg rts load_reg store_reg load32 store32 set_memory16 get_memory16
jsr_reg-ReturnsTo er w h = ground arith

bsr8-ReturnsTo :
    (disp : ℕ) (w : Walker) → w.er 7 < 4294967296 → ReturnsTo (w.pc + 2) w (returned (bsr8 disp w))
unfolding bsr8 rts load_reg store_reg load32 store32 set_memory16 get_memory16
bsr8-ReturnsTo disp w h = ground arith

bsr16-ReturnsTo :
    (disp : ℕ) (w : Walker) → w.er 7 < 4294967296 → ReturnsTo (w.pc + 4) w (returned (bsr16 disp w))
unfolding bsr16 rts load_reg store_reg load32 store32 set_memory16 get_memory16
bsr16-ReturnsTo disp w h = ground arith

-- Where the stack pointer is a 32-bit value, an RTS directly at the target of a JSR @aa:24, a
-- JSR @ERn, a BSR d:8 or a BSR d:16 continues after the call (4, 2, 2 and 4 bytes on) and restores
-- the stack pointer, at every stack address.
pub rts_after_call :
    (b cd er disp : ℕ) (w : Walker)
    → w.er 7 < 4294967296
    → ReturnsTo (w.pc + 4) w (returned (jsr_abs b cd w))
      × ReturnsTo (w.pc + 2) w (returned (jsr_reg er w))
      × ReturnsTo (w.pc + 2) w (returned (bsr8 disp w))
      × ReturnsTo (w.pc + 4) w (returned (bsr16 disp w))
rts_after_call b cd er disp w h = (
  jsr_abs-ReturnsTo b cd w h,
  jsr_reg-ReturnsTo er w h,
  bsr8-ReturnsTo disp w h,
  bsr16-ReturnsTo disp w h,
)

load-set_memory :
    (r a v : ℕ) (w : Walker) → load_reg long r (set_memory long a v w) ≡ load_reg long r w
unfolding load_reg load32 set_memory set_memory32
load-set_memory r a v w = refl

load-store_ne :
    (r s : ℕ)
    → r % 8 ≢ s % 8
    → (v : ℕ) (w : Walker) → load_reg long r (store_reg long s v w) ≡ load_reg long r w
unfolding load_reg store_reg load32 store32
load-store_ne r s h v w = ground arith

get-set_flags :
    (a : ℕ) (f : Flags) (w : Walker) → get_memory long a (set_flags w f) ≡ get_memory long a w
unfolding get_memory get_memory32
get-set_flags a f w = refl

get-set_memory : (a v : ℕ) (w : Walker) → get_memory long a (set_memory long a v w) ≡ v % 4294967296
unfolding get_memory set_memory set_memory32 get_memory32
get-set_memory a v w = ground arith

-- MOV.l ERs, @-ER7 and then MOV.l @ER7+, ERd copies ERs to ERd and restores the stack pointer, if
-- neither register is ER7 and both hold 32-bit values.
pub load_inc-store_dec :
    (rs rd : ℕ) (w : Walker)
    → rs % 8 ≢ 7
    → rd % 8 ≢ 7
    → load_reg long 7 w < 4294967296
    → load_reg long rs w < 4294967296
    → let w' = load_inc long 7 rd (store_dec long rs 7 w) in
      (load_reg long rd w' ≡ load_reg long rs w) × (load_reg long 7 w' ≡ load_reg long 7 w)
unfolding load_inc store_dec
load_inc-store_dec rs rd w p q h k = (
  simp
      (
        load_reg-set_flags,
        load_reg-store_reg,
        load-set_memory,
        get-set_flags,
        get-set_memory,
        load-store_ne rs 7 p,
      )
      (omega arith),
  simp
      (
        load-store_ne 7 rd (λ e. q (sym e)),
        load_reg-set_flags,
        load_reg-store_reg,
        load-set_memory,
        get-set_flags,
      )
      (omega arith),
)
