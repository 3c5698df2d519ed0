-- ===== src/Cpu/Extended.antt =====
-- The instructions of src/walker.c behind the prefix 0x01: MOV.l with memory, AND.l, OR.l, XOR.l,
-- SLEEP, MULXS and DIVXS.
use pokestroller.Base.{◌%◌, true, ◌&&◌, [], ◌∷◌, ◌==◌, has_bit, switch, if◌then◌else◌}
use pokestroller.Machine.{Walker, Outcome, ok, unimplemented, ◌>>=◌}
use pokestroller.Alu.{long}
use pokestroller.Cpu.Op.{Op, load_reg, advance}
use pokestroller.Cpu.Arith.{and_reg, or_reg, xor_reg, mulxs_b, mulxs_w, divxs_b, divxs_w}
use pokestroller.Cpu.Moves.{load_from, store_to, load_inc, store_dec, load_disp, store_disp}

-- 0x0100: the source adds 4 to pc after an access @aa:16 only if it is one of the two.
unfoldable pub exec_mov_long : Op → Walker → Outcome
exec_mov_long op w =
    switch op.c
      ((
        0x6b,
        switch op.dh
            ((0x0, ok (advance 4 (load_from long op.ef op.dl w)))
              ∷ (0x8, ok (advance 4 (store_to long op.dl (op.cdef % 65536) w)))
              ∷ [])
            (unimplemented w),
      )
        ∷ (
          0x6d,
          ok (
              advance 2 (
                if has_bit op.dh 3
                then store_dec long op.dl op.dh w
                else load_inc long op.dh op.dl w)),
        )
        ∷ (
          0x6f,
          ok (
              advance 4 (
                if has_bit op.dh 3
                then store_disp long op.ef op.dl op.dh w
                else load_disp long op.ef op.dh op.dl w)),
        )
        ∷ (
          0x69,
          ok (
              advance 2 (
                if has_bit op.dh 3
                then store_to long op.dl (load_reg long op.dh w) w
                else load_from long (load_reg long op.dh w) op.dl w)),
        )
        ∷ (0x66, ok (advance 2 (and_reg long (load_reg long op.dh w) op.dl w)))
        ∷ (0x64, ok (advance 2 (or_reg long (load_reg long op.dh w) op.dl w)))
        ∷ (0x65, ok (advance 2 (xor_reg long (load_reg long op.dh w) op.dl w)))
        ∷ [])
      (unimplemented w)

-- 0x0140: STC and LDC do nothing but skip a word.
unfoldable pub exec_stc_ldc : Op → Walker → Outcome
exec_stc_ldc op w =
    let w1 = advance 2 w in
    if op.bl == 0x0 && op.ch == 0x6
    then switch op.cl ((0x9, ok w1) ∷ (0xb, ok w1) ∷ (0xd, ok w1) ∷ (0xf, ok w1) ∷ [])
        (unimplemented w1)
    else ok w1

-- 0x01c0
unfoldable pub exec_mulxs : Op → Walker → Outcome
exec_mulxs op w =
    if op.bl == 0x0 && op.ch == 0x5
    then switch op.cl
        ((0x0, ok (advance 2 (mulxs_b op.dh op.dl w)))
          ∷ (0x2, ok (advance 2 (mulxs_w op.dh op.dl w)))
          ∷ [])
        (unimplemented w)
    else ok w

-- 0x01d0
unfoldable pub exec_divxs : Op → Walker → Outcome
exec_divxs op w =
    if op.bl == 0x0 && op.ch == 0x5
    then switch op.cl
        ((0x1, divxs_b op.dh op.dl w >>= λ w1. ok (advance 2 w1))
          ∷ (0x3, divxs_w op.dh op.dl w >>= λ w1. ok (advance 2 w1))
          ∷ [])
        (unimplemented w)
    else ok w

-- 0x01f0: all unimplemented, or nothing.
unfoldable pub exec_logic_ext : Op → Walker → Outcome
exec_logic_ext op w =
    let w1 = advance 2 w in if op.bl == 0x0 && op.ch == 0x6 then unimplemented w1 else ok w1

-- The `switch(bH)` of 0x01.
unfoldable pub exec_extended : Op → Walker → Outcome
exec_extended op w =
    switch op.bh
      ((0x0, exec_mov_long op w)
        ∷ (0x4, exec_stc_ldc op w)
        ∷ (0x8, ok (record w { sleep = true }))
        ∷ (0xc, exec_mulxs op w)
        ∷ (0xd, exec_divxs op w)
        ∷ (0xf, exec_logic_ext op w)
        ∷ [])
      (unimplemented w)
