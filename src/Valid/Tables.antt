-- ===== src/Valid/Tables.antt =====
-- The opcode tables of Cpu/Exec and Cpu/Extended leave a valid state valid.
use pokestroller.Base.{ℕ}
use pokestroller.Machine.{Walker, Outcome, ok, unimplemented, undefined, ◌>>=◌}
use pokestroller.Machine.Reaches.{Reaches, if-Reaches, row-Reaches, default-Reaches}
use pokestroller.Alu.{Width}
use pokestroller.Cpu.Op.{Op, advance}
use pokestroller.Cpu.Exec.{exec}
use pokestroller.Cpu.Exec.Group0.{exec_inc_add, exec_adds_inc, exec_0}
use pokestroller.Cpu.Exec.Group1.{
  exec_shift_left, exec_shift_right, exec_rotate, exec_unary, exec_dec_sub, exec_subs_dec, exec_1,
}
use pokestroller.Cpu.Exec.Group5.{exec_5}
use pokestroller.Cpu.Exec.Group6.{exec_mov_abs, exec_mov_indirect, exec_6}
use pokestroller.Cpu.Exec.Group7.{
  exec_immediate, exec_bit_test_abs, exec_bit_indirect, exec_bit_abs, exec_7,
}
use pokestroller.Cpu.Extended.{
  exec_mov_long, exec_stc_ldc, exec_mulxs, exec_divxs, exec_logic_ext, exec_extended,
}
use pokestroller.Valid.{IsValid, either, flags, goto, sleeping}
use pokestroller.Valid.Arith.{arith_rules}
use pokestroller.Valid.Shifts.{shift_rules}
use pokestroller.Valid.Moves.{move_rules}
use pokestroller.Valid.BitOps.{bit_rules}
use pokestroller.Valid.Branches.{branch_rules}

then_advance :
    (c q k : ℕ) (o : Outcome)
    → Reaches (IsValid c q) o
    → Reaches (IsValid c q) (o >>= λ w1. ok (advance k w1))
then_advance c q k (ok w) h = goto _ h
then_advance c q k (unimplemented w) h = tt
then_advance c q k undefined h = tt

ruleset table_rules = (row-Reaches, default-Reaches, if-Reaches, either, then_advance, goto, tt)

module _ {c q : ℕ} {w : Walker} where
  pub exec_inc_add-IsValid : (op : Op) → IsValid c q w → Reaches (IsValid c q) (exec_inc_add op w)
  unfolding exec_inc_add
  exec_inc_add-IsValid op i = search (arith_rules, table_rules) depth 40 fits 4000

  pub exec_adds_inc-IsValid : (op : Op) → IsValid c q w → Reaches (IsValid c q) (exec_adds_inc op w)
  unfolding exec_adds_inc
  exec_adds_inc-IsValid op i = search (arith_rules, table_rules) depth 40 fits 4000

  pub exec_dec_sub-IsValid : (op : Op) → IsValid c q w → Reaches (IsValid c q) (exec_dec_sub op w)
  unfolding exec_dec_sub
  exec_dec_sub-IsValid op i = search (arith_rules, table_rules) depth 40 fits 4000

  pub exec_subs_dec-IsValid : (op : Op) → IsValid c q w → Reaches (IsValid c q) (exec_subs_dec op w)
  unfolding exec_subs_dec
  exec_subs_dec-IsValid op i = search (arith_rules, table_rules) depth 40 fits 4000

  pub exec_unary-IsValid : (op : Op) → IsValid c q w → Reaches (IsValid c q) (exec_unary op w)
  unfolding exec_unary
  exec_unary-IsValid op i = search (arith_rules, table_rules) depth 40 fits 4000

  pub exec_shift_left-IsValid :
      (op : Op) → IsValid c q w → Reaches (IsValid c q) (exec_shift_left op w)
  unfolding exec_shift_left
  exec_shift_left-IsValid op i = search (shift_rules, table_rules) depth 40 fits 4000

  pub exec_shift_right-IsValid :
      (op : Op) → IsValid c q w → Reaches (IsValid c q) (exec_shift_right op w)
  unfolding exec_shift_right
  exec_shift_right-IsValid op i = search (shift_rules, table_rules) depth 40 fits 4000

  pub exec_rotate-IsValid : (op : Op) → IsValid c q w → Reaches (IsValid c q) (exec_rotate op w)
  unfolding exec_rotate
  exec_rotate-IsValid op i = search (shift_rules, table_rules) depth 40 fits 4000

  pub exec_mov_abs-IsValid : (op : Op) → IsValid c q w → Reaches (IsValid c q) (exec_mov_abs op w)
  unfolding exec_mov_abs
  exec_mov_abs-IsValid op i = search (move_rules, table_rules) depth 40 fits 4000

  pub exec_mov_indirect-IsValid :
      (op : Op) → IsValid c q w → Reaches (IsValid c q) (exec_mov_indirect op w)
  unfolding exec_mov_indirect
  exec_mov_indirect-IsValid op i = search (move_rules, table_rules) depth 40 fits 4000

  pub exec_immediate-IsValid :
      (wd : Width) (v : ℕ) (op : Op)
      → IsValid c q w
      → Reaches (IsValid c q) (exec_immediate wd v op w)
  unfolding exec_immediate
  exec_immediate-IsValid wd v op i =
      search (arith_rules, move_rules, table_rules) depth 40 fits 4000

  pub exec_bit_test_abs-IsValid :
      (op : Op) → IsValid c q w → Reaches (IsValid c q) (exec_bit_test_abs op w)
  unfolding exec_bit_test_abs
  exec_bit_test_abs-IsValid op i = search (bit_rules, table_rules) depth 40 fits 4000

  pub exec_bit_indirect-IsValid :
      (op : Op) → IsValid c q w → Reaches (IsValid c q) (exec_bit_indirect op w)
  unfolding exec_bit_indirect
  exec_bit_indirect-IsValid op i = search (bit_rules, table_rules) depth 40 fits 4000

  pub exec_bit_abs-IsValid : (op : Op) → IsValid c q w → Reaches (IsValid c q) (exec_bit_abs op w)
  unfolding exec_bit_abs
  exec_bit_abs-IsValid op i = search (bit_rules, table_rules) depth 40 fits 4000

  pub exec_mov_long-IsValid : (op : Op) → IsValid c q w → Reaches (IsValid c q) (exec_mov_long op w)
  unfolding exec_mov_long
  exec_mov_long-IsValid op i = search (arith_rules, move_rules, table_rules) depth 40 fits 4000

  pub exec_stc_ldc-IsValid : (op : Op) → IsValid c q w → Reaches (IsValid c q) (exec_stc_ldc op w)
  unfolding exec_stc_ldc
  exec_stc_ldc-IsValid op i = search (arith_rules, table_rules) depth 40 fits 4000

  pub exec_mulxs-IsValid : (op : Op) → IsValid c q w → Reaches (IsValid c q) (exec_mulxs op w)
  unfolding exec_mulxs
  exec_mulxs-IsValid op i = search (arith_rules, table_rules) depth 40 fits 4000

  pub exec_divxs-IsValid : (op : Op) → IsValid c q w → Reaches (IsValid c q) (exec_divxs op w)
  unfolding exec_divxs
  exec_divxs-IsValid op i = search (arith_rules, table_rules) depth 40 fits 4000

  pub exec_logic_ext-IsValid :
      (op : Op) → IsValid c q w → Reaches (IsValid c q) (exec_logic_ext op w)
  unfolding exec_logic_ext
  exec_logic_ext-IsValid op i = search (arith_rules, table_rules) depth 40 fits 4000

  pub exec_extended-IsValid : (op : Op) → IsValid c q w → Reaches (IsValid c q) (exec_extended op w)
  unfolding exec_extended
  exec_extended-IsValid op i =
      search
        (
          sleeping, exec_mov_long-IsValid, exec_stc_ldc-IsValid, exec_mulxs-IsValid,
          exec_divxs-IsValid, exec_logic_ext-IsValid, table_rules,
        )
        depth 40 fits 4000

  pub exec_0-IsValid : (op : Op) → IsValid c q w → Reaches (IsValid c q) (exec_0 op w)
  unfolding exec_0
  exec_0-IsValid op i =
      search
        (
          arith_rules, move_rules, flags, exec_inc_add-IsValid, exec_adds_inc-IsValid,
          exec_extended-IsValid, table_rules,
        )
        depth 40 fits 4000

  pub exec_1-IsValid : (op : Op) → IsValid c q w → Reaches (IsValid c q) (exec_1 op w)
  unfolding exec_1
  exec_1-IsValid op i =
      search
        (
          arith_rules, exec_shift_left-IsValid, exec_shift_right-IsValid, exec_rotate-IsValid,
          exec_unary-IsValid, exec_dec_sub-IsValid, exec_subs_dec-IsValid, table_rules,
        )
        depth 40 fits 4000

  pub exec_5-IsValid : (op : Op) → IsValid c q w → Reaches (IsValid c q) (exec_5 op w)
  unfolding exec_5
  exec_5-IsValid op i = search (arith_rules, branch_rules, table_rules) depth 40 fits 4000

  pub exec_6-IsValid : (op : Op) → IsValid c q w → Reaches (IsValid c q) (exec_6 op w)
  unfolding exec_6
  exec_6-IsValid op i =
      search (arith_rules, bit_rules, exec_mov_abs-IsValid, exec_mov_indirect-IsValid, table_rules)
        depth 40 fits 4000

  pub exec_7-IsValid : (op : Op) → IsValid c q w → Reaches (IsValid c q) (exec_7 op w)
  unfolding exec_7
  exec_7-IsValid op i =
      search
        (
          bit_rules, exec_immediate-IsValid, exec_bit_test_abs-IsValid, exec_bit_indirect-IsValid,
          exec_bit_abs-IsValid, table_rules,
        )
        depth 40 fits 4000

  pub exec-IsValid : (op : Op) → IsValid c q w → Reaches (IsValid c q) (exec op w)
  unfolding exec
  exec-IsValid op i =
      search
        (
          arith_rules, move_rules, branch_rules, exec_0-IsValid, exec_1-IsValid, exec_5-IsValid,
          exec_6-IsValid, exec_7-IsValid, table_rules,
        )
        depth 40 fits 4000
