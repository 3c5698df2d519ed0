-- ===== src/Valid/BitOps.antt =====
-- The instructions of Cpu/BitOps leave a valid state valid.
use pokestroller.Base.{ℕ}
use pokestroller.Machine.{Walker}
use pokestroller.Machine.Reaches.{Reaches, if-Reaches}
use pokestroller.Cpu.BitOps.{
  bset_reg, bclr_reg, bset_mem, bclr_mem, bnot_mem, bst_mem, bst_reg, btst_reg, bld_reg, bld_mem,
}
use pokestroller.Valid.{IsValid, flags, reg, memory8}

module _ {c q : ℕ} {w : Walker} where
  pub bset_reg-IsValid :
      (bit : ℕ) (rd : ℕ) → IsValid c q w → Reaches (IsValid c q) (bset_reg bit rd w)
  unfolding bset_reg
  bset_reg-IsValid bit rd i = search (if-Reaches, reg, tt)

  pub bclr_reg-IsValid :
      (bit : ℕ) (rd : ℕ) → IsValid c q w → Reaches (IsValid c q) (bclr_reg bit rd w)
  unfolding bclr_reg
  bclr_reg-IsValid bit rd i = search (if-Reaches, reg, tt)

  pub bset_mem-IsValid :
      (bit : ℕ) (a : ℕ) → IsValid c q w → Reaches (IsValid c q) (bset_mem bit a w)
  unfolding bset_mem
  bset_mem-IsValid bit a i = search (if-Reaches, memory8, tt)

  pub bclr_mem-IsValid :
      (bit : ℕ) (a : ℕ) → IsValid c q w → Reaches (IsValid c q) (bclr_mem bit a w)
  unfolding bclr_mem
  bclr_mem-IsValid bit a i = search (if-Reaches, memory8, tt)

  pub bnot_mem-IsValid :
      (bit : ℕ) (a : ℕ) → IsValid c q w → Reaches (IsValid c q) (bnot_mem bit a w)
  unfolding bnot_mem
  bnot_mem-IsValid bit a i = search (if-Reaches, bset_mem-IsValid, bclr_mem-IsValid)

  pub bst_mem-IsValid : (bit : ℕ) (a : ℕ) → IsValid c q w → Reaches (IsValid c q) (bst_mem bit a w)
  unfolding bst_mem
  bst_mem-IsValid bit a i = search (if-Reaches, bset_mem-IsValid, bclr_mem-IsValid)

  pub bst_reg-IsValid :
      (bit : ℕ) (rd : ℕ) → IsValid c q w → Reaches (IsValid c q) (bst_reg bit rd w)
  unfolding bst_reg
  bst_reg-IsValid bit rd i = search (bst_mem-IsValid)

  pub btst_reg-IsValid : (bit : ℕ) (rd : ℕ) → IsValid c q w → IsValid c q (btst_reg bit rd w)
  unfolding btst_reg
  btst_reg-IsValid bit rd i = search (flags)

  pub bld_reg-IsValid : (bit : ℕ) (rd : ℕ) → IsValid c q w → IsValid c q (bld_reg bit rd w)
  unfolding bld_reg
  bld_reg-IsValid bit rd i = search (flags)

  pub bld_mem-IsValid : (bit : ℕ) (a : ℕ) → IsValid c q w → IsValid c q (bld_mem bit a w)
  unfolding bld_mem
  bld_mem-IsValid bit a i = search (flags)

pub ruleset bit_rules = (
  bset_reg-IsValid, bclr_reg-IsValid, bset_mem-IsValid, bclr_mem-IsValid, bnot_mem-IsValid,
  bst_mem-IsValid, bst_reg-IsValid, btst_reg-IsValid, bld_reg-IsValid, bld_mem-IsValid,
)
