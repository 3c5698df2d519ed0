-- ===== src/Valid/Branches.antt =====
-- The instructions of Cpu/Branches leave a valid state valid.
use pokestroller.Base.{ℕ}
use pokestroller.Machine.{Walker}
use pokestroller.Machine.Reaches.{Reaches, if-Reaches}
use pokestroller.Cpu.Branches.{
  branch8, branch16, push16, rts, bsr8, bsr16, rte, jmp_reg, jmp_abs, jsr_reg, jsr_abs,
}
use pokestroller.Valid.{IsValid, either, flags, goto, reg, memory16}

module _ {c q : ℕ} {w : Walker} where
  pub branch8-IsValid : (cc : ℕ) (d : ℕ) → IsValid c q w → Reaches (IsValid c q) (branch8 cc d w)
  unfolding branch8
  branch8-IsValid cc d i = search (if-Reaches, either, goto, tt)

  pub branch16-IsValid : (cc : ℕ) (d : ℕ) → IsValid c q w → Reaches (IsValid c q) (branch16 cc d w)
  unfolding branch16
  branch16-IsValid cc d i = search (if-Reaches, either, goto)

  pub push16-IsValid : (v : ℕ) → IsValid c q w → IsValid c q (push16 v w)
  unfolding push16
  push16-IsValid v i = search (reg, memory16)

  pub rts-IsValid : IsValid c q w → IsValid c q (rts w)
  unfolding rts
  rts-IsValid i = search (goto, reg)

  pub rte-IsValid : IsValid c q w → IsValid c q (rte w)
  unfolding rte
  rte-IsValid i = flags (goto _ i)

  pub jmp_reg-IsValid : (er : ℕ) → IsValid c q w → IsValid c q (jmp_reg er w)
  unfolding jmp_reg
  jmp_reg-IsValid er i = search (goto)

  pub jmp_abs-IsValid : (b : ℕ) (cd : ℕ) → IsValid c q w → IsValid c q (jmp_abs b cd w)
  unfolding jmp_abs
  jmp_abs-IsValid b cd i = search (goto)

  pub bsr8-IsValid : (d : ℕ) → IsValid c q w → IsValid c q (bsr8 d w)
  unfolding bsr8
  bsr8-IsValid d i = search (goto, push16-IsValid)

  pub bsr16-IsValid : (d : ℕ) → IsValid c q w → IsValid c q (bsr16 d w)
  unfolding bsr16
  bsr16-IsValid d i = search (goto, push16-IsValid)

  pub jsr_reg-IsValid : (er : ℕ) → IsValid c q w → IsValid c q (jsr_reg er w)
  unfolding jsr_reg
  jsr_reg-IsValid er i = search (goto, push16-IsValid)

  pub jsr_abs-IsValid : (b : ℕ) (cd : ℕ) → IsValid c q w → IsValid c q (jsr_abs b cd w)
  unfolding jsr_abs
  jsr_abs-IsValid b cd i = search (goto, push16-IsValid)

pub ruleset branch_rules = (
  branch8-IsValid, branch16-IsValid, rts-IsValid, rte-IsValid, jmp_reg-IsValid, jmp_abs-IsValid,
  bsr8-IsValid, bsr16-IsValid, jsr_reg-IsValid, jsr_abs-IsValid,
)
