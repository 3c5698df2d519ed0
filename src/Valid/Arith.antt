-- ===== src/Valid/Arith.antt =====
-- The instructions of Cpu/Arith leave a valid state valid.
use pokestroller.Base.{ℕ}
use pokestroller.Machine.{Walker}
use pokestroller.Machine.Reaches.{Reaches, if-Reaches}
use pokestroller.Alu.{Width}
use pokestroller.Cpu.Arith.{
  add, sub, cmp, inc, dec, adds, subs, subx, neg, extu, exts, not_reg, and_reg, or_reg, xor_reg,
  mulxu_b, mulxu_w, divxu_b, divxu_w, mulxs_b, mulxs_w, divxs_b, divxs_w,
}
use pokestroller.Valid.{IsValid, either, flags, reg}

module _ {c q : ℕ} {w : Walker} where
  pub add-IsValid : (wd : Width) (rd : ℕ) (v : ℕ) → IsValid c q w → IsValid c q (add wd rd v w)
  unfolding add
  add-IsValid wd rd v i = search (flags, reg)

  pub sub-IsValid : (wd : Width) (rd : ℕ) (v : ℕ) → IsValid c q w → IsValid c q (sub wd rd v w)
  unfolding sub
  sub-IsValid wd rd v i = search (flags, reg)

  pub cmp-IsValid : (wd : Width) (rd : ℕ) (v : ℕ) → IsValid c q w → IsValid c q (cmp wd rd v w)
  unfolding cmp
  cmp-IsValid wd rd v i = search (flags)

  pub inc-IsValid : (wd : Width) (k : ℕ) (rd : ℕ) → IsValid c q w → IsValid c q (inc wd k rd w)
  unfolding inc
  inc-IsValid wd k rd i = search (flags, reg)

  pub dec-IsValid : (wd : Width) (k : ℕ) (rd : ℕ) → IsValid c q w → IsValid c q (dec wd k rd w)
  unfolding dec
  dec-IsValid wd k rd i = search (flags, reg)

  pub adds-IsValid : (k : ℕ) (rd : ℕ) → IsValid c q w → IsValid c q (adds k rd w)
  unfolding adds
  adds-IsValid k rd i = search (reg)

  pub subs-IsValid : (k : ℕ) (rd : ℕ) → IsValid c q w → IsValid c q (subs k rd w)
  unfolding subs
  subs-IsValid k rd i = search (reg)

  pub subx-IsValid : (rs : ℕ) (rd : ℕ) → IsValid c q w → IsValid c q (subx rs rd w)
  unfolding subx
  subx-IsValid rs rd i = search (flags, reg)

  pub extu-IsValid :
      (wd : Width) (low : ℕ) (rd : ℕ) → IsValid c q w → IsValid c q (extu wd low rd w)
  unfolding extu
  extu-IsValid wd low rd i = search (flags, reg)

  pub exts-IsValid :
      (wd : Width) (low : ℕ) (rd : ℕ) → IsValid c q w → IsValid c q (exts wd low rd w)
  unfolding exts
  exts-IsValid wd low rd i = search (flags, reg)

  pub not_reg-IsValid : (wd : Width) (rd : ℕ) → IsValid c q w → IsValid c q (not_reg wd rd w)
  unfolding not_reg
  not_reg-IsValid wd rd i = search (flags, reg)

  pub and_reg-IsValid :
      (wd : Width) (v : ℕ) (rd : ℕ) → IsValid c q w → IsValid c q (and_reg wd v rd w)
  unfolding and_reg
  and_reg-IsValid wd v rd i = search (flags, reg)

  pub or_reg-IsValid :
      (wd : Width) (v : ℕ) (rd : ℕ) → IsValid c q w → IsValid c q (or_reg wd v rd w)
  unfolding or_reg
  or_reg-IsValid wd v rd i = search (flags, reg)

  pub xor_reg-IsValid :
      (wd : Width) (v : ℕ) (rd : ℕ) → IsValid c q w → IsValid c q (xor_reg wd v rd w)
  unfolding xor_reg
  xor_reg-IsValid wd v rd i = search (flags, reg)

  pub mulxs_b-IsValid : (rs : ℕ) (rd : ℕ) → IsValid c q w → IsValid c q (mulxs_b rs rd w)
  unfolding mulxs_b
  mulxs_b-IsValid rs rd i = search (flags, reg)

  pub mulxs_w-IsValid : (rs : ℕ) (rd : ℕ) → IsValid c q w → IsValid c q (mulxs_w rs rd w)
  unfolding mulxs_w
  mulxs_w-IsValid rs rd i = search (flags, reg)

  pub neg-IsValid : (wd : Width) (rd : ℕ) → IsValid c q w → IsValid c q (neg wd rd w)
  unfolding neg
  neg-IsValid wd rd i = search (either, flags, reg)

  pub mulxu_b-IsValid : (rs : ℕ) (rd : ℕ) → IsValid c q w → Reaches (IsValid c q) (mulxu_b rs rd w)
  unfolding mulxu_b
  mulxu_b-IsValid rs rd i = search (reg)

  pub mulxu_w-IsValid : (rs : ℕ) (rd : ℕ) → IsValid c q w → Reaches (IsValid c q) (mulxu_w rs rd w)
  unfolding mulxu_w
  mulxu_w-IsValid rs rd i = search (if-Reaches, reg, tt)

  pub divxu_b-IsValid : (rs : ℕ) (rd : ℕ) → IsValid c q w → Reaches (IsValid c q) (divxu_b rs rd w)
  unfolding divxu_b
  divxu_b-IsValid rs rd i = search (if-Reaches, flags, reg, tt)

  pub divxu_w-IsValid : (rs : ℕ) (rd : ℕ) → IsValid c q w → Reaches (IsValid c q) (divxu_w rs rd w)
  unfolding divxu_w
  divxu_w-IsValid rs rd i = search (if-Reaches, flags, reg, tt)

  pub divxs_b-IsValid : (rs : ℕ) (rd : ℕ) → IsValid c q w → Reaches (IsValid c q) (divxs_b rs rd w)
  unfolding divxs_b
  divxs_b-IsValid rs rd i = search (if-Reaches, flags, reg, tt)

  pub divxs_w-IsValid : (rs : ℕ) (rd : ℕ) → IsValid c q w → Reaches (IsValid c q) (divxs_w rs rd w)
  unfolding divxs_w
  divxs_w-IsValid rs rd i = search (if-Reaches, flags, reg, tt) depth 8

pub ruleset arith_rules = (
  add-IsValid, sub-IsValid, cmp-IsValid, inc-IsValid, dec-IsValid, adds-IsValid, subs-IsValid,
  subx-IsValid, extu-IsValid, exts-IsValid, not_reg-IsValid, and_reg-IsValid, or_reg-IsValid,
  xor_reg-IsValid, mulxs_b-IsValid, mulxs_w-IsValid, neg-IsValid, mulxu_b-IsValid, mulxu_w-IsValid,
  divxu_b-IsValid, divxu_w-IsValid, divxs_b-IsValid, divxs_w-IsValid,
)
