-- ===== src/Valid/Moves.antt =====
-- The instructions of Cpu/Moves leave a valid state valid.
use pokestroller.Base.{ℕ, ◌<◌, arith}
use pokestroller.Machine.{Walker}
use pokestroller.Machine.Registers.{load8}
use pokestroller.Alu.{Width, byte}
use pokestroller.Cpu.Op.{load_reg}
use pokestroller.Cpu.Moves.{
  mov, load_from, store_to, load_inc, store_dec, store_dec_b, load_disp, store_disp, load_abs_b,
  store_abs_b,
}
use pokestroller.Valid.{IsValid, either, flags, poked, reg, memory8, memory, reloaded}

load8-lt : (rs : ℕ) (w : Walker) → load_reg byte rs w < 256
unfolding load_reg load8
load8-lt rs w = ground arith

module _ {c q : ℕ} {w : Walker} where
  pub mov-IsValid : (wd : Width) (v : ℕ) (rd : ℕ) → IsValid c q w → IsValid c q (mov wd v rd w)
  unfolding mov
  mov-IsValid wd v rd i = search (flags, reg)

  pub load_from-IsValid :
      (wd : Width) (a : ℕ) (rd : ℕ) → IsValid c q w → IsValid c q (load_from wd a rd w)
  unfolding load_from
  load_from-IsValid wd a rd i = search (flags, reg)

  pub store_to-IsValid :
      (wd : Width) (rs : ℕ) (a : ℕ) → IsValid c q w → IsValid c q (store_to wd rs a w)
  unfolding store_to
  store_to-IsValid wd rs a i = search (flags, memory)

  pub load_inc-IsValid :
      (wd : Width) (rs : ℕ) (rd : ℕ) → IsValid c q w → IsValid c q (load_inc wd rs rd w)
  unfolding load_inc
  load_inc-IsValid wd rs rd i = search (flags, reg)

  pub store_dec-IsValid :
      (wd : Width) (rs : ℕ) (rd : ℕ) → IsValid c q w → IsValid c q (store_dec wd rs rd w)
  unfolding store_dec
  store_dec-IsValid wd rs rd i = search (flags, reg, memory)

  pub store_dec_b-IsValid : (rs : ℕ) (rd : ℕ) → IsValid c q w → IsValid c q (store_dec_b rs rd w)
  unfolding store_dec_b
  store_dec_b-IsValid rs rd i = search (flags, reg, memory8)

  pub load_disp-IsValid :
      (wd : Width) (d : ℕ) (rs : ℕ) (rd : ℕ) → IsValid c q w → IsValid c q (load_disp wd d rs rd w)
  unfolding load_disp
  load_disp-IsValid wd d rs rd i = search (flags, reg)

  pub store_disp-IsValid :
      (wd : Width) (d : ℕ) (rs : ℕ) (rd : ℕ) → IsValid c q w → IsValid c q (store_disp wd d rs rd w)
  unfolding store_disp
  store_disp-IsValid wd d rs rd i = search (flags, memory)

  pub load_abs_b-IsValid : (cd : ℕ) (rd : ℕ) → IsValid c q w → IsValid c q (load_abs_b cd rd w)
  unfolding load_abs_b
  load_abs_b-IsValid cd rd i = search (either, poked, load_from-IsValid)

  pub store_abs_b-IsValid : (rs : ℕ) (cd : ℕ) → IsValid c q w → IsValid c q (store_abs_b rs cd w)
  unfolding store_abs_b
  store_abs_b-IsValid rs cd i = search (either, poked, reloaded, load8-lt, store_to-IsValid)

pub ruleset move_rules = (
  mov-IsValid, load_from-IsValid, store_to-IsValid, load_inc-IsValid, store_dec-IsValid,
  store_dec_b-IsValid, load_disp-IsValid, store_disp-IsValid, load_abs_b-IsValid,
  store_abs_b-IsValid,
)
