-- ===== src/Valid/Shifts.antt =====
-- The instructions of Cpu/Shifts leave a valid state valid.
use pokestroller.Base.{ℕ}
use pokestroller.Machine.{Walker}
use pokestroller.Alu.{Width}
use pokestroller.Cpu.Shifts.{shll, shal, shlr, shar, rotxl, rotl}
use pokestroller.Valid.{IsValid, flags, reg}

module _ {c q : ℕ} {w : Walker} where
  pub shll-IsValid : (wd : Width) (rd : ℕ) → IsValid c q w → IsValid c q (shll wd rd w)
  unfolding shll
  shll-IsValid wd rd i = search (flags, reg)

  pub shal-IsValid : (wd : Width) (rd : ℕ) → IsValid c q w → IsValid c q (shal wd rd w)
  unfolding shal
  shal-IsValid wd rd i = search (flags, reg)

  pub shlr-IsValid : (wd : Width) (rd : ℕ) → IsValid c q w → IsValid c q (shlr wd rd w)
  unfolding shlr
  shlr-IsValid wd rd i = search (flags, reg)

  pub shar-IsValid : (wd : Width) (rd : ℕ) → IsValid c q w → IsValid c q (shar wd rd w)
  unfolding shar
  shar-IsValid wd rd i = search (flags, reg)

  pub rotxl-IsValid : (wd : Width) (rd : ℕ) → IsValid c q w → IsValid c q (rotxl wd rd w)
  unfolding rotxl
  rotxl-IsValid wd rd i = search (flags, reg)

  pub rotl-IsValid : (wd : Width) (rd : ℕ) → IsValid c q w → IsValid c q (rotl wd rd w)
  unfolding rotl
  rotl-IsValid wd rd i = search (flags, reg)

pub ruleset shift_rules =
    (shll-IsValid, shal-IsValid, shlr-IsValid, shar-IsValid, rotxl-IsValid, rotl-IsValid)
