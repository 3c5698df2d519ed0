-- ===== src/Cpu/Laws/Values.antt =====
-- About SHAR, EXTS, ADD, SUB and ROTXL, and the numbers that registers stand for.
use pokestroller.Base.{ℕ, ◌+◌, ◌*◌, ◌/◌, ◌%◌, ◌^◌, ◌<◌, ◌≡◌, arith}
use pokestroller.Base.Int.{ℤ, pos, negsuc}
use pokestroller.Machine.{Walker}
use pokestroller.Alu.{Width, byte, word, long, modulus, sign_pos, set_flags_mov}
use pokestroller.Alu.Compare.{signed}
use pokestroller.Cpu.Op.{load_reg, flag_value}
use pokestroller.Cpu.Arith.{add, sub, exts}
use pokestroller.Cpu.Shifts.{shar, rotxl}
use pokestroller.Cpu.Laws.{load_reg-store_reg, load_reg-set_flags, flags-store_reg}

-- An integer divided by 2, rounded down.
abbrev pub half_ℤ : ℤ → ℤ
half_ℤ (pos n) = pos (n / 2)
half_ℤ (negsuc n) = negsuc (n / 2)

abbrev shifted : Width → ℕ → ℕ
shifted wd x = (x / 2 + x / 2 ^ sign_pos wd % 2 * 2 ^ sign_pos wd) % modulus wd

signed-shifted :
    (wd : Width) (x : ℕ) → x < modulus wd → signed wd (shifted wd x) ≡ half_ℤ (signed wd x)
unfolding signed
signed-shifted byte x h = ground arith
signed-shifted word x h = ground arith
signed-shifted long x h = ground arith

load-shar :
    (wd : Width) (rd : ℕ) (w : Walker)
    → load_reg wd rd (shar wd rd w) ≡ shifted wd (load_reg wd rd w)
unfolding shar
load-shar wd rd w = simp (load_reg-set_flags, load_reg-store_reg)

-- SHAR halves the signed value of the register, rounding down.
pub signed-shar :
    (wd : Width) (rd : ℕ) (w : Walker)
    → load_reg wd rd w < modulus wd
    → signed wd (load_reg wd rd (shar wd rd w)) ≡ half_ℤ (signed wd (load_reg wd rd w))
signed-shar wd rd w h = rw (load-shar wd rd w) (signed-shifted wd (load_reg wd rd w) h)

-- EXTS.w and EXTS.l keep the signed value of the lower half of the register.
pub signed-exts :
    (rd : ℕ) (w : Walker)
    → (signed word (load_reg word rd (exts word 256 rd w)) ≡ signed byte (load_reg word rd w % 256))
      × (signed long (load_reg long rd (exts long 65536 rd w))
          ≡ signed word (load_reg long rd w % 65536))
unfolding exts signed
signed-exts rd w = (
  simp (load_reg-set_flags, load_reg-store_reg) (ground arith),
  simp (load_reg-set_flags, load_reg-store_reg) (ground arith),
)

-- SUB undoes ADD of the same value, for each width.
pub sub-add :
    (wd : Width) (rd v : ℕ) (w : Walker)
    → load_reg wd rd w < modulus wd
    → v < modulus wd
    → load_reg wd rd (sub wd rd v (add wd rd v w)) ≡ load_reg wd rd w
unfolding add sub
sub-add byte rd v w p q = simp load_reg-store_reg (omega arith)
sub-add word rd v w p q = simp load_reg-store_reg (omega arith)
sub-add long rd v w p q = simp load_reg-store_reg (omega arith)

-- A rotation through the carry keeps all bits of the register and of the carry: with the carry put
-- on top it is the doubled value, with the old carry below.
pub rotxl_lem :
    (wd : Width) (rd : ℕ) (w : Walker)
    → load_reg wd rd w < modulus wd
    → let w' = rotxl wd rd w in
      flag_value w'.flags.c * modulus wd + load_reg wd rd w'
      ≡ 2 * load_reg wd rd w + flag_value w.flags.c
unfolding rotxl set_flags_mov
rotxl_lem byte rd w p =
    simp (load_reg-set_flags, load_reg-store_reg, flags-store_reg) (ground arith)
rotxl_lem word rd w p =
    simp (load_reg-set_flags, load_reg-store_reg, flags-store_reg) (ground arith)
rotxl_lem long rd w p =
    simp (load_reg-set_flags, load_reg-store_reg, flags-store_reg) (ground arith)
