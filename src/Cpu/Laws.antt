-- ===== src/Cpu/Laws.antt =====
-- About the reads and writes of register operands, for every width: the lemmas that the theorems on
-- instructions share.
pub mod Compare
pub mod Calls
pub mod Values
pub mod SingleBits
use pokestroller.Base.{ℕ, ◌%◌, ◌<◌, ◌≡◌, arith}
use pokestroller.Machine.{Flags, Walker, set_flags}
use pokestroller.Machine.Registers.{load8, load16, load32, store8, store16, store32}
use pokestroller.Alu.{Width, byte, word, long, modulus}
use pokestroller.Cpu.Op.{load_reg, store_reg}

pub load_reg-store_reg :
    (wd : Width) (rd v : ℕ) (w : Walker) → load_reg wd rd (store_reg wd rd v w) ≡ v % modulus wd
unfolding load_reg store_reg load8 load16 load32 store8 store16 store32
load_reg-store_reg byte rd v w = ground arith
load_reg-store_reg word rd v w = ground arith
load_reg-store_reg long rd v w = ground arith

pub load_reg-set_flags :
    (wd : Width) (rd : ℕ) (f : Flags) (w : Walker)
    → load_reg wd rd (set_flags w f) ≡ load_reg wd rd w
unfolding load_reg load8 load16 load32
load_reg-set_flags byte rd f w = ground arith
load_reg-set_flags word rd f w = ground arith
load_reg-set_flags long rd f w = ground arith

pub load_reg-lt :
    (wd : Width) (rd : ℕ) (w : Walker) → w.er (rd % 8) < 4294967296 → load_reg wd rd w < modulus wd
unfolding load_reg load8 load16 load32
load_reg-lt byte rd w h = ground arith
load_reg-lt word rd w h = ground arith
load_reg-lt long rd w h = ground arith

pub flags-store_reg : (wd : Width) (rd v : ℕ) (w : Walker) → (store_reg wd rd v w).flags ≡ w.flags
unfolding store_reg store8 store16 store32
flags-store_reg byte rd v w = ground arith
flags-store_reg word rd v w = ground arith
flags-store_reg long rd v w = ground arith
