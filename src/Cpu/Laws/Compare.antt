-- ===== src/Cpu/Laws/Compare.antt =====
-- About CMP and the conditions of the branches.
use pokestroller.Base.{ℕ, ◌<◌, ◌≡◌, not, xor, ◌||◌, arith, ltb, leb, ◌==◌}
use pokestroller.Base.Int.{ltb_ℤ}
use pokestroller.Machine.{Flags, Walker}
use pokestroller.Alu.{Width, byte, word, long, modulus, set_flags_sub}
use pokestroller.Alu.Compare.{signed, set_flags_sub_orders, pos_part-signed, neg_part-signed}
use pokestroller.Cpu.Op.{load_reg}
use pokestroller.Cpu.Arith.{cmp}
use pokestroller.Cpu.Branches.{condition}

-- The conditions by flags that BGE, BLT, BGT and BLE test, from the orders that a subtraction sets.
signed_equal :
    (wd : Width) (a b : ℕ)
    → a < modulus wd
    → b < modulus wd
    → not ((a == b) || ltb_ℤ (signed wd a) (signed wd b)) ≡ ltb_ℤ (signed wd b) (signed wd a)
signed_equal byte a b p q = ground (
  arith,
  pos_part-signed byte a,
  neg_part-signed byte a,
  pos_part-signed byte b,
  neg_part-signed byte b,
)
signed_equal word a b p q = ground (
  arith,
  pos_part-signed word a,
  neg_part-signed word a,
  pos_part-signed word b,
  neg_part-signed word b,
)
signed_equal long a b p q = ground (
  arith,
  pos_part-signed long a,
  neg_part-signed long a,
  pos_part-signed long b,
  neg_part-signed long b,
)

-- `x` is the register and `v` what it is compared with.
pub record Decides (wd : Width) (x v : ℕ) (f : Flags) : Type 0 where
  pub hi : condition 0x2 f ≡ ltb v x
  pub ls : condition 0x3 f ≡ leb x v
  pub cc : condition 0x4 f ≡ leb v x
  pub cs : condition 0x5 f ≡ ltb x v
  pub ne : condition 0x6 f ≡ not (x == v)
  pub eq : condition 0x7 f ≡ (x == v)
  pub ge : condition 0xc f ≡ not (ltb_ℤ (signed wd x) (signed wd v))
  pub lt : condition 0xd f ≡ ltb_ℤ (signed wd x) (signed wd v)
  pub gt : condition 0xe f ≡ ltb_ℤ (signed wd v) (signed wd x)
  pub le : condition 0xf f ≡ not (ltb_ℤ (signed wd v) (signed wd x))

Decides-flags :
    (wd : Width) (x v : ℕ) (f : Flags)
    → x < modulus wd
    → v < modulus wd
    → f.c ≡ ltb x v
    → f.z ≡ (x == v)
    → xor f.n f.v ≡ ltb_ℤ (signed wd x) (signed wd v)
    → Decides wd x v f
unfolding condition
Decides-flags wd x v f p q c z s = record {
  hi = rw (c, z) (ground arith);
  ls = rw (c, z) (ground arith);
  cc = rw c (ground arith);
  cs = c;
  ne = rw z;
  eq = z;
  ge = rw s;
  lt = s;
  gt = rw (z, s) (signed_equal wd x v p q);
  le = rw (z, s, ← signed_equal wd x v p q) (ground arith);
}

-- After CMP of a register with a value of its width, the conditions HI, LS, CC and CS decide the
-- unsigned order of the register and the value, NE and EQ their equality, and GE, LT, GT and LE
-- their signed order.
pub cmp-Decides :
    (wd : Width) (rd v : ℕ) (w : Walker)
    → load_reg wd rd w < modulus wd
    → v < modulus wd
    → Decides wd (load_reg wd rd w) v (cmp wd rd v w).flags
unfolding cmp
cmp-Decides wd rd v w p q =
    let o = set_flags_sub_orders wd (load_reg wd rd w) v w.flags p q in
    Decides-flags wd (load_reg wd rd w) v (set_flags_sub wd (load_reg wd rd w) v w.flags) p q o.0
      o.1 o.2
