-- ===== src/Alu/Compare.antt =====
-- About setFlagsSUB of src/walker.c, and the signed number that a word stands for.
use pokestroller.Base.{
  ℕ, suc, Bool-cases, inl, inr, ◌-◌, ◌^◌, ◌<◌, ◌≡◌, xor, arith, ltb, ◌==◌, if◌then◌else◌,
}
use pokestroller.Base.Int.{ℤ, pos, negsuc, pos_part, neg_part, ltb_ℤ}
use pokestroller.Machine.{Flags}
use pokestroller.Alu.{Width, byte, word, long, modulus, sign_pos, set_flags_sub}

-- The signed number that a word stands for in two's complement.
unfoldable pub signed : Width → ℕ → ℤ
signed wd x = if ltb x (2 ^ sign_pos wd) then pos x else negsuc (modulus wd - x - 1)

pub pos_part-signed :
    (wd : Width) (x : ℕ) → pos_part (signed wd x) ≡ (if ltb x (2 ^ sign_pos wd) then x else 0)
unfolding signed
pos_part-signed wd x = elim (Bool-cases (ltb x (2 ^ sign_pos wd))) [ inl e ↦ rw e | inr e ↦ rw e ]

pub neg_part-signed :
    (wd : Width) (x : ℕ)
    → neg_part (signed wd x) ≡ (if ltb x (2 ^ sign_pos wd) then 0 else suc (modulus wd - x - 1))
unfolding signed
neg_part-signed wd x = elim (Bool-cases (ltb x (2 ^ sign_pos wd))) [ inl e ↦ rw e | inr e ↦ rw e ]

-- After SUB or CMP of two words of any width, C is the unsigned order, Z is equality, and N xor V is
-- the signed order.
pub set_flags_sub_orders :
    (wd : Width) (a b : ℕ) (f : Flags)
    → a < modulus wd
    → b < modulus wd
    → let g = set_flags_sub wd a b f in
      (g.c ≡ ltb a b) × (g.z ≡ (a == b)) × (xor g.n g.v ≡ ltb_ℤ (signed wd a) (signed wd b))
unfolding set_flags_sub
set_flags_sub_orders byte a b f p q = (
  ground arith,
  ground arith,
  ground (
    arith,
    pos_part-signed byte a,
    neg_part-signed byte a,
    pos_part-signed byte b,
    neg_part-signed byte b,
  ),
)
set_flags_sub_orders word a b f p q = (
  ground arith,
  ground arith,
  ground (
    arith,
    pos_part-signed word a,
    neg_part-signed word a,
    pos_part-signed word b,
    neg_part-signed word b,
  ),
)
set_flags_sub_orders long a b f p q = (
  ground arith,
  ground arith,
  ground (
    arith,
    pos_part-signed long a,
    neg_part-signed long a,
    pos_part-signed long b,
    neg_part-signed long b,
  ),
)
