-- ===== src/Alu/Sums.antt =====
-- About setFlagsADD and setFlagsINC of src/walker.c.
use pokestroller.Base.{
  ℕ, refl, ◌-◌, ◌+◌, ◌%◌, ◌^◌, ◌<◌, ◌≡◌, ◌≢◌, Bool, false, not, ◌||◌, ◌&&◌, arith, ltb, leb, ◌==◌,
}
use pokestroller.Base.Int.{ℤ, pos, negsuc, ltb_ℤ, ◌+ℤ◌, +ℤ_parts}
use pokestroller.Machine.{Flags}
use pokestroller.Alu.{
  Width, byte, word, long, modulus, sign_pos, set_flags_add, set_flags_inc, minus,
}
use pokestroller.Alu.Compare.{signed, pos_part-signed, neg_part-signed}

-- Whether an integer lies outside the signed range of a width.
abbrev pub overflows : Width → ℤ → Bool
overflows wd x = ltb_ℤ x (negsuc (2 ^ sign_pos wd - 1)) || not (ltb_ℤ x (pos (2 ^ sign_pos wd)))

-- After ADD of two words of any width, Z says whether the wrapped sum is 0, N whether it is
-- negative, and V whether the sum of the signed operands lies outside the signed range.
pub set_flags_add_lem :
    (wd : Width) (a b : ℕ) (f : Flags)
    → a < modulus wd
    → b < modulus wd
    → let g = set_flags_add wd a b f in
      (g.z ≡ ((a + b) % modulus wd == 0))
      × (g.n ≡ ltb_ℤ (signed wd ((a + b) % modulus wd)) (pos 0))
      × (g.v ≡ overflows wd (signed wd a +ℤ signed wd b))
unfolding set_flags_add
set_flags_add_lem byte a b f p q = (
  ground arith,
  ground (
    arith,
    neg_part-signed byte ((a + b) % modulus byte),
    pos_part-signed byte ((a + b) % modulus byte),
  ),
  ground (
    arith,
    pos_part-signed byte a,
    neg_part-signed byte a,
    pos_part-signed byte b,
    neg_part-signed byte b,
    +ℤ_parts (signed byte a) (signed byte b),
  ),
)
set_flags_add_lem word a b f p q = (
  ground arith,
  ground (
    arith,
    neg_part-signed word ((a + b) % modulus word),
    pos_part-signed word ((a + b) % modulus word),
  ),
  ground (
    arith,
    pos_part-signed word a,
    neg_part-signed word a,
    pos_part-signed word b,
    neg_part-signed word b,
    +ℤ_parts (signed word a) (signed word b),
  ),
)
set_flags_add_lem long a b f p q = (
  ground arith,
  ground (
    arith,
    neg_part-signed long ((a + b) % modulus long),
    pos_part-signed long ((a + b) % modulus long),
  ),
  ground (
    arith,
    pos_part-signed long a,
    neg_part-signed long a,
    pos_part-signed long b,
    neg_part-signed long b,
    +ℤ_parts (signed long a) (signed long b),
  ),
)

-- After ADD of two words of any width, C is set exactly when the sum does not fit the width and the
-- second operand has a clear sign bit; with the sign bit set the carry is lost.
pub set_flags_add_carry :
    (wd : Width) (a b : ℕ) (f : Flags)
    → a < modulus wd
    → b < modulus wd
    → (set_flags_add wd a b f).c ≡ (leb (modulus wd) (a + b) && ltb b (2 ^ sign_pos wd))
unfolding set_flags_add
set_flags_add_carry byte a b f p q = ground arith
set_flags_add_carry word a b f p q = ground arith
set_flags_add_carry long a b f p q = ground arith

-- With the negated step 1 or 2 that DEC passes, of any width, Z says whether the operand is the step,
-- and V whether the difference of the signed numbers lies outside the signed range.
pub set_flags_inc_lem :
    (wd : Width) (k a : ℕ) (f : Flags)
    → a < modulus wd
    → k < 3
    → 0 < k
    → let g = set_flags_inc wd a (minus k) f in
      (g.z ≡ (a == k)) × (g.v ≡ overflows wd (signed wd a +ℤ negsuc (k - 1)))
unfolding set_flags_inc
set_flags_inc_lem byte k a f p q r = (
  ground arith,
  ground (
    arith,
    pos_part-signed byte a,
    neg_part-signed byte a,
    +ℤ_parts (signed byte a) (negsuc (k - 1)),
  ),
)
set_flags_inc_lem word k a f p q r = (
  ground arith,
  ground (
    arith,
    pos_part-signed word a,
    neg_part-signed word a,
    +ℤ_parts (signed word a) (negsuc (k - 1)),
  ),
)
set_flags_inc_lem long k a f p q r = (
  ground arith,
  ground (
    arith,
    pos_part-signed long a,
    neg_part-signed long a,
    +ℤ_parts (signed long a) (negsuc (k - 1)),
  ),
)

-- With the step 1 or 2 that INC passes, of 8 or 16 bits, Z is never set, not even where the operand
-- wraps around to 0.
pub set_flags_inc_zero :
    (wd : Width) (k a : ℕ) (f : Flags)
    → a < modulus wd
    → wd ≢ long
    → 0 < k
    → k < 3
    → (set_flags_inc wd a k f).z ≡ false
unfolding set_flags_inc
set_flags_inc_zero byte k a f p ne q r = ground arith
set_flags_inc_zero word k a f p ne q r = ground arith
set_flags_inc_zero long k a f p ne q r = absurd (ne refl)
