-- ===== src/Base/Bits.antt =====
-- Single bits of machine words, and the laws that tie them to `&`, `|` and `^`.
use Prim.Native.Nat.{
  ℕ, zero, suc, ◌+◌, ◌-◌, ◌*◌, ◌/◌, ◌%◌, ◌^◌, ◌≤◌, ◌<◌, min, max, bit_and, bit_or, digits,
  bit_and-bitwise, bit_or-bitwise, bitwise,
}
use mathlib.Core.Path.{◌≡◌, refl, sym}
use mathlib.Core.Bool.{Bool, not, ◌&&◌, ◌||◌}
use native.Mathlib.Omega.{arith}
use native.Mathlib.Nat.{
  pow-succ', div-div-eq-div-mul, zero-div, pow-le-pow_right, one-le-pow, le_refl,
}
use pokestroller.Base.Tests.{◌==◌, if◌then◌else◌}

-- `v & (1 << k)` as a truth value.
abbrev pub has_bit : ℕ → ℕ → Bool
has_bit v k = v / 2 ^ k % 2 == 1

-- `v | (1 << k)`
unfoldable pub set_bit : ℕ → ℕ → ℕ
set_bit v k = bit_or v (2 ^ k)

-- `v & ~(1 << k)`, for `v` below 2 ^ 32 and `k` below 32.
unfoldable pub clear_bit : ℕ → ℕ → ℕ
clear_bit v k = bit_and v (2 ^ 32 - 1 - 2 ^ k)

-- A `uint8_t`, `uint16_t` or `uint32_t` conversion.
abbrev pub u8 : ℕ → ℕ
u8 n = n % 256

abbrev pub u16 : ℕ → ℕ
u16 n = n % 65536

abbrev pub u32 : ℕ → ℕ
u32 n = n % 4294967296

module _ (z : ℕ → ℕ) (f : ℕ → ℕ → ℕ) where
  -- The digit recursion does not depend on its fuel, given enough.
  enough : (n m a b : ℕ) → a ≤ n → a ≤ m → digits z f n a b ≡ digits z f m a b
  enough zero zero a b p q = refl
  enough zero (suc m) zero b p q = refl
  enough zero (suc m) (suc a) b p q = absurd (omega arith)
  enough (suc n) zero zero b p q = refl
  enough (suc n) zero (suc a) b p q = absurd (omega arith)
  enough (suc n) (suc m) zero b p q = refl
  enough (suc n) (suc m) (suc a) b p q =
      rw (enough n m (suc a / 2) (b / 2) (omega arith) (omega arith))

  one_digit :
      (a b : ℕ)
      → bitwise z f (suc a) b ≡ bitwise z f (suc a / 2) (b / 2) * 2 + f (suc a % 2) (b % 2)
  one_digit a b = omega (arith, enough a (suc a / 2) (suc a / 2) (b / 2) (omega arith) (le_refl _))

pub or_digit : (a b : ℕ) → bit_or a b ≡ bit_or (a / 2) (b / 2) * 2 + max (a % 2) (b % 2)
or_digit zero b = simp bit_or-bitwise (omega arith)
or_digit (suc a) b = simp bit_or-bitwise (one_digit (λ y. y) max a b)

pub and_digit : (a b : ℕ) → bit_and a b ≡ bit_and (a / 2) (b / 2) * 2 + min (a % 2) (b % 2)
and_digit zero b = simp bit_and-bitwise (omega arith)
and_digit (suc a) b = simp bit_and-bitwise (one_digit (λ y. 0) min a b)

-- One more shift halves first.
div-pow-suc : (a k : ℕ) → a / 2 ^ suc k ≡ a / 2 / 2 ^ k
div-pow-suc a k = rw pow-succ' (sym (div-div-eq-div-mul a 2 (2 ^ k)))

-- Digit `k` of a bitwise or.
or_at : (k a b : ℕ) → bit_or a b / 2 ^ k % 2 ≡ max (a / 2 ^ k % 2) (b / 2 ^ k % 2)
or_at zero a b = omega (arith, or_digit a b)
or_at (suc k) a b =
    let half : bit_or a b / 2 ≡ bit_or (a / 2) (b / 2) = omega (arith, or_digit a b) in
    rw (div-pow-suc (bit_or a b) k, div-pow-suc a k, div-pow-suc b k, half)
      (or_at k (a / 2) (b / 2))

-- Digit `k` of a bitwise and.
and_at : (k a b : ℕ) → bit_and a b / 2 ^ k % 2 ≡ min (a / 2 ^ k % 2) (b / 2 ^ k % 2)
and_at zero a b = omega (arith, and_digit a b)
and_at (suc k) a b =
    let half : bit_and a b / 2 ≡ bit_and (a / 2) (b / 2) = omega (arith, and_digit a b) in
    rw (div-pow-suc (bit_and a b) k, div-pow-suc a k, div-pow-suc b k, half)
      (and_at k (a / 2) (b / 2))

pub has_bit-bit_or : (a b k : ℕ) → has_bit (bit_or a b) k ≡ (has_bit a k || has_bit b k)
has_bit-bit_or a b k = rw (or_at k a b) (ground arith)

pub has_bit-bit_and : (a b k : ℕ) → has_bit (bit_and a b) k ≡ (has_bit a k && has_bit b k)
has_bit-bit_and a b k = rw (and_at k a b) (ground arith)

-- A bitwise or stays within the width of its operands.
pub bit_or-lt : (k a b : ℕ) → a < 2 ^ k → b < 2 ^ k → bit_or a b < 2 ^ k
bit_or-lt zero a b p q =
    let e : a ≡ 0 = omega arith in let e' : b ≡ 0 = omega arith in rw (e, e') (omega arith)
bit_or-lt (suc k) a b p q = omega (
  arith,
  or_digit a b,
  pow-succ' 2 k,
  bit_or-lt k (a / 2) (b / 2) (omega (arith, pow-succ' 2 k)) (omega (arith, pow-succ' 2 k)),
)

zero-bit_and : (b : ℕ) → bit_and 0 b ≡ 0
zero-bit_and b = bit_and-bitwise 0 b

-- A bitwise and is at most its first operand.
pub bit_and-le : (n a b : ℕ) → a ≤ n → bit_and a b ≤ a
bit_and-le zero a b p = let e : a ≡ 0 = omega arith in rw (e, zero-bit_and b) (omega arith)
bit_and-le (suc n) zero b p = rw (zero-bit_and b) (omega arith)
bit_and-le (suc n) (suc a) b p =
    omega (arith, and_digit (suc a) b, bit_and-le n (suc a / 2) (b / 2) (omega arith))

-- The digits of a power of two.
pow_at : (k j : ℕ) → 2 ^ k / 2 ^ j % 2 ≡ (if k == j then 1 else 0)
pow_at zero zero = refl
pow_at zero (suc j) = rw (div-pow-suc 1 j) (ground (arith, zero-div (2 ^ j)))
pow_at (suc k) zero = ground (arith, pow-succ' 2 k)
pow_at (suc k) (suc j) =
    let half : 2 ^ suc k / 2 ≡ 2 ^ k = omega (arith, pow-succ' 2 k) in
    rw (div-pow-suc (2 ^ suc k) j, half) (ground (arith, pow_at k j))

-- The digits of the complement in `n` bits.
complement_at : (n x j : ℕ) → x < 2 ^ n → j < n → (2 ^ n - 1 - x) / 2 ^ j % 2 ≡ 1 - x / 2 ^ j % 2
complement_at zero x j p q = absurd (omega arith)
complement_at (suc n) x zero p q = omega (arith, pow-succ' 2 n)
complement_at (suc n) x (suc j) p q =
    let half : (2 ^ suc n - 1 - x) / 2 ≡ 2 ^ n - 1 - x / 2 = omega (arith, pow-succ' 2 n) in
    rw (div-pow-suc (2 ^ suc n - 1 - x) j, div-pow-suc x j, half)
      (complement_at n (x / 2) j (omega (arith, pow-succ' 2 n)) (omega arith))

pub two_pow_lt : (k n : ℕ) → k < n → 2 ^ k < 2 ^ n
two_pow_lt k n h =
    omega
      (arith, pow-le-pow_right {n = 2} (omega arith) h, pow-succ' 2 k, one-le-pow k 2 (omega arith))

pub set_bit-lt : (v k n : ℕ) → v < 2 ^ n → k < n → set_bit v k < 2 ^ n
unfolding set_bit
set_bit-lt v k n p q = bit_or-lt n v (2 ^ k) p (two_pow_lt k n q)

pub has_bit-set_bit : (v k j : ℕ) → has_bit (set_bit v k) j ≡ (has_bit v j || (k == j))
unfolding set_bit
has_bit-set_bit v k j = ground (arith, has_bit-bit_or v (2 ^ k) j, pow_at k j)

pub has_bit-clear_bit :
    (v k j : ℕ) → k < 32 → j < 32 → has_bit (clear_bit v k) j ≡ (has_bit v j && not (k == j))
unfolding clear_bit
has_bit-clear_bit v k j p q = ground (
  arith,
  has_bit-bit_and v (2 ^ 32 - 1 - 2 ^ k) j,
  pow_at k j,
  complement_at 32 (2 ^ k) j (two_pow_lt k 32 p) q,
)
