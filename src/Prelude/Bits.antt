-- ===== src/Prelude/Bits.antt =====
-- Single bits of a number, and what `|` with a power of two does to them.
use Prim.Native.Nat.{
  ℕ, zero, suc, ◌+◌, ◌-◌, ◌*◌, ◌/◌, ◌%◌, ◌^◌, ◌≤◌, ◌<◌, min, max, bit_and, bit_or,
}
use Prim.Native.Nat.{digits, bit_and-bitwise, bit_or-bitwise}
use mathlib.Core.Path.{◌≡◌, refl, sym, ap, ◌∙◌}
use native.Mathlib.Omega.{arith}
use native.Mathlib.Nat.{mul_assoc, one-le-pow, pow-suc, div-div-eq-div-mul, mod-add-div'}
use piggy_engine.Prelude.Tests.{◌==◌, if◌then◌else◌}

-- bit `k` of `x`
abbrev pub bit : ℕ → ℕ → ℕ
bit x k = x / 2 ^ k % 2

-- The library's recursion on digits does not depend on its count, once that is large enough.
module _ (z : ℕ → ℕ) (f : ℕ → ℕ → ℕ) where
  enough : (n m a b : ℕ) → a ≤ n → a ≤ m → digits z f n a b ≡ digits z f m a b
  enough zero zero a b p q = refl
  enough (suc n) zero zero b p q = refl
  enough (suc n) zero (suc a) b p q = absurd (omega arith)
  enough zero (suc m) zero b p q = refl
  enough zero (suc m) (suc a) b p q = absurd (omega arith)
  enough (suc n) (suc m) zero b p q = refl
  enough (suc n) (suc m) (suc a) b p q =
      ap (λ (t : ℕ). t * 2 + f (suc a % 2) (b % 2))
        (enough n m (suc a / 2) (b / 2) (omega arith) (omega arith))

-- the lowest digit of `|` and of `&`
or_digit : (a b : ℕ) → bit_or a b ≡ bit_or (a / 2) (b / 2) * 2 + max (a % 2) (b % 2)
or_digit zero b = simp bit_or-bitwise (omega arith)
or_digit (suc a) b = simp bit_or-bitwise (
    omega
      (arith, enough (λ y. y) max a (suc a / 2) (suc a / 2) (b / 2) (omega arith) (omega arith)))

and_digit : (a b : ℕ) → bit_and a b ≡ bit_and (a / 2) (b / 2) * 2 + min (a % 2) (b % 2)
and_digit zero b = simp bit_and-bitwise (omega arith)
and_digit (suc a) b = simp bit_and-bitwise (
    omega
      (arith, enough (λ y. 0) min a (suc a / 2) (suc a / 2) (b / 2) (omega arith) (omega arith)))

or_zero_upto : (n a : ℕ) → a ≤ n → bit_or a 0 ≡ a
or_zero_upto n zero h = refl
or_zero_upto zero (suc a) h = absurd (omega arith)
or_zero_upto (suc n) (suc a) h =
    omega (arith, or_digit (suc a) 0, or_zero_upto n (suc a / 2) (omega arith))

and_zero_upto : (n a : ℕ) → a ≤ n → bit_and a 0 ≡ 0
and_zero_upto n zero h = refl
and_zero_upto zero (suc a) h = absurd (omega arith)
and_zero_upto (suc n) (suc a) h =
    omega (arith, and_digit (suc a) 0, and_zero_upto n (suc a / 2) (omega arith))

pub bit_and-one : (a : ℕ) → bit_and a 1 ≡ a % 2
bit_and-one a = omega (arith, and_digit a 1, and_zero_upto (a / 2) (a / 2))

div_two_pow : (x k : ℕ) → x / 2 ^ suc k ≡ x / 2 / 2 ^ k
div_two_pow x k = rw (pow-suc, div-div-eq-div-mul) (ap (λ (t : ℕ). x / t) (omega arith))

or_one : (x : ℕ) → bit_or x 1 ≡ x / 2 * 2 + 1
or_one x = omega (arith, or_digit x 1, or_zero_upto (x / 2) (x / 2))

or_pow_suc : (k x : ℕ) → bit_or x (2 ^ suc k) ≡ bit_or (x / 2) (2 ^ k) * 2 + x % 2
or_pow_suc k x =
    let half : 2 ^ suc k / 2 ≡ 2 ^ k = omega (arith, pow-suc 2 k) in
    let even : 2 ^ suc k % 2 ≡ 0 = omega (arith, pow-suc 2 k) in
    or_digit x (2 ^ suc k) ∙ rw (half, even) (omega arith)

bit-suc : (x k : ℕ) → bit x (suc k) ≡ bit (x / 2) k
bit-suc x k = ap (λ (t : ℕ). t % 2) (div_two_pow x k)

-- `x | 1 << k` sets bit `k` and keeps the others.
pub bit-bit_or_pow : (k j x : ℕ) → bit (bit_or x (2 ^ k)) j ≡ (if k == j then 1 else bit x j)
bit-bit_or_pow zero zero x = ground (arith, or_one x)
bit-bit_or_pow zero (suc j) x =
    let half : bit_or x 1 / 2 ≡ x / 2 = omega (arith, or_one x) in
    bit-suc (bit_or x 1) j ∙ rw half (ground (arith, bit-suc x j))
bit-bit_or_pow (suc k) zero x = ground (arith, or_pow_suc k x)
bit-bit_or_pow (suc k) (suc j) x =
    let half : bit_or x (2 ^ suc k) / 2 ≡ bit_or (x / 2) (2 ^ k) = omega (arith, or_pow_suc k x) in
    bit-suc (bit_or x (2 ^ suc k)) j
    ∙ rw half (bit-bit_or_pow k j (x / 2) ∙ ground (arith, bit-suc x j))

-- Above the bits of `x`, `|` is a sum.
pub bit_or_pow_above : (k x : ℕ) → x < 2 ^ k → bit_or x (2 ^ k) ≡ x + 2 ^ k
bit_or_pow_above zero x h = ground (arith, or_digit x 1)
bit_or_pow_above (suc k) x h =
    ground (arith, or_digit x (2 ^ suc k), pow-suc 2 k, bit_or_pow_above k (x / 2))

-- One more bit of the remainder by a power of two.
pub mod_pow-suc : (x k : ℕ) → x % 2 ^ suc k ≡ x % 2 ^ k + bit x k * 2 ^ k
mod_pow-suc x k =
    let p = 2 ^ k in
    let q = x / 2 ^ k in
    let halves : x / 2 ^ suc k ≡ q / 2 = rw (pow-suc, div-div-eq-div-mul) in
    let digit : q ≡ q / 2 * 2 + q % 2 = omega arith in
    omega (
      arith,
      pow-suc 2 k,
      mod-add-div' x p,
      mod-add-div' x (2 ^ suc k),
      ap (λ (t : ℕ). t * 2 ^ suc k) halves,
      ap (λ (t : ℕ). q / 2 * t) (pow-suc 2 k),
      ap (λ (t : ℕ). t * p) digit,
    )

and_le_upto : (n a m : ℕ) → a ≤ n → bit_and a m ≤ m
and_le_upto n zero m h = simp bit_and-bitwise (omega arith)
and_le_upto zero (suc a) m h = absurd (omega arith)
and_le_upto (suc n) (suc a) m h =
    omega (arith, and_digit (suc a) m, and_le_upto n (suc a / 2) (m / 2) (omega arith))

-- A mask bounds what it lets through.
pub bit_and-le : (a m : ℕ) → bit_and a m ≤ m
bit_and-le a m = and_le_upto a a m (omega arith)

and_ones : (w x : ℕ) → x < 2 ^ w → bit_and x (2 ^ w - 1) ≡ x
and_ones zero x h = omega (arith, and_zero_upto x x)
and_ones (suc w) x h =
    let double = pow-suc 2 w in
    let one = one-le-pow w 2 in
    let half : (2 ^ suc w - 1) / 2 ≡ 2 ^ w - 1 = omega (arith, double, one) in
    let rest : bit_and (x / 2) ((2 ^ suc w - 1) / 2) ≡ x / 2 =
      ap (bit_and (x / 2)) half ∙ and_ones w (x / 2) (omega (arith, double)) in
    omega (arith, double, one, and_digit x (2 ^ suc w - 1), rest)

mul_shift : (q p : ℕ) → q * (p * 2) ≡ q * p * 2
mul_shift q p = sym (mul_assoc q p 2)

-- A mask of ones above `k` zeros rounds down to a multiple of `2 ^ k`.
pub bit_and_high :
    (k w x : ℕ) → x < 2 ^ (k + w) → bit_and x (2 ^ (k + w) - 2 ^ k) ≡ x / 2 ^ k * 2 ^ k
bit_and_high zero w x h =
    let e : 0 + w ≡ w = omega arith in rw e (and_ones w x (rw e at h) ∙ omega arith)
bit_and_high (suc k) w x h =
    let e : suc k + w ≡ suc (k + w) = omega arith in
    let small : x < 2 ^ suc (k + w) = rw e at h in
    let top = pow-suc 2 (k + w) in
    let low = pow-suc 2 k in
    let q = x / 2 / 2 ^ k in
    let mask = 2 ^ suc (k + w) - 2 ^ suc k in
    let half : mask / 2 ≡ 2 ^ (k + w) - 2 ^ k = omega (arith, top, low) in
    let even : mask % 2 ≡ 0 = omega (arith, top, low) in
    let rest : bit_and (x / 2) (mask / 2) ≡ q * 2 ^ k =
      ap (bit_and (x / 2)) half ∙ bit_and_high k w (x / 2) (omega (arith, top, small)) in
    let prod : q * 2 ^ suc k ≡ q * 2 ^ k * 2 = rw low (mul_shift q (2 ^ k)) in
    let whole : bit_and x mask ≡ q * 2 ^ suc k =
      omega (arith, and_digit x mask, rest, even, prod) in
    rw e (whole ∙ ap (λ (t : ℕ). t * 2 ^ suc k) (sym (div_two_pow x k)))
