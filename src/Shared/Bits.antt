-- ===== src/Shared/Bits.antt =====
-- `x & (2^k - 1)` and `x | (2^k - 1)` for every width `k`, from the digit recursion that the native
-- operations stand for.
use Prim.Native.Nat.{
  ℕ, zero, suc, ◌+◌, ◌-◌, ◌*◌, ◌/◌, ◌%◌, ◌^◌, ◌≤◌, ◌<◌, min, max, bit_and, bit_or, digits,
  bit_and-bitwise, bit_or-bitwise,
}
use mathlib.Core.Path.{◌≡◌, refl, ap, ◌∙◌, sym}
use native.Mathlib.Nat.{div-add-mod, div-div-eq-div-mul, pow-suc, mul_comm}
use native.Mathlib.Omega.{arith}

-- An operation on two digits, and what is left when the first number has run out.
module _ (z : ℕ → ℕ) (f : ℕ → ℕ → ℕ) where
  -- More digits to go than the number has change nothing.
  enough_digits : (bound n a b : ℕ) → n ≤ bound → a ≤ n → digits z f n a b ≡ digits z f a a b
  enough_digits bound zero zero b _ _ = refl
  enough_digits bound zero (suc a) b _ le = elim le [ ]
  enough_digits bound (suc n) zero b _ _ = refl
  enough_digits zero (suc n) (suc a) b in_bound _ = elim in_bound [ ]
  enough_digits (suc bound) (suc n) (suc a) b in_bound le =
      let q = suc a / 2 in
      ap (λ k. k * 2 + f (suc a % 2) (b % 2))
        (enough_digits bound n q (b / 2) (omega arith) (omega arith)
          ∙ sym (enough_digits bound a q (b / 2) (omega arith) (omega arith)))

  lowest_digit :
      (a b : ℕ)
      → digits z f (suc a) (suc a) b
        ≡ digits z f (suc a / 2) (suc a / 2) (b / 2) * 2 + f (suc a % 2) (b % 2)
  lowest_digit a b =
      ap (λ k. k * 2 + f (suc a % 2) (b % 2))
        (enough_digits a a (suc a / 2) (b / 2) (omega arith) (omega arith))

-- The law for the lowest digit; a number that has run out is read as zeros.
and_lowest : (a b : ℕ) → bit_and a b ≡ bit_and (a / 2) (b / 2) * 2 + min (a % 2) (b % 2)
and_lowest zero b = omega (arith, bit_and-bitwise 0 b, bit_and-bitwise 0 (b / 2))
and_lowest (suc a) b =
    bit_and-bitwise (suc a) b
    ∙ lowest_digit (λ _. zero) min a b
    ∙ ap (λ k. k * 2 + min (suc a % 2) (b % 2)) (sym (bit_and-bitwise (suc a / 2) (b / 2)))

or_lowest : (a b : ℕ) → bit_or a b ≡ bit_or (a / 2) (b / 2) * 2 + max (a % 2) (b % 2)
or_lowest zero b = omega (arith, bit_or-bitwise 0 b, bit_or-bitwise 0 (b / 2))
or_lowest (suc a) b =
    bit_or-bitwise (suc a) b
    ∙ lowest_digit (λ b. b) max a b
    ∙ ap (λ k. k * 2 + max (suc a % 2) (b % 2)) (sym (bit_or-bitwise (suc a / 2) (b / 2)))

and_zero : (bound a : ℕ) → a ≤ bound → bit_and a 0 ≡ 0
and_zero bound zero _ = refl
and_zero zero (suc a) le = elim le [ ]
and_zero (suc bound) (suc a) le =
    omega (arith, and_lowest (suc a) 0, and_zero bound (suc a / 2) (omega arith))

or_zero : (bound a : ℕ) → a ≤ bound → bit_or a 0 ≡ a
or_zero bound zero _ = refl
or_zero zero (suc a) le = elim le [ ]
or_zero (suc bound) (suc a) le =
    omega (arith, or_lowest (suc a) 0, or_zero bound (suc a / 2) (omega arith))

pub two_pow_pos : (k : ℕ) → 0 < 2 ^ k
two_pow_pos zero = omega arith
two_pow_pos (suc k) = omega (arith, two_pow_pos k, pow-suc 2 k)

div_double : (a p : ℕ) → a / (p * 2) ≡ a / 2 / p
div_double a p = rw (div-div-eq-div-mul, mul_comm p 2)

mod_double : (a p : ℕ) → 0 < p → a % (p * 2) ≡ a / 2 % p * 2 + a % 2
mod_double a p h =
    omega
      (arith, div-add-mod a (p * 2), div-add-mod (a / 2) p, ap (λ t. p * 2 * t) (div_double a p))

-- The mask of `suc k` ones, without its lowest.
half_ones : (k : ℕ) → (2 ^ suc k - 1) / 2 ≡ 2 ^ k - 1
half_ones k = omega (arith, pow-suc 2 k, two_pow_pos k)

pub bit_and_ones : (k a : ℕ) → bit_and a (2 ^ k - 1) ≡ a % 2 ^ k
bit_and_ones zero a = omega (arith, and_zero a a (omega arith))
bit_and_ones (suc k) a = omega (
  arith,
  pow-suc 2 k,
  two_pow_pos k,
  and_lowest a (2 ^ suc k - 1),
  ap (λ n. bit_and (a / 2) n) (half_ones k),
  bit_and_ones k (a / 2),
  mod_double a (2 ^ k) (two_pow_pos k),
  ap (λ n. a % n) (pow-suc 2 k),
)

pub bit_or_ones : (k a : ℕ) → bit_or a (2 ^ k - 1) ≡ a / 2 ^ k * 2 ^ k + (2 ^ k - 1)
bit_or_ones zero a = omega (arith, or_zero a a (omega arith))
bit_or_ones (suc k) a = omega (
  arith,
  pow-suc 2 k,
  two_pow_pos k,
  or_lowest a (2 ^ suc k - 1),
  ap (λ n. bit_or (a / 2) n) (half_ones k),
  bit_or_ones k (a / 2),
  ap (λ n. a / n * n) (pow-suc 2 k),
  ap (λ n. n * (2 ^ k * 2)) (div_double a (2 ^ k)),
)

-- Digits of their own do not meet.
pub bit_or_low : (k a b : ℕ) → b < 2 ^ k → bit_or (a * 2 ^ k) b ≡ a * 2 ^ k + b
bit_or_low zero a b h =
    let z : b ≡ 0 = omega arith in
    rw z (or_zero (a * 2 ^ 0) (a * 2 ^ 0) (omega arith) ∙ omega arith)
bit_or_low (suc k) a b h =
    let half : a * 2 ^ suc k / 2 ≡ a * 2 ^ k = omega (arith, double) in
    let even : a * 2 ^ suc k % 2 ≡ 0 = omega (arith, double) in
    omega (
      arith,
      pow-suc 2 k,
      double,
      or_lowest (a * 2 ^ suc k) b,
      ap (λ n. bit_or n (b / 2)) half,
      even,
      bit_or_low k a (b / 2) (omega (arith, pow-suc 2 k)),
    )
  where
    double : a * 2 ^ suc k ≡ a * 2 ^ k * 2
    double = rw (pow-suc 2 k) (omega arith)
