-- ===== src/Base/Bits.antt =====
-- Exclusive or, and a single bit's test, at variables: the law of the lowest digit, cancellation, and truncation to `k` bits.
use Prim.Native.Nat.{
  ℕ, zero, suc, ◌+◌, ◌-◌, ◌*◌, ◌/◌, ◌%◌, ◌^◌, ◌≤◌, ◌<◌, bit_xor, digits, differ, bit_xor-bitwise,
  bit_and, bit_and-bitwise, bit_or, bit_or-bitwise, min, max,
}
use mathlib.Core.Path.{◌≡◌, refl, sym, ◌∙◌, ap, ap₂}
use native.Mathlib.Nat.{pow-suc, one-le-pow, mod-one, mod-lt, mod-eq_of_lt, mul_comm}
use native.Mathlib.Omega.{arith}

-- Counts of digits to go that are at least the first number give the same digits.
module _ (z : ℕ → ℕ) (f : ℕ → ℕ → ℕ) where
  digits-none : (n b : ℕ) → digits z f n zero b ≡ z b
  digits-none zero b = refl
  digits-none (suc n) b = refl

  digits_enough : (n m a b : ℕ) → a ≤ n → a ≤ m → digits z f n a b ≡ digits z f m a b
  digits_enough n m zero b p q = digits-none n b ∙ sym (digits-none m b)
  digits_enough zero m (suc a) b p q = absurd (omega arith)
  digits_enough (suc n) zero (suc a) b p q = absurd (omega arith)
  digits_enough (suc n) (suc m) (suc a) b p q =
      let halved = digits_enough n m (suc a / 2) (b / 2) (omega arith) (omega arith) in
      ap (λ (r : ℕ). r * 2 + f (suc a % 2) (b % 2)) halved

differ_lem : (x y : ℕ) → x < 2 → y < 2 → differ x y ≡ (x + y) % 2
differ_lem zero y p q = omega arith
differ_lem (suc zero) zero p q = refl
differ_lem (suc zero) (suc zero) p q = refl
differ_lem (suc zero) (suc (suc y)) p q = absurd (omega arith)
differ_lem (suc (suc x)) y p q = absurd (omega arith)

pub zero-bit_xor : (b : ℕ) → bit_xor 0 b ≡ b
zero-bit_xor b = bit_xor-bitwise 0 b

pub bit_xor_step : (a b : ℕ) → bit_xor a b ≡ bit_xor (a / 2) (b / 2) * 2 + (a + b) % 2
bit_xor_step zero b = omega (arith, zero-bit_xor b, zero-bit_xor (b / 2))
bit_xor_step (suc a) b = omega (
  arith,
  bit_xor-bitwise (suc a) b,
  bit_xor-bitwise (suc a / 2) (b / 2),
  differ_lem (suc a % 2) (b % 2) (omega arith) (omega arith),
  digits_enough (λ y. y) differ a (suc a / 2) (suc a / 2) (b / 2) (omega arith) (omega arith),
)

cancel_fuel : (n a b : ℕ) → a ≤ n → b ≤ n → bit_xor (bit_xor a b) b ≡ a
cancel_fuel zero zero zero p q = refl
cancel_fuel zero zero (suc b) p q = absurd (omega arith)
cancel_fuel zero (suc a) b p q = absurd (omega arith)
cancel_fuel (suc n) a b p q =
    let s = bit_xor_step a b in
    let half : bit_xor a b / 2 ≡ bit_xor (a / 2) (b / 2) = omega (arith, s) in
    bit_xor_step (bit_xor a b) b
    ∙ rw half (omega (arith, s, cancel_fuel n (a / 2) (b / 2) (omega arith) (omega arith)))

-- Masking twice with one key gives the value back.
pub bit_xor_cancel : (a b : ℕ) → bit_xor (bit_xor a b) b ≡ a
bit_xor_cancel a b = cancel_fuel (a + b) a b (omega arith) (omega arith)

mod-double : (x m : ℕ) → 0 < m → x % (2 * m) ≡ 2 * (x / 2 % m) + x % 2
mod-double x m h = grind arith

double_right : (x m : ℕ) → 0 < m → x % (m * 2) ≡ 2 * (x / 2 % m) + x % 2
double_right x m h = rw (mul_comm m 2) (mod-double x m h)

half_xor : (a b : ℕ) → bit_xor a b / 2 ≡ bit_xor (a / 2) (b / 2)
half_xor a b = omega (arith, bit_xor_step a b)

-- Truncation to `k` bits may be done before or after.
pub bit_xor-mod : (k a b : ℕ) → bit_xor a b % 2 ^ k ≡ bit_xor (a % 2 ^ k) (b % 2 ^ k)
bit_xor-mod zero a b = mod-one (bit_xor a b) ∙ ap₂ bit_xor (sym (mod-one a)) (sym (mod-one b))
bit_xor-mod (suc k) a b =
    let pos : 0 < 2 ^ k = one-le-pow k 2 (omega arith) in
    let double : (x : ℕ) → x % 2 ^ suc k ≡ 2 * (x / 2 % 2 ^ k) + x % 2 =
      λ x. rw (pow-suc 2 k) (double_right x (2 ^ k) pos) in
    let half : (x : ℕ) → x % 2 ^ suc k / 2 ≡ x / 2 % 2 ^ k = λ x. omega (arith, double x) in
    double (bit_xor a b)
    ∙ omega (
      arith,
      bit_xor_step a b,
      bit_xor_step (a % 2 ^ suc k) (b % 2 ^ suc k),
      bit_xor-mod k (a / 2) (b / 2),
      ap (λ (x : ℕ). x % 2 ^ k) (half_xor a b),
      ap₂ bit_xor (half a) (half b),
      double a,
      double b,
    )

pub bit_xor-lt : (k a b : ℕ) → a < 2 ^ k → b < 2 ^ k → bit_xor a b < 2 ^ k
bit_xor-lt k a b p q =
    let e : bit_xor a b % 2 ^ k ≡ bit_xor a b =
      bit_xor-mod k a b ∙ ap₂ bit_xor (mod-eq_of_lt p) (mod-eq_of_lt q) in
    rw (← e) (mod-lt (bit_xor a b) (one-le-pow k 2 (omega arith)))

zero-bit_and : (b : ℕ) → bit_and 0 b ≡ 0
zero-bit_and b = bit_and-bitwise 0 b

pub bit_and_low : (a b : ℕ) → bit_and a b ≡ bit_and (a / 2) (b / 2) * 2 + min (a % 2) (b % 2)
bit_and_low zero b = omega (arith, zero-bit_and b, zero-bit_and (b / 2))
bit_and_low (suc a) b =
    let half = suc a / 2 in
    let count = digits_enough (λ y. 0) min a half half (b / 2) (omega arith) (omega arith) in
    omega (arith, bit_and-bitwise (suc a) b, bit_and-bitwise half (b / 2), count)

-- A bit above the number is not set.
pub bit_and-two-pow : (k n : ℕ) → n < 2 ^ k → bit_and n (2 ^ k) ≡ 0
bit_and-two-pow zero n h = let e : n ≡ 0 = omega arith in rw (e, zero-bit_and) refl
bit_and-two-pow (suc k) n h =
    let e = pow-suc 2 k in
    let half : 2 ^ suc k / 2 ≡ 2 ^ k = omega (arith, e) in
    omega (
      arith,
      e,
      bit_and_low n (2 ^ suc k),
      ap (λ (x : ℕ). bit_and (n / 2) x) half,
      bit_and-two-pow k (n / 2) (omega (arith, e)),
    )

bit_and_nothing : (n a : ℕ) → a ≤ n → bit_and a 0 ≡ 0
bit_and_nothing n zero h = zero-bit_and 0
bit_and_nothing zero (suc a) h = absurd (omega arith)
bit_and_nothing (suc n) (suc a) h =
    omega (arith, bit_and_low (suc a) 0, bit_and_nothing n (suc a / 2) (omega arith))

double_pow : (k a : ℕ) → 0 < 2 ^ k → a % 2 ^ suc k ≡ 2 * (a / 2 % 2 ^ k) + a % 2
double_pow k a pos = rw (pow-suc 2 k) (double_right a (2 ^ k) pos)

-- A mask of `k` ones is the remainder by `2 ^ k`.
pub bit_and-ones : (k a : ℕ) → bit_and a (2 ^ k - 1) ≡ a % 2 ^ k
bit_and-ones zero a = bit_and_nothing a a (omega arith) ∙ sym (mod-one a)
bit_and-ones (suc k) a =
    let e = pow-suc 2 k in
    let pos : 0 < 2 ^ k = one-le-pow k 2 (omega arith) in
    let half : (2 ^ suc k - 1) / 2 ≡ 2 ^ k - 1 = omega (arith, e) in
    bit_and_low a (2 ^ suc k - 1)
    ∙ rw half (omega (arith, e, bit_and-ones k (a / 2), double_pow k a pos))

zero-bit_or : (b : ℕ) → bit_or 0 b ≡ b
zero-bit_or b = bit_or-bitwise 0 b

pub bit_or_low : (a b : ℕ) → bit_or a b ≡ bit_or (a / 2) (b / 2) * 2 + max (a % 2) (b % 2)
bit_or_low zero b = omega (arith, zero-bit_or b, zero-bit_or (b / 2))
bit_or_low (suc a) b =
    let half = suc a / 2 in
    let count = digits_enough (λ y. y) max a half half (b / 2) (omega arith) (omega arith) in
    omega (arith, bit_or-bitwise (suc a) b, bit_or-bitwise half (b / 2), count)

pub bit_or-lt : (k a b : ℕ) → a < 2 ^ k → b < 2 ^ k → bit_or a b < 2 ^ k
bit_or-lt zero a b p q = let e : a ≡ 0 = omega arith in rw (e, zero-bit_or) q
bit_or-lt (suc k) a b p q =
    let e = pow-suc 2 k in
    omega
      (arith, e, bit_or_low a b, bit_or-lt k (a / 2) (b / 2) (omega (arith, e)) (omega (arith, e)))
