-- ===== src/Base/Digits.antt =====
-- `bit_or` and the low digits of its arguments: what is or-ed below a multiple of a power of two stays there.
use Prim.Native.Nat.{
  ℕ, zero, suc, ◌+◌, ◌*◌, ◌/◌, ◌%◌, ◌^◌, ◌≤◌, ◌<◌, max, bit_or, digits, bit_or-bitwise,
}
use mathlib.Core.Path.{◌≡◌, refl, ap, ◌∙◌}
use native.Mathlib.Omega.{arith}

abbrev or_digits : ℕ → ℕ → ℕ → ℕ
or_digits n a b = digits (λ c. c) max n a b

-- More digits than the first number has change nothing.
or_digits-enough : (n m a b : ℕ) → a ≤ n → a ≤ m → or_digits n a b ≡ or_digits m a b
or_digits-enough zero zero a b p q = refl
or_digits-enough zero (suc m) zero b p q = refl
or_digits-enough zero (suc m) (suc a) b p q = absurd (omega arith)
or_digits-enough (suc n) zero zero b p q = refl
or_digits-enough (suc n) zero (suc a) b p q = absurd (omega arith)
or_digits-enough (suc n) (suc m) zero b p q = refl
or_digits-enough (suc n) (suc m) (suc a) b p q =
    omega (arith, or_digits-enough n m (suc a / 2) (b / 2) (omega arith) (omega arith))

-- The lowest digit of `bit_or`.
pub bit_or_lem : (a b : ℕ) → bit_or a b ≡ bit_or (a / 2) (b / 2) * 2 + max (a % 2) (b % 2)
bit_or_lem zero b = omega (arith, bit_or-bitwise 0 b, bit_or-bitwise 0 (b / 2))
bit_or_lem (suc a) b = omega (
  arith,
  bit_or-bitwise (suc a) b,
  bit_or-bitwise (suc a / 2) (b / 2),
  or_digits-enough a (suc a / 2) (suc a / 2) (b / 2) (omega arith) (omega arith),
)

bit_or-zero_enough : (n a : ℕ) → a ≤ n → bit_or a 0 ≡ a
bit_or-zero_enough n zero h = refl
bit_or-zero_enough zero (suc a) h = absurd (omega arith)
bit_or-zero_enough (suc n) (suc a) h =
    omega (arith, bit_or_lem (suc a) 0, bit_or-zero_enough n (suc a / 2) (omega arith))

pub bit_or-zero : (a : ℕ) → bit_or a 0 ≡ a
bit_or-zero a = bit_or-zero_enough a a (omega arith)

or_above_step :
    (q a b : ℕ)
    → bit_or (q + a / 2) (b / 2) ≡ q + bit_or (a / 2) (b / 2)
    → bit_or (q * 2 + a) b ≡ q * 2 + bit_or a b
or_above_step q a b h =
    let half : (q * 2 + a) / 2 ≡ q + a / 2 = omega arith in
    let low : (q * 2 + a) % 2 ≡ a % 2 = omega arith in
    let whole : bit_or (q * 2 + a) b ≡ bit_or (q + a / 2) (b / 2) * 2 + max (a % 2) (b % 2) =
      bit_or_lem (q * 2 + a) b
      ∙ (ap (λ t. bit_or t (b / 2) * 2 + max ((q * 2 + a) % 2) (b % 2)) half
          ∙ ap (λ t. bit_or (q + a / 2) (b / 2) * 2 + max t (b % 2)) low) in
    omega (arith, whole, bit_or_lem a b)

mul_double : (x p : ℕ) → x * (p * 2) ≡ x * p * 2
mul_double x p = grind arith

max_digits : (a b : ℕ) → max (a % 2) (b % 2) < 2
max_digits a b = ground arith

-- The digits of `b`, fewer than `k`, change only the low `k` digits of the other number.
pub bit_or-above :
    (k x a b : ℕ)
    → a < 2 ^ k
    → b < 2 ^ k
    → (bit_or (x * 2 ^ k + a) b ≡ x * 2 ^ k + bit_or a b) × (bit_or a b < 2 ^ k)
bit_or-above zero x zero zero ha hb = (omega (arith, bit_or-zero (x * 1 + 0)), omega arith)
bit_or-above zero x zero (suc b) ha hb = absurd (omega arith)
bit_or-above zero x (suc a) b ha hb = absurd (omega arith)
bit_or-above (suc k) x a b ha hb =
    let (above, low) = bit_or-above k x (a / 2) (b / 2) (omega arith) (omega arith) in
    let power : 2 ^ suc k ≡ 2 ^ k * 2 = omega arith in
    let assoc : x * 2 ^ suc k ≡ x * 2 ^ k * 2 = ap (λ t. x * t) power ∙ mul_double x (2 ^ k) in
    (rw assoc (or_above_step (x * 2 ^ k) a b above), omega (arith, bit_or_lem a b, max_digits a b))
