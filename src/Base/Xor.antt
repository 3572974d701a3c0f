-- ===== src/Base/Xor.antt =====
-- `bit_xor` undoes itself and keeps to the digits of its arguments.
use Prim.Native.Nat.{
  ℕ, zero, suc, ◌+◌, ◌*◌, ◌/◌, ◌%◌, ◌^◌, ◌≤◌, ◌<◌, differ, bit_xor, digits, bit_xor-bitwise,
}
use mathlib.Core.Path.{◌≡◌, refl, ap, ◌∙◌}
use mathlib.Core.Logic.{◌⊎◌, inl, inr}
use native.Mathlib.Omega.{arith}

abbrev xor_digits : ℕ → ℕ → ℕ → ℕ
xor_digits n a b = digits (λ c. c) differ n a b

xor_digits-enough : (n m a b : ℕ) → a ≤ n → a ≤ m → xor_digits n a b ≡ xor_digits m a b
xor_digits-enough zero zero a b p q = refl
xor_digits-enough zero (suc m) zero b p q = refl
xor_digits-enough zero (suc m) (suc a) b p q = absurd (omega arith)
xor_digits-enough (suc n) zero zero b p q = refl
xor_digits-enough (suc n) zero (suc a) b p q = absurd (omega arith)
xor_digits-enough (suc n) (suc m) zero b p q = refl
xor_digits-enough (suc n) (suc m) (suc a) b p q =
    omega (arith, xor_digits-enough n m (suc a / 2) (b / 2) (omega arith) (omega arith))

-- The lowest digit of `bit_xor`.
pub bit_xor_lem : (a b : ℕ) → bit_xor a b ≡ bit_xor (a / 2) (b / 2) * 2 + differ (a % 2) (b % 2)
bit_xor_lem zero b = omega (arith, bit_xor-bitwise 0 b, bit_xor-bitwise 0 (b / 2))
bit_xor_lem (suc a) b = omega (
  arith,
  bit_xor-bitwise (suc a) b,
  bit_xor-bitwise (suc a / 2) (b / 2),
  xor_digits-enough a (suc a / 2) (suc a / 2) (b / 2) (omega arith) (omega arith),
)

binary : (x : ℕ) → (x % 2 ≡ 0) ⊎ (x % 2 ≡ 1)
binary x = ground arith

differ_binary : (a b : ℕ) → differ (a % 2) (b % 2) < 2
differ_binary a b = elim (binary a) [
  | inl p ↦ elim (binary b) [ inl q ↦ rw (p, q) (omega arith) | inr q ↦ rw (p, q) (omega arith) ]
  | inr p ↦ elim (binary b) [ inl q ↦ rw (p, q) (omega arith) | inr q ↦ rw (p, q) (omega arith) ]
]

differ_undo : (a b : ℕ) → differ (differ (a % 2) (b % 2)) (b % 2) ≡ a % 2
differ_undo a b = elim (binary a) [
  | inl p ↦ elim (binary b) [ inl q ↦ rw (p, q) refl | inr q ↦ rw (p, q) refl ]
  | inr p ↦ elim (binary b) [ inl q ↦ rw (p, q) refl | inr q ↦ rw (p, q) refl ]
]

differ_swap : (a b : ℕ) → differ (a % 2) (b % 2) ≡ differ (b % 2) (a % 2)
differ_swap a b = elim (binary a) [
  | inl p ↦ elim (binary b) [ inl q ↦ rw (p, q) refl | inr q ↦ rw (p, q) refl ]
  | inr p ↦ elim (binary b) [ inl q ↦ rw (p, q) refl | inr q ↦ rw (p, q) refl ]
]

pub bit_xor-bound : (k a b : ℕ) → a < 2 ^ k → b < 2 ^ k → bit_xor a b < 2 ^ k
bit_xor-bound zero zero zero ha hb = omega arith
bit_xor-bound zero zero (suc b) ha hb = absurd (omega arith)
bit_xor-bound zero (suc a) b ha hb = absurd (omega arith)
bit_xor-bound (suc k) a b ha hb = omega (
  arith,
  bit_xor_lem a b,
  differ_binary a b,
  bit_xor-bound k (a / 2) (b / 2) (omega arith) (omega arith),
)

pub bit_xor-undo : (k a b : ℕ) → a < 2 ^ k → b < 2 ^ k → bit_xor (bit_xor a b) b ≡ a
bit_xor-undo zero zero zero ha hb = refl
bit_xor-undo zero zero (suc b) ha hb = absurd (omega arith)
bit_xor-undo zero (suc a) b ha hb = absurd (omega arith)
bit_xor-undo (suc k) a b ha hb =
    let x = bit_xor a b in
    let low = differ_binary a b in
    let first = bit_xor_lem a b in
    let half : x / 2 ≡ bit_xor (a / 2) (b / 2) = omega (arith, first, low) in
    let digit : x % 2 ≡ differ (a % 2) (b % 2) = omega (arith, first, low) in
    let rest = bit_xor-undo k (a / 2) (b / 2) (omega arith) (omega arith) in
    let upper : bit_xor (x / 2) (b / 2) ≡ a / 2 = ap (λ t. bit_xor t (b / 2)) half ∙ rest in
    let last : differ (x % 2) (b % 2) ≡ a % 2 =
      ap (λ t. differ t (b % 2)) digit ∙ differ_undo a b in
    omega (arith, bit_xor_lem x b, upper, last)

pub bit_xor_comm : (k a b : ℕ) → a < 2 ^ k → b < 2 ^ k → bit_xor a b ≡ bit_xor b a
bit_xor_comm zero zero zero ha hb = refl
bit_xor_comm zero zero (suc b) ha hb = absurd (omega arith)
bit_xor_comm zero (suc a) b ha hb = absurd (omega arith)
bit_xor_comm (suc k) a b ha hb = omega (
  arith,
  bit_xor_lem a b,
  bit_xor_lem b a,
  differ_swap a b,
  bit_xor_comm k (a / 2) (b / 2) (omega arith) (omega arith),
)
