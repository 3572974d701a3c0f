-- ===== src/Base/Bits.antt =====
-- Single bits of a byte: what setting and clearing one does to each, checked for every byte.
use Prim.Native.Nat.{ℕ, zero, suc, ◌-◌, ◌^◌, ◌<◌, bit_and, bit_or}
use mathlib.Core.Path.{◌≡◌, refl}
use mathlib.Core.Bool.{Bool, true, false, ◌&&◌, not}
use native.Mathlib.Omega.{arith}
use mira_os.Base.Tests.{◌==◌, ltb, if◌then◌else◌}

abbrev same_bool : Bool → Bool → Bool
same_bool true b = b
same_bool false b = not b

same_bool-eq : (a b : Bool) → same_bool a b ≡ true → a ≡ b
same_bool-eq true b h = ground arith
same_bool-eq false b h = ground arith

unfoldable pub all_below : ℕ → (ℕ → Bool) → Bool
all_below zero p = true
all_below (suc n) p = p n && all_below n p

pub all_below_lem : (n : ℕ) (p : ℕ → Bool) (x : ℕ) → all_below n p ≡ true → x < n → p x ≡ true
unfolding all_below
all_below_lem zero p x h lt = absurd (omega arith)
all_below_lem (suc n) p x h lt = ground (arith, all_below_lem n p x)

-- `b & (1 << k)`, as a truth value
unfoldable pub has_bit : ℕ → ℕ → Bool
has_bit b k = not (bit_and b (2 ^ k) == 0)

-- `(uint8_t)(b | (1 << k))` for a byte `b` and `k < 8`
unfoldable pub set_bit : ℕ → ℕ → ℕ
set_bit b k = bit_or b (2 ^ k)

-- `(uint8_t)(b & ~(1 << k))` for a byte `b` and `k < 8`
unfoldable pub clear_bit : ℕ → ℕ → ℕ
clear_bit b k = bit_and b (255 - 2 ^ k)

set_table : ℕ → ℕ → ℕ → Bool
set_table b k j = same_bool (has_bit (set_bit b k) j) (if k == j then true else has_bit b j)

clear_table : ℕ → ℕ → ℕ → Bool
clear_table b k j = same_bool (has_bit (clear_bit b k) j) (if k == j then false else has_bit b j)

bytes_table : ℕ → ℕ → Bool
bytes_table b k = ltb (set_bit b k) 256 && ltb (clear_bit b k) 256

set_table-all : all_below 256 (λ b. all_below 8 λ k. all_below 8 (set_table b k)) ≡ true
unfolding all_below set_table has_bit set_bit
set_table-all = refl

clear_table-all : all_below 256 (λ b. all_below 8 λ k. all_below 8 (clear_table b k)) ≡ true
unfolding all_below clear_table has_bit clear_bit
clear_table-all = refl

bytes_table-all : all_below 256 (λ b. all_below 8 (bytes_table b)) ≡ true
unfolding all_below bytes_table set_bit clear_bit
bytes_table-all = refl

module _ (b k : ℕ) (hb : b < 256) (hk : k < 8) where
  pub has_bit-set_bit :
      (j : ℕ) → j < 8 → has_bit (set_bit b k) j ≡ (if k == j then true else has_bit b j)
  unfolding set_table
  has_bit-set_bit j hj =
      let row = all_below_lem 256 _ b set_table-all hb in
      same_bool-eq _ _ (all_below_lem 8 _ j (all_below_lem 8 _ k row hk) hj)

  pub has_bit-clear_bit :
      (j : ℕ) → j < 8 → has_bit (clear_bit b k) j ≡ (if k == j then false else has_bit b j)
  unfolding clear_table
  has_bit-clear_bit j hj =
      let row = all_below_lem 256 _ b clear_table-all hb in
      same_bool-eq _ _ (all_below_lem 8 _ j (all_below_lem 8 _ k row hk) hj)

  pub byte_of_bits : (set_bit b k < 256) × (clear_bit b k < 256)
  unfolding bytes_table
  byte_of_bits =
      let row = all_below_lem 8 _ k (all_below_lem 256 _ b bytes_table-all hb) hk in
      (ground arith, ground arith)
