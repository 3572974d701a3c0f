-- ===== src/Kernel/Pmm/Bitmap.antt =====
-- The bitmap of kernel/mem.c as a set of pages.
use mira_os.Base.{
  ℕ, zero, suc, ◌+◌, ◌-◌, ◌*◌, ◌/◌, ◌%◌, ◌^◌, ◌<◌, ◌≡◌, true, false, ◌==◌, ltb, if◌then◌else◌, ◌&&◌,
  arith, has_bit-set_bit, has_bit-clear_bit, byte_of_bits,
}
use mira_os.Common.Memory.{Memory, poke}
use mira_os.Common.Memory.Copy.{within}
use mira_os.Kernel.Pmm.{bitmap_set, bitmap_clear, bitmap_test, set_pages, reserve_region}

abbrev pub IsBytes : Memory → Type 0
IsBytes bm = (i : ℕ) → bm i < 256

pub bitmap_set-IsBytes : (bm : Memory) (p : ℕ) → IsBytes bm → IsBytes (bitmap_set bm p)
unfolding bitmap_set poke
bitmap_set-IsBytes bm p h i =
    ground (arith, h i, (byte_of_bits (bm (p / 8)) (p % 8) (h (p / 8)) (omega arith)).0)

pub bitmap_clear-IsBytes : (bm : Memory) (p : ℕ) → IsBytes bm → IsBytes (bitmap_clear bm p)
unfolding bitmap_clear poke
bitmap_clear-IsBytes bm p h i =
    ground (arith, h i, (byte_of_bits (bm (p / 8)) (p % 8) (h (p / 8)) (omega arith)).1)

-- Setting the bit of a page marks this page and no other.
pub bitmap_test-set :
    (bm : Memory) (p q : ℕ)
    → IsBytes bm
    → bitmap_test (bitmap_set bm p) q ≡ (if p == q then true else bitmap_test bm q)
unfolding bitmap_test bitmap_set poke
bitmap_test-set bm p q h =
    ground
      (arith, has_bit-set_bit (bm (p / 8)) (p % 8) (h (p / 8)) (omega arith) (q % 8) (omega arith))

-- Clearing the bit of a page frees this page and no other.
pub bitmap_test-clear :
    (bm : Memory) (p q : ℕ)
    → IsBytes bm
    → bitmap_test (bitmap_clear bm p) q ≡ (if p == q then false else bitmap_test bm q)
unfolding bitmap_test bitmap_clear poke
bitmap_test-clear bm p q h =
    ground (
      arith,
      has_bit-clear_bit (bm (p / 8)) (p % 8) (h (p / 8)) (omega arith) (q % 8) (omega arith),
    )

set_pages_lem :
    (n p : ℕ) (bm : Memory) (q : ℕ)
    → IsBytes bm
    → bitmap_test (set_pages n p bm) q ≡ (if within p n q then true else bitmap_test bm q)
unfolding set_pages
set_pages_lem zero p bm q h = ground arith
set_pages_lem (suc n) p bm q h = ground (
  arith,
  set_pages_lem n (p + 1) (bitmap_set bm p) q (bitmap_set-IsBytes bm p h),
  bitmap_test-set bm p q h,
)

-- `reserve_region` marks every page that the region touches, even in part, and no other, unless the
-- region's end lies within 4095 bytes of 2 ^ 64.
reserve_region_lem :
    (base length : ℕ) (bm : Memory) (q : ℕ)
    → IsBytes bm
    → base + length + 4095 < 2 ^ 64
    → bitmap_test (reserve_region base length bm) q ≡ (
        if ltb (q * 4096) (base + length) && ltb base (q * 4096 + 4096)
        then true
        else bitmap_test bm q)
unfolding reserve_region
reserve_region_lem base length bm q h small =
    ground (arith, set_pages_lem ((base + length + 4095) / 4096 - base / 4096) (base / 4096) bm q h)
