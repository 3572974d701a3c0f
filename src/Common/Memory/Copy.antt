-- ===== src/Common/Memory/Copy.antt =====
-- What the block operations of lib/common/mem.c leave at every address.
use mira_os.Base.{
  ℕ, zero, suc, ◌+◌, ◌-◌, ◌%◌, ◌≤◌, ◌<◌, ◌≡◌, ◌↔◌, ◌⊎◌, inl, inr, refl, Bool, ◌&&◌, leb, ltb,
  if◌then◌else◌, arith, pos,
}
use mira_os.Common.Memory.{
  Memory, poke, memset_loop, memset, copy_up, copy_down, memcpy, memmove, memcmp_loop, memcmp,
}

-- The address lies in the block of `n` bytes at `p`.
abbrev pub within : ℕ → ℕ → ℕ → Bool
within p n x = leb p x && ltb x (p + n)

memset_loop_lem :
    (n i dst v : ℕ) (m : Memory) (x : ℕ)
    → memset_loop n i dst v m x ≡ (if within (dst + i) n x then v else m x)
unfolding memset_loop poke
memset_loop_lem zero i dst v m x = ground arith
memset_loop_lem (suc n) i dst v m x =
    ground (arith, memset_loop_lem n (i + 1) dst v (poke m (dst + i) v) x)

-- `memset` writes the value's low byte in the block, and nothing outside it.
pub memset_lem :
    (dest val count : ℕ) (m : Memory) (x : ℕ)
    → memset dest val count m x ≡ (if within dest count x then val % 256 else m x)
unfolding memset
memset_lem dest val count m x = ground (arith, memset_loop_lem count 0 dest (val % 256) m x)

-- Upwards to a lower address, a byte is read before it is overwritten.
pub copy_up_lem :
    (n i dst src : ℕ) (m : Memory) (x : ℕ)
    → dst < src
    → copy_up n i dst src m x ≡ (if within (dst + i) n x then m (src + (x - dst)) else m x)
unfolding copy_up poke
copy_up_lem zero i dst src m x h = ground arith
copy_up_lem (suc n) i dst src m x h =
    ground (arith, copy_up_lem n (i + 1) dst src (poke m (dst + i) (m (src + i))) x h)

copy_down_lem :
    (n dst src : ℕ) (m : Memory) (x : ℕ)
    → src < dst
    → copy_down n dst src m x ≡ (if within dst n x then m (src + (x - dst)) else m x)
unfolding copy_down poke
copy_down_lem zero dst src m x h = ground arith
copy_down_lem (suc n) dst src m x h =
    ground (arith, copy_down_lem n dst src (poke m (dst + n) (m (src + n))) x h)

-- `memmove` leaves in the destination the bytes that the source held before the call, however the
-- two blocks overlap, and changes no byte outside the destination.
memmove_lem :
    (dest src count : ℕ) (m : Memory) (x : ℕ)
    → memmove dest src count m x ≡ (if within dest count x then m (src + (x - dest)) else m x)
unfolding memmove
memmove_lem dest src count m x =
    ground (arith, copy_up_lem count 0 dest src m x, copy_down_lem count dest src m x)

-- Upwards from a disjoint source: nothing that is still to be read is overwritten.
pub copy_up-disjoint :
    (n i dst src : ℕ) (m : Memory) (x : ℕ)
    → src + (i + n) ≤ dst
    → copy_up n i dst src m x ≡ (if within (dst + i) n x then m (src + (x - dst)) else m x)
unfolding copy_up poke
copy_up-disjoint zero i dst src m x h = ground arith
copy_up-disjoint (suc n) i dst src m x h =
    ground (arith, copy_up-disjoint n (i + 1) dst src (poke m (dst + i) (m (src + i))) x)

-- `memcpy` of blocks that are disjoint, or whose destination lies below the source, copies them as
-- `memmove` does; for any other overlap C leaves the result open.
memcpy_lem :
    (dest src count : ℕ) (m : Memory) (x : ℕ)
    → (src + count ≤ dest) ⊎ (dest < src)
    → memcpy dest src count m x ≡ memmove dest src count m x
unfolding memcpy
memcpy_lem dest src count m x (inl h) =
    ground (arith, copy_up-disjoint count 0 dest src m x, memmove_lem dest src count m x)
memcpy_lem dest src count m x (inr h) =
    ground (arith, copy_up_lem count 0 dest src m x, memmove_lem dest src count m x)

-- The blocks hold the same bytes from index `i` on.
abbrev pub SameBlock : Memory → ℕ → ℕ → ℕ → ℕ → Type 0
SameBlock m a b zero i = Unit
SameBlock m a b (suc n) i = (m (a + i) ≡ m (b + i)) × SameBlock m a b n (i + 1)

memcmp_loop_iff : (n i a b : ℕ) (m : Memory) → (memcmp_loop n i a b m ≡ pos 0) ↔ SameBlock m a b n i
unfolding memcmp_loop
memcmp_loop_iff zero i a b m = (λ h. tt, λ h. refl)
memcmp_loop_iff (suc n) i a b m = (
  λ h. (ground arith, (memcmp_loop_iff n (i + 1) a b m).0 (ground arith)),
  λ (e, rest). ground (arith, (memcmp_loop_iff n (i + 1) a b m).1 rest),
)

-- `memcmp` is 0 exactly when the two blocks hold the same bytes.
memcmp_iff : (a b count : ℕ) (m : Memory) → (memcmp a b count m ≡ pos 0) ↔ SameBlock m a b count 0
unfolding memcmp
memcmp_iff a b count m = memcmp_loop_iff count 0 a b m
