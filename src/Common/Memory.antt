-- ===== src/Common/Memory.antt =====
-- lib/common/mem.c over a byte memory: an address is a number, and a memory gives the byte at each.
-- The objects of the program lie below 2 ^ 64, so no pointer of these loops wraps.
pub mod Copy
use mira_os.Base.{
  ℕ, zero, suc, ◌+◌, ◌-◌, ◌%◌, Bool, true, false, ◌==◌, ltb, if◌then◌else◌, ℤ, pos, sub_ℕ,
}

abbrev pub Memory : Type 0
Memory = ℕ → ℕ

-- `*a = v`
unfoldable pub poke : Memory → ℕ → ℕ → Memory
poke m a v x = if x == a then v else m x

-- The loop of `memset` from index `i`, with the rounds left.
unfoldable pub memset_loop : ℕ → ℕ → ℕ → ℕ → Memory → Memory
memset_loop zero i dst v m = m
memset_loop (suc n) i dst v m = memset_loop n (i + 1) dst v (poke m (dst + i) v)

-- The value is converted to `uint8_t`.
unfoldable pub memset : ℕ → ℕ → ℕ → Memory → Memory
memset dest val count m = memset_loop count 0 dest (val % 256) m

-- `for (i = 0; i < count; i++) dst[i] = src[i]`, from index `i`.
unfoldable pub copy_up : ℕ → ℕ → ℕ → ℕ → Memory → Memory
copy_up zero i dst src m = m
copy_up (suc n) i dst src m = copy_up n (i + 1) dst src (poke m (dst + i) (m (src + i)))

-- `for (i = count; i > 0; i--) dst[i - 1] = src[i - 1]`
unfoldable pub copy_down : ℕ → ℕ → ℕ → Memory → Memory
copy_down zero dst src m = m
copy_down (suc n) dst src m = copy_down n dst src (poke m (dst + n) (m (src + n)))

unfoldable pub memcpy : ℕ → ℕ → ℕ → Memory → Memory
memcpy dest src count m = copy_up count 0 dest src m

unfoldable pub memmove : ℕ → ℕ → ℕ → Memory → Memory
memmove dest src count m =
    if ltb dest src
    then copy_up count 0 dest src m
    else if ltb src dest
    then copy_down count dest src m
    else m

-- The loop of `memcmp` from index `i`, with the rounds left. The bytes are unsigned.
unfoldable pub memcmp_loop : ℕ → ℕ → ℕ → ℕ → Memory → ℤ
memcmp_loop zero i a b m = pos 0
memcmp_loop (suc n) i a b m =
    let rest = memcmp_loop n (i + 1) a b m in
    if m (a + i) == m (b + i) then rest else sub_ℕ (m (a + i)) (m (b + i))

unfoldable pub memcmp : ℕ → ℕ → ℕ → Memory → ℤ
memcmp a b count m = memcmp_loop count 0 a b m
