-- ===== src/Kernel/Words.antt =====
-- Machine words: wrap-around arithmetic and little-endian reads from the byte memory.
use mira_os.Base.{ℕ, ◌+◌, ◌-◌, ◌*◌, ◌%◌, ◌^◌}
use mira_os.Common.Memory.{Memory}

-- `uint64_t` and `uint32_t` addition, subtraction and multiplication
abbrev pub add64 : ℕ → ℕ → ℕ
add64 a b = (a + b) % 2 ^ 64

abbrev pub sub64 : ℕ → ℕ → ℕ
sub64 a b = (a + 2 ^ 64 - b) % 2 ^ 64

abbrev pub mul64 : ℕ → ℕ → ℕ
mul64 a b = (a * b) % 2 ^ 64

abbrev pub add32 : ℕ → ℕ → ℕ
add32 a b = (a + b) % 2 ^ 32

abbrev pub sub32 : ℕ → ℕ → ℕ
sub32 a b = (a + 2 ^ 32 - b) % 2 ^ 32

abbrev pub mul32 : ℕ → ℕ → ℕ
mul32 a b = (a * b) % 2 ^ 32

unfoldable pub read_u16 : Memory → ℕ → ℕ
read_u16 m a = m a + m (a + 1) * 0x100

unfoldable pub read_u32 : Memory → ℕ → ℕ
unfolding read_u16
read_u32 m a = read_u16 m a + read_u16 m (a + 2) * 0x1_0000

unfoldable pub read_u64 : Memory → ℕ → ℕ
unfolding read_u32
read_u64 m a = read_u32 m a + read_u32 m (a + 4) * 0x1_0000_0000
