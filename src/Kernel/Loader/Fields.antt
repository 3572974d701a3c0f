-- ===== src/Kernel/Loader/Fields.antt =====
-- The bytes of a word of 64 bits: they determine it and it determines them.
use mira_os.Base.{ℕ, ◌+◌, ◌^◌, ◌<◌, ◌≡◌, ap, ◌∙◌, sym, inl, inr, ◌==◌, ltb, ◌-◌, Bool-cases, arith}
use mira_os.Common.Memory.{Memory}
use mira_os.Kernel.Words.{read_u16, read_u32, read_u64}
use mira_os.Kernel.Pmm.Bitmap.{IsBytes}

module _ (m m' : Memory) where
  pub read_u64-agree :
      (a : ℕ) → ((i : ℕ) → i < 8 → m' (a + i) ≡ m (a + i)) → read_u64 m' a ≡ read_u64 m a
  unfolding read_u16 read_u32 read_u64
  read_u64-agree a same =
      let at : (x i : ℕ) → x ≡ a + i → i < 8 → m' x ≡ m x =
        λ x i e lt. ap m' e ∙ (same i lt ∙ sym (ap m e)) in
      omega (
        arith,
        at a 0 (omega arith) (omega arith),
        at (a + 1) 1 (omega arith) (omega arith),
        at (a + 2) 2 (omega arith) (omega arith),
        at (a + 2 + 1) 3 (omega arith) (omega arith),
        at (a + 4) 4 (omega arith) (omega arith),
        at (a + 4 + 1) 5 (omega arith) (omega arith),
        at (a + 4 + 2) 6 (omega arith) (omega arith),
        at (a + 4 + 2 + 1) 7 (omega arith) (omega arith),
      )

  module _ (bytes : IsBytes m) (bytes' : IsBytes m') where
    u16_bytes : (a : ℕ) → read_u16 m' a ≡ read_u16 m a → (m' a ≡ m a) × (m' (a + 1) ≡ m (a + 1))
    unfolding read_u16
    u16_bytes a e = (omega (arith, e, bytes a, bytes' a), omega (arith, e, bytes a, bytes' a))

    u16-bound : (a : ℕ) → (read_u16 m a < 2 ^ 16) × (read_u16 m' a < 2 ^ 16)
    unfolding read_u16
    u16-bound a = (omega (arith, bytes a, bytes (a + 1)), omega (arith, bytes' a, bytes' (a + 1)))

    u32_halves :
        (a : ℕ)
        → read_u32 m' a ≡ read_u32 m a
        → (read_u16 m' a ≡ read_u16 m a) × (read_u16 m' (a + 2) ≡ read_u16 m (a + 2))
    unfolding read_u32
    u32_halves a e = (omega (arith, e, u16-bound a), omega (arith, e, u16-bound a))

    u32-bound : (a : ℕ) → (read_u32 m a < 2 ^ 32) × (read_u32 m' a < 2 ^ 32)
    unfolding read_u32
    u32-bound a = (
      omega (arith, u16-bound a, u16-bound (a + 2)),
      omega (arith, u16-bound a, u16-bound (a + 2)),
    )

    u64_halves :
        (a : ℕ)
        → read_u64 m' a ≡ read_u64 m a
        → (read_u32 m' a ≡ read_u32 m a) × (read_u32 m' (a + 4) ≡ read_u32 m (a + 4))
    unfolding read_u64
    u64_halves a e = (omega (arith, e, u32-bound a), omega (arith, e, u32-bound a))

    four_bytes : (a x i : ℕ) → read_u32 m' a ≡ read_u32 m a → x ≡ a + i → i < 4 → m' x ≡ m x
    four_bytes a x i e at lt =
        let (low, high) = u32_halves a e in
        let (b0, b1) = u16_bytes a low in
        let (b2, b3) = u16_bytes (a + 2) high in
        let to : (y : ℕ) → x ≡ y → m' y ≡ m y → m' x ≡ m x =
          λ y eq h. ap m' eq ∙ (h ∙ sym (ap m eq)) in
        elim (Bool-cases (i == 0)) [
          | inl k0 ↦ to a (ground arith) b0
          | inr n0 ↦ elim (Bool-cases (i == 1)) [
            | inl k1 ↦ to (a + 1) (ground arith) b1
            | inr n1 ↦ elim (Bool-cases (i == 2)) [
              | inl k2 ↦ to (a + 2) (ground arith) b2
              | inr n2 ↦ to (a + 2 + 1) (ground arith) b3
            ]
          ]
        ]

    pub read_u64-byte : (a i : ℕ) → i < 8 → read_u64 m' a ≡ read_u64 m a → m' (a + i) ≡ m (a + i)
    read_u64-byte a i lt e =
        let (low, high) = u64_halves a e in
        elim (Bool-cases (ltb i 4)) [
          | inl first ↦ four_bytes a (a + i) i low (omega arith) (ground arith)
          | inr second ↦ four_bytes (a + 4) (a + i) (i - 4) high (ground arith) (ground arith)
        ]
