-- ===== src/Kernel/Loader/Hash.antt =====
-- The checksum of kernel/bin: FNV-1a of 64 bits. Each round is a bijection, so that two files of the same
-- size that differ in one byte have different checksums.
use mira_os.Base.{
  ℕ, zero, suc, ◌+◌, ◌*◌, ◌%◌, ◌^◌, ◌<◌, ◌≡◌, ◌≢◌, refl, ap, ◌∙◌, sym, inl, inr, ◌==◌, Bool-cases,
  arith, bit_xor, bit_xor-bound, bit_xor-undo, bit_xor_comm, ◌≤◌,
}
use mira_os.Common.Memory.{Memory}
use mira_os.Kernel.Pmm.Bitmap.{IsBytes}
use mira_os.Kernel.Loader.{hash_byte, hash_bytes}

-- The factor is odd.
odd_factor :
    (a b : ℕ)
    → a < 2 ^ 64
    → b < 2 ^ 64
    → (a * 1099511628211) % 2 ^ 64 ≡ (b * 1099511628211) % 2 ^ 64
    → a ≡ b
odd_factor a b ha hb h = omega arith

hash_byte-bound : (h b : ℕ) → hash_byte h b < 2 ^ 64
unfolding hash_byte
hash_byte-bound h b = omega arith

-- With the byte known, a round loses nothing of the state.
hash_byte-state :
    (h h' b : ℕ) → h < 2 ^ 64 → h' < 2 ^ 64 → b < 256 → hash_byte h b ≡ hash_byte h' b → h ≡ h'
unfolding hash_byte
hash_byte-state h h' b lh lh' lb e =
    let small : b < 2 ^ 64 = omega arith in
    let xors =
      odd_factor (bit_xor h b) (bit_xor h' b) (bit_xor-bound 64 h b lh small)
        (bit_xor-bound 64 h' b lh' small) e in
    sym (bit_xor-undo 64 h b lh small)
    ∙ (ap (λ t. bit_xor t b) xors ∙ bit_xor-undo 64 h' b lh' small)

-- With the state known, it loses nothing of the byte.
hash_byte-byte :
    (h b b' : ℕ) → h < 2 ^ 64 → b < 256 → b' < 256 → hash_byte h b ≡ hash_byte h b' → b ≡ b'
unfolding hash_byte
hash_byte-byte h b b' lh lb lb' e =
    let small : b < 2 ^ 64 = omega arith in
    let small' : b' < 2 ^ 64 = omega arith in
    let xors =
      odd_factor (bit_xor h b) (bit_xor h b') (bit_xor-bound 64 h b lh small)
        (bit_xor-bound 64 h b' lh small') e in
    let swapped : bit_xor b h ≡ bit_xor b' h =
      bit_xor_comm 64 b h small lh ∙ (xors ∙ bit_xor_comm 64 h b' lh small') in
    sym (bit_xor-undo 64 b h small lh)
    ∙ (ap (λ t. bit_xor t h) swapped ∙ bit_xor-undo 64 b' h small' lh)

pub hash_bytes-bound : (n a : ℕ) (m : Memory) (h : ℕ) → h < 2 ^ 64 → hash_bytes n a m h < 2 ^ 64
unfolding hash_bytes
hash_bytes-bound zero a m h lh = lh
hash_bytes-bound (suc n) a m h lh = hash_bytes-bound n (a + 1) m _ (hash_byte-bound h (m a))

pub hash_bytes-state :
    (n a : ℕ) (m : Memory) (h h' : ℕ)
    → IsBytes m
    → h < 2 ^ 64
    → h' < 2 ^ 64
    → hash_bytes n a m h ≡ hash_bytes n a m h'
    → h ≡ h'
unfolding hash_bytes
hash_bytes-state zero a m h h' bytes lh lh' e = e
hash_bytes-state (suc n) a m h h' bytes lh lh' e =
    hash_byte-state h h' (m a) lh lh' (bytes a) (
      hash_bytes-state n (a + 1) m _ _ bytes (hash_byte-bound h (m a)) (hash_byte-bound h' (m a)) e)

pub hash_bytes-agree :
    (n a : ℕ) (m m' : Memory) (h : ℕ)
    → ((x : ℕ) → a ≤ x → x < a + n → m' x ≡ m x)
    → hash_bytes n a m' h ≡ hash_bytes n a m h
unfolding hash_bytes
hash_bytes-agree zero a m m' h same = refl
hash_bytes-agree (suc n) a m m' h same =
    ap (λ t. hash_bytes n (a + 1) m' (hash_byte h t)) (same a (omega arith) (omega arith))
    ∙ hash_bytes-agree n (a + 1) m m' (hash_byte h (m a))
        (λ x low high. same x (omega arith) (omega arith))

-- Memories that differ at most in the byte `x`, which the loop reads, have different checksums if it does.
pub hash_bytes-one :
    (n a : ℕ) (m m' : Memory) (h x : ℕ)
    → IsBytes m
    → IsBytes m'
    → h < 2 ^ 64
    → ((y : ℕ) → y ≢ x → m' y ≡ m y)
    → a ≤ x
    → x < a + n
    → hash_bytes n a m' h ≡ hash_bytes n a m h
    → m' x ≡ m x
unfolding hash_bytes
hash_bytes-one zero a m m' h x bytes bytes' lh same low high e = absurd (omega arith)
hash_bytes-one (suc n) a m m' h x bytes bytes' lh same low high e = elim (Bool-cases (a == x)) [
  | inl here ↦
      let at : a ≡ x = ground arith in
      let later =
        hash_bytes-agree n (a + 1) m m' (hash_byte h (m' a))
          (λ y le lt. same y (λ eq. absurd (omega (arith, eq, at, le)))) in
      let states =
        hash_bytes-state n (a + 1) m _ _ bytes (hash_byte-bound h (m' a)) (hash_byte-bound h (m a))
          (sym later ∙ e) in
      sym (ap m' at) ∙ (hash_byte-byte h (m' a) (m a) lh (bytes' a) (bytes a) states ∙ ap m at)
  | inr there ↦
      let first : m' a ≡ m a = same a (λ eq. absurd (ground (arith, eq))) in
      hash_bytes-one n (a + 1) m m' (hash_byte h (m a)) x bytes bytes' (hash_byte-bound h (m a))
        same (ground arith) (omega arith)
        (sym (ap (λ t. hash_bytes n (a + 1) m' (hash_byte h t)) first) ∙ e)
]
