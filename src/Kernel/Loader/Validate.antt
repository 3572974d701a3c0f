-- ===== src/Kernel/Loader/Validate.antt =====
-- The two validators of kernel/bin, and what their checksum detects.
use mira_os.Base.{
  ℕ, ◌+◌, ◌-◌, ◌^◌, ◌<◌, ◌≤◌, ◌≡◌, ◌≢◌, refl, ap, ◌∙◌, sym, inl, inr, Bool-cases, true, false,
  arith, if◌then◌else◌, ◌&&◌, ltb, leb,
}
use mira_os.Common.Memory.{Memory, poke}
use mira_os.Kernel.Loader.Fields.{read_u64-agree, read_u64-byte}
use mira_os.Kernel.Pmm.Bitmap.{IsBytes}
use mira_os.Kernel.Loader.{
  read_header, hash_bytes, zeroed_header, file_checksum, hash_start, mira_validate_header,
  exec_validate_header, mira_bin_is_valid,
}
use mira_os.Kernel.Loader.Hash.{
  hash_bytes-bound, hash_bytes-state, hash_bytes-agree, hash_bytes-one,
}

-- The two validators agree on every file but one whose header says that it is larger than 64 bytes, which
-- only `mira_exec.c` refuses.
pub mira_bin_is_valid-validate :
    (m : Memory) (file size kind : ℕ)
    → mira_bin_is_valid m file size kind
      ≡ (mira_validate_header m file size kind && leb (read_header m file).header_size 64)
unfolding mira_bin_is_valid exec_validate_header mira_validate_header
mira_bin_is_valid-validate m file size kind = ground arith

valid-checksum :
    (m : Memory) (file size kind : ℕ)
    → mira_bin_is_valid m file size kind ≡ true
    → (file_checksum m file size ≡ (read_header m file).checksum) × (64 ≤ size)
unfolding mira_bin_is_valid exec_validate_header
valid-checksum m file size kind h = (ground arith, ground arith)

poke-IsBytes : (m : Memory) (a v : ℕ) → IsBytes m → v < 256 → IsBytes (poke m a v)
unfolding poke
poke-IsBytes m a v bytes lv i = ground (arith, bytes i)

poke_other : (m : Memory) (a v y : ℕ) → y ≢ a → poke m a v y ≡ m y
unfolding poke
poke_other m a v y ne = ground arith

poke_self : (m : Memory) (a v : ℕ) → poke m a v a ≡ v
unfolding poke
poke_self m a v = ground arith

zeroed_header-IsBytes : (m : Memory) (file : ℕ) → IsBytes m → IsBytes (zeroed_header m file)
unfolding zeroed_header
zeroed_header-IsBytes m file bytes i = ground (arith, bytes (file + i))

module _ (m : Memory) (file size k v : ℕ) (bytes : IsBytes m) (lv : v < 256) where
  -- A byte of the checksum field changes the field and not the checksum.
  checksum_field :
      56 ≤ k → k < 64 → file_checksum (poke m (file + k) v) file size ≡ file_checksum m file size
  unfolding file_checksum zeroed_header poke
  checksum_field low high =
      ap (λ h. hash_bytes (size - 64) (file + 64) (poke m (file + k) v) h)
        (hash_bytes-agree 64 0 (zeroed_header m file) (zeroed_header (poke m (file + k) v) file)
          hash_start (λ x lx hx. ground arith))
      ∙ hash_bytes-agree (size - 64) (file + 64) m (poke m (file + k) v) _ (λ x lx hx. ground arith)

  zeroed_other :
      (y : ℕ) → y ≢ k → zeroed_header (poke m (file + k) v) file y ≡ zeroed_header m file y
  unfolding zeroed_header
  zeroed_other y ne =
      ap (λ t. if leb 56 y && ltb y 64 then 0 else t)
        (poke_other m (file + k) v (file + y) (λ e. ne (omega (arith, e))))

  -- Another byte of the header changes the checksum.
  header_byte :
      k < 56
      → file_checksum (poke m (file + k) v) file size ≡ file_checksum m file size
      → v ≡ m (file + k)
  unfolding file_checksum zeroed_header
  header_byte low e =
      let m' = poke m (file + k) v in
      let bytes' = poke-IsBytes m (file + k) v bytes lv in
      let head' = hash_bytes 64 0 (zeroed_header m' file) hash_start in
      let later =
        hash_bytes-agree (size - 64) (file + 64) m m' head'
          (λ x lx hx. poke_other m (file + k) v x (λ eq. absurd (omega (arith, eq, lx)))) in
      let start : hash_start < 2 ^ 64 = omega arith in
      let heads =
        hash_bytes-state (size - 64) (file + 64) m head'
          (hash_bytes 64 0 (zeroed_header m file) hash_start) bytes
          (hash_bytes-bound 64 0 (zeroed_header m' file) hash_start start)
          (hash_bytes-bound 64 0 (zeroed_header m file) hash_start start) (sym later ∙ e) in
      let one =
        hash_bytes-one 64 0 (zeroed_header m file) (zeroed_header m' file) hash_start k
          (zeroed_header-IsBytes m file bytes) (zeroed_header-IsBytes m' file bytes') start
          zeroed_other (omega arith) (omega arith) heads in
      let outside : (leb 56 k && ltb k 64) ≡ false = ground arith in
      sym (poke_self m (file + k) v) ∙ (sym (rw outside refl) ∙ (one ∙ rw outside refl))

  -- So does a byte behind the header.
  body_byte :
      64 ≤ k
      → k < size
      → file_checksum (poke m (file + k) v) file size ≡ file_checksum m file size
      → v ≡ m (file + k)
  unfolding file_checksum
  body_byte low high e =
      let m' = poke m (file + k) v in
      let head = hash_bytes 64 0 (zeroed_header m file) hash_start in
      let start : hash_start < 2 ^ 64 = omega arith in
      let heads =
        hash_bytes-agree 64 0 (zeroed_header m file) (zeroed_header m' file) hash_start
          (λ x lx hx. zeroed_other x (λ eq. absurd (omega (arith, eq, hx)))) in
      sym (poke_self m (file + k) v)
      ∙ hash_bytes-one (size - 64) (file + 64) m m' head (file + k) bytes
          (poke-IsBytes m (file + k) v bytes lv)
          (hash_bytes-bound 64 0 (zeroed_header m file) hash_start start)
          (λ y ne. poke_other m (file + k) v y ne) (omega arith) (omega arith)
          (sym (ap (λ h. hash_bytes (size - 64) (file + 64) m' h) heads) ∙ e)

  -- The checksum field lies at 56.
  field_kept :
      k < 56 → (read_header (poke m (file + k) v) file).checksum ≡ (read_header m file).checksum
  unfolding read_header
  field_kept low =
      read_u64-agree m (poke m (file + k) v) (file + 56)
        (λ i lt. poke_other m (file + k) v _ (λ e. absurd (omega (arith, e))))

  field_kept_body :
      64 ≤ k → (read_header (poke m (file + k) v) file).checksum ≡ (read_header m file).checksum
  unfolding read_header
  field_kept_body low =
      read_u64-agree m (poke m (file + k) v) (file + 56)
        (λ i lt. poke_other m (file + k) v _ (λ e. absurd (omega (arith, e, lt))))

  field_changed :
      56 ≤ k
      → k < 64
      → (read_header (poke m (file + k) v) file).checksum ≡ (read_header m file).checksum
      → v ≡ m (file + k)
  unfolding read_header
  field_changed low high e =
      let m' = poke m (file + k) v in
      let at : file + 56 + (k - 56) ≡ file + k = omega arith in
      let byte =
        read_u64-byte m m' bytes (poke-IsBytes m (file + k) v bytes lv) (file + 56) (k - 56)
          (omega arith) e in
      sym (poke_self m (file + k) v) ∙ (sym (ap m' at) ∙ (byte ∙ ap m at))

-- A file that is valid is so no longer once any single byte of it has another value, in the checksum itself,
-- in the rest of the header or behind it.
pub mira_bin_is_valid-poke :
    (m : Memory) (file size kind k v : ℕ)
    → IsBytes m
    → v < 256
    → v ≢ m (file + k)
    → k < size
    → mira_bin_is_valid m file size kind ≡ true
    → mira_bin_is_valid (poke m (file + k) v) file size kind ≡ false
mira_bin_is_valid-poke m file size kind k v bytes lv ne lt valid =
    let (sum, enough) = valid-checksum m file size kind valid in
    elim (Bool-cases (mira_bin_is_valid (poke m (file + k) v) file size kind)) [
      | inr invalid ↦ invalid
      | inl still ↦
          let (sum', enough') = valid-checksum (poke m (file + k) v) file size kind still in
          elim (Bool-cases (ltb k 56)) [
            | inl head ↦
                let low : k < 56 = ground arith in
                absurd (
                  ne (
                    header_byte m file size k v bytes lv low
                      (sum' ∙ (field_kept m file size k v bytes lv low ∙ sym sum))))
            | inr tail ↦ elim (Bool-cases (ltb k 64)) [
              | inl field ↦
                  let low : 56 ≤ k = ground arith in
                  let high : k < 64 = ground arith in
                  absurd (
                    ne (
                      field_changed m file size k v bytes lv low high
                        (sym sum' ∙ (checksum_field m file size k v bytes lv low high ∙ sum))))
              | inr body ↦
                  let low : 64 ≤ k = ground arith in
                  absurd (
                    ne (
                      body_byte m file size k v bytes lv low lt
                        (sum' ∙ (field_kept_body m file size k v bytes lv low ∙ sym sum))))
            ]
          ]
    ]
