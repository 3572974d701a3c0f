-- ===== src/Arch/Paging/BootWords.antt =====
-- What the loops and the entries of `paging_init` leave in the words of the static tables.
use mira_os.Base.{
  ℕ, zero, suc, ◌+◌, ◌*◌, ◌/◌, ◌^◌, ◌≡◌, refl, ap, ◌∙◌, inl, inr, true, false, ◌==◌, ◌&&◌,
  if◌then◌else◌, arith, Bool-cases, bit_or, bit_or-above,
}
use mira_os.Arch.Paging.{
  Words, page_present, page_size_flag, address_of, set_word, present_write, clear_words,
  boot_entries,
}
use mira_os.Common.Memory.Copy.{within}

pub clear_words_lem :
    (n i t : ℕ) (w : Words) (a j : ℕ)
    → clear_words n i t w a j ≡ (if (a == t) && within i n j then 0 else w a j)
unfolding clear_words set_word
clear_words_lem zero i t w a j = ground arith
clear_words_lem (suc n) i t w a j =
    ground (arith, clear_words_lem n (i + 1) t (set_word t i 0 w) a j)

pub boot_entries_lem :
    (n i t : ℕ) (w : Words) (a j : ℕ)
    → boot_entries n i t w a j
      ≡ (if (a == t) && within i n j then present_write (j * 4096) else w a j)
unfolding boot_entries set_word
boot_entries_lem zero i t w a j = ground arith
boot_entries_lem (suc n) i t w a j = elim (Bool-cases (j == i)) [
  | inl e ↦
      let same : j ≡ i = ground arith in
      let index = ap (λ k. present_write (k * 4096)) same in
      ground
        (arith, index, boot_entries_lem n (i + 1) t (set_word t i (present_write (i * 4096)) w) a j)
  | inr ne ↦
      ground (arith, boot_entries_lem n (i + 1) t (set_word t i (present_write (i * 4096)) w) a j)
]

present_write-aligned : (x : ℕ) → address_of x ≡ x → present_write x ≡ x + 3
unfolding address_of present_write
present_write-aligned x h =
    let p = x / 4096 in
    let (a, la) = bit_or-above 12 p 0 1 (omega arith) (omega arith) in
    let (b, lb) = bit_or-above 12 p (bit_or 0 1) 2 la (omega arith) in
    let start : x ≡ p * 2 ^ 12 + 0 = omega arith in
    let end : p * 2 ^ 12 + bit_or (bit_or 0 1) 2 ≡ x + 3 = omega arith in
    ap (λ t. bit_or (bit_or t 1) 2) start ∙ (ap (λ t. bit_or t 2) a ∙ (b ∙ end))

pub present_write-entry :
    (x : ℕ)
    → address_of x ≡ x
    → (address_of (present_write x) ≡ x)
      × (page_present (present_write x) ≡ true)
      × (page_size_flag (present_write x) ≡ false)
unfolding address_of page_present page_size_flag
present_write-entry x h =
    let e = present_write-aligned x h in (omega (arith, e), ground (arith, e), ground (arith, e))

-- An entry of an upper table at the start: only the entry 0 leads on.
pub only_first :
    (e x j : ℕ)
    → e ≡ (if j == 0 then present_write x else 0)
    → address_of x ≡ x
    → (page_present e ≡ (j == 0))
      × (page_size_flag e ≡ false)
      × ((j == 0) ≡ true → address_of e ≡ x)
unfolding page_present page_size_flag
only_first e x j h aligned =
    let (page, present, small) = present_write-entry x aligned in
    elim (Bool-cases (j == 0)) [
      | inl zero_index ↦
          let entry : e ≡ present_write x = h ∙ rw zero_index refl in
          rw (zero_index, entry) (present, small, λ z. page)
      | inr other ↦
          let entry : e ≡ 0 = h ∙ rw other refl in
          rw (other, entry) (refl, refl, λ z. absurd (ground arith))
    ]
