-- ===== src/Kernel/Pmm/Alloc.antt =====
-- `pmm_alloc_page` and `pmm_free_page`.
use mira_os.Base.{
  ℕ, zero, suc, ◌+◌, ◌-◌, ◌*◌, ◌/◌, ◌^◌, ◌<◌, ◌≤◌, ◌≡◌, inl, inr, Bool, true, false, ◌==◌,
  if◌then◌else◌, arith, none, some, Bool-cases, Option-cases,
}
use mira_os.Common.Memory.{Memory}
use mira_os.Kernel.Words.{add64}
use mira_os.Kernel.Pmm.{
  Pmm, bitmap_set, bitmap_test, first_free, pmm_alloc_page, pmm_free_page, pmm_free_count,
}
use mira_os.Kernel.Pmm.Bitmap.{IsBytes, bitmap_test-set, bitmap_test-clear, bitmap_set-IsBytes}

-- The bit of the page is set.
abbrev pub in_use : Pmm → ℕ → Bool
in_use s p = bitmap_test s.page_bitmap p

-- The page is one that the allocator hands out.
abbrev pub InRange : Pmm → ℕ → Type 0
InRange s p = (s.mem_start / 4096 ≤ p) × (p < s.mem_end / 4096)

first_free-some :
    (n p : ℕ) (bm : Memory) {q : ℕ}
    → first_free n p bm ≡ some q
    → (p ≤ q)
      × (q < p + n)
      × (bitmap_test bm q ≡ false)
      × ((r : ℕ) → p ≤ r → r < q → bitmap_test bm r ≡ true)
unfolding first_free
first_free-some zero p bm h = absurd (ground arith)
first_free-some (suc n) p bm {q} h = elim (Bool-cases (bitmap_test bm p)) [
  | inl used ↦
      let (low, high, unused, below) = first_free-some n (p + 1) bm {q = q} (ground arith) in
      (
        omega arith,
        omega arith,
        unused,
        λ r le lt. elim (Bool-cases (p == r)) [
          | inl e ↦ let same : p ≡ r = ground arith in ground arith
          | inr ne ↦ below r (ground arith) lt
        ],
      )
  | inr unused ↦ (ground arith, ground arith, ground arith, λ r le lt. absurd (ground arith))
]

first_free-none :
    (n p : ℕ) (bm : Memory) (q : ℕ)
    → first_free n p bm ≡ none
    → p ≤ q
    → q < p + n
    → bitmap_test bm q ≡ true
unfolding first_free
first_free-none zero p bm q h le lt = absurd (omega arith)
first_free-none (suc n) p bm q h le lt = elim (Bool-cases (p == q)) [
  | inl e ↦ let same : p ≡ q = ground arith in ground arith
  | inr ne ↦ first_free-none n (p + 1) bm q (ground arith) (ground arith) (omega arith)
]

-- `pmm_alloc_page` returns NULL only if every page of its range is in use, and then it changes nothing.
pmm_alloc_page-none :
    (s : Pmm) (p : ℕ)
    → (pmm_alloc_page s).0 ≡ none
    → InRange s p
    → (in_use s p ≡ true) × ((pmm_alloc_page s).1 ≡ s)
unfolding pmm_alloc_page
pmm_alloc_page-none s p h (low, high) =
    elim (Option-cases
      (first_free (s.mem_end / 4096 - s.mem_start / 4096) (s.mem_start / 4096) s.page_bitmap)) [
        | inl e ↦ (first_free-none _ _ s.page_bitmap p e low (omega arith), ground arith)
        | inr (q, e) ↦ absurd (ground arith)
      ]

-- A page that `pmm_alloc_page` returns lies in the allocator's range and was free, with every lower
-- page of the range in use; after the call this page is in use and every other is as it was.
pub pmm_alloc_page-some :
    (s : Pmm) (a : ℕ)
    → IsBytes s.page_bitmap
    → (pmm_alloc_page s).0 ≡ some a
    → (p : ℕ) × (a ≡ p * 4096)
      × InRange s p
      × (in_use s p ≡ false)
      × ((r : ℕ) → s.mem_start / 4096 ≤ r → r < p → in_use s r ≡ true)
      × ((r : ℕ) → in_use (pmm_alloc_page s).1 r ≡ (if p == r then true else in_use s r))
unfolding pmm_alloc_page
pmm_alloc_page-some s a bytes h =
    elim (Option-cases
      (first_free (s.mem_end / 4096 - s.mem_start / 4096) (s.mem_start / 4096) s.page_bitmap)) [
        | inl e ↦ absurd (ground arith)
        | inr (p, e) ↦
            let (low, high, unused, below) = first_free-some _ _ s.page_bitmap e in
            (
              p,
              ground arith,
              (low, omega arith),
              unused,
              below,
              λ r. ground (arith, bitmap_test-set s.page_bitmap p r bytes),
            )
      ]

-- Freeing a page marks it free and leaves every other page as it was; a page that was free already is
-- not counted again.
pub pmm_free_page_lem :
    (s : Pmm) (a q : ℕ)
    → IsBytes s.page_bitmap
    → (in_use (pmm_free_page a s) q ≡ (if a / 4096 == q then false else in_use s q))
      × (pmm_free_count (pmm_free_page a s)
          ≡ (if in_use s (a / 4096) then add64 (pmm_free_count s) 1 else pmm_free_count s))
unfolding pmm_free_page pmm_free_count
pmm_free_page_lem s a q bytes =
    (ground (arith, bitmap_test-clear s.page_bitmap (a / 4096) q bytes), ground arith)

-- Freeing the page just allocated gives back the same set of free pages and the same count.
pmm_free_page-alloc :
    (s : Pmm) (a q : ℕ)
    → IsBytes s.page_bitmap
    → s.free_pages < 2 ^ 64
    → (pmm_alloc_page s).0 ≡ some a
    → (in_use (pmm_free_page a (pmm_alloc_page s).1) q ≡ in_use s q)
      × (pmm_free_count (pmm_free_page a (pmm_alloc_page s).1) ≡ pmm_free_count s)
unfolding pmm_alloc_page pmm_free_page pmm_free_count
pmm_free_page-alloc s a q bytes small h =
    elim (Option-cases
      (first_free (s.mem_end / 4096 - s.mem_start / 4096) (s.mem_start / 4096) s.page_bitmap)) [
        | inl e ↦ absurd (ground arith)
        | inr (p, e) ↦
            let (low, high, unused, below) = first_free-some _ _ s.page_bitmap e in
            let kept = bitmap_set-IsBytes s.page_bitmap p bytes in
            let page : p * 4096 / 4096 ≡ p = omega arith in
            (
              ground (
                arith,
                page,
                bitmap_test-set s.page_bitmap p q bytes,
                bitmap_test-set s.page_bitmap p p bytes,
                bitmap_test-clear (bitmap_set s.page_bitmap p) p q kept,
              ),
              ground (arith, page, bitmap_test-set s.page_bitmap p p bytes),
            )
      ]
