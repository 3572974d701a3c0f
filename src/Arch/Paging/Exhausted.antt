-- ===== src/Arch/Paging/Exhausted.antt =====
-- arch/x86_64/paging.c after the start, once every page below 2 MB is in use.
use mira_os.Base.{
  ℕ, ◌*◌, ◌/◌, ◌%◌, ◌^◌, ◌<◌, ◌≤◌, ◌≡◌, ap, ◌∙◌, ◌==◌, true, false, none, inl, inr, arith,
  Bool-cases,
}
use mira_os.Kernel.Pmm.{Pmm}
use mira_os.Kernel.Pmm.Bitmap.{IsBytes}
use mira_os.Kernel.Pmm.Alloc.{in_use, InRange}
use mira_os.Arch.Paging.{
  Words, BootTables, pml4_index, pdpt_index, pd_index, address_of, paging_init, table_alloc,
  paging_map_page,
}
use mira_os.Arch.Paging.BootWords.{only_first}
use mira_os.Arch.Paging.Init.{IsPlaced, words_pml4, words_pdpt, words_pd}
use mira_os.Arch.Paging.Alloc.{needs_table, walk-needs, map_page-none, table_alloc-none}

module _ (b : BootTables) (q : Pmm) (w : Words) (placed : IsPlaced b w) where
  needs_table-init :
      (v : ℕ)
      → (v / 2 ^ 21 % 2 ^ 27 == 0) ≡ false
      → needs_table (paging_init b q w).words b.pml4 v ≡ true
  unfolding needs_table pml4_index pdpt_index pd_index
  needs_table-init v high =
      let (a3, a2, a1, n4, n3, n2, n1, d43, d42, d41, d32, d31, d21, z3, z2) = placed in
      let s = paging_init b q w in
      let e4 = s.words b.pml4 (pml4_index v) in
      let e3 = s.words (address_of e4) (pdpt_index v) in
      let e2 = s.words (address_of e3) (pd_index v) in
      let (p4, f4, t4) =
        only_first e4 b.pdpt (pml4_index v) (words_pml4 b q w placed _ (omega arith)) a3 in
      elim (Bool-cases (pml4_index v == 0)) [
        | inr other ↦ ground arith
        | inl first4 ↦
            let eq3 =
              ap (λ a. s.words a (pdpt_index v)) (t4 first4)
              ∙ words_pdpt b q w placed (pdpt_index v) in
            let (p3, f3, t3) = only_first e3 b.pd (pdpt_index v) eq3 a2 in
            elim (Bool-cases (pdpt_index v == 0)) [
              | inr other ↦ ground arith
              | inl first3 ↦
                  let eq2 =
                    ap (λ a. s.words a (pd_index v)) (t3 first3)
                    ∙ words_pd b q w placed (pd_index v) in
                  let (p2, f2, t2) = only_first e2 b.pt (pd_index v) eq2 a1 in
                  elim (Bool-cases (pd_index v == 0)) [
                    | inr other ↦ ground arith
                    | inl first2 ↦ absurd (ground arith)
                  ]
            ]
      ]

  -- After `paging_init`, where every free page lies above the first 2 MB, `table_alloc` returns no table and
  -- `paging_map_page` maps no address above 2 MB, however many pages are free and however deep the recursion
  -- may go.
  pub paging_map_page-none :
      (f v phys flags : ℕ)
      → IsBytes q.page_bitmap
      → ((p : ℕ) → InRange q p → in_use q p ≡ false → (2 ^ 9 ≤ p) × (p < 2 ^ 36))
      → 2 ^ 21 ≤ v
      → v < 2 ^ 48
      → (table_alloc f (paging_init b q w) ≡ none)
        × (paging_map_page f v phys flags (paging_init b q w) ≡ none)
  unfolding paging_init paging_map_page
  paging_map_page-none f v phys flags bytes above low high =
      let s = paging_init b q w in
      let none_left = table_alloc-none f s bytes (λ p range free.
        let (from, to) = above p range free in
        let beyond : (p * 4096 / 2 ^ 21 % 2 ^ 27 == 0) ≡ false = ground (arith, from, to) in
        needs_table-init (p * 4096) beyond) in
      let beyond : (v / 2 ^ 21 % 2 ^ 27 == 0) ≡ false = ground (arith, low, high) in
      (
        none_left,
        map_page-none (table_alloc f) v phys flags s
            (walk-needs (table_alloc f) v s (needs_table-init v beyond) none_left),
      )
