-- ===== src/Arch/Paging/Alloc.antt =====
-- `table_alloc` maps the page of the new table to itself, through `paging_map_page`, which needs the table of
-- that page.
use mira_os.Base.{
  ℕ, zero, suc, ◌*◌, ◌-◌, ◌/◌, ◌≡◌, refl, inl, inr, Bool, true, false, if◌then◌else◌, arith, not,
  none, some, Option-cases,
}
use mira_os.Kernel.Pmm.{Pmm, pmm_alloc_page, first_free}
use mira_os.Kernel.Pmm.Bitmap.{IsBytes}
use mira_os.Kernel.Pmm.Alloc.{in_use, InRange, pmm_alloc_page-some}
use mira_os.Kernel.Pmm.Owners.{pmm_alloc_page-IsBytes}
use mira_os.Arch.Paging.{
  Paging, Words, TableAlloc, pml4_index, pdpt_index, pd_index, page_present, address_of, level,
  level_pd, continue, walk, map_page, table_alloc,
}

-- The page has no table: an entry on its path is absent, so that a walk has to allocate.
unfoldable pub needs_table : Words → ℕ → ℕ → Bool
needs_table w root v =
    let e4 = w root (pml4_index v) in
    let e3 = w (address_of e4) (pdpt_index v) in
    let e2 = w (address_of e3) (pd_index v) in
    if page_present e4 then if page_present e3 then not (page_present e2) else true else true

pub walk-needs :
    (alloc : TableAlloc) (v : ℕ) (s : Paging)
    → needs_table s.words s.pml4_root v ≡ true
    → alloc s ≡ none
    → walk alloc v true s ≡ none
unfolding needs_table walk level level_pd continue
walk-needs alloc v s h e = ground arith

-- Every page that the allocator can still hand out needs a table.
abbrev pub NoTables : Paging → Type 0
NoTables s =
    (p : ℕ)
    → InRange s.pmm p
    → in_use s.pmm p ≡ false
    → needs_table s.words s.pml4_root (p * 4096) ≡ true

pub map_page-none :
    (alloc : TableAlloc) (v phys flags : ℕ) (s : Paging)
    → walk alloc v true s ≡ none
    → map_page alloc v phys flags s ≡ none
unfolding map_page
map_page-none alloc v phys flags s h = ground arith

alloc_keeps_range :
    (s : Pmm)
    → ((pmm_alloc_page s).1.mem_start ≡ s.mem_start) × ((pmm_alloc_page s).1.mem_end ≡ s.mem_end)
unfolding pmm_alloc_page
alloc_keeps_range s =
    elim (Option-cases
      (first_free (s.mem_end / 4096 - s.mem_start / 4096) (s.mem_start / 4096) s.page_bitmap)) [
        | inl e ↦ (ground arith, ground arith)
        | inr (p, e) ↦ (ground arith, ground arith)
      ]

table_alloc-suc :
    (f : ℕ) (s : Paging) (a : ℕ)
    → (pmm_alloc_page s.pmm).0 ≡ some a
    → map_page (table_alloc f) a a 0 (record s { pmm = (pmm_alloc_page s.pmm).1 }) ≡ none
    → table_alloc (suc f) s ≡ none
unfolding table_alloc
table_alloc-suc f s a h e = ground arith

table_alloc-empty :
    (f : ℕ) (s : Paging) → (pmm_alloc_page s.pmm).0 ≡ none → table_alloc (suc f) s ≡ none
unfolding table_alloc
table_alloc-empty f s h = ground arith

-- When no free page has its table, `table_alloc` returns no table on any fuel.
pub table_alloc-none :
    (f : ℕ) (s : Paging) → IsBytes (s.pmm).page_bitmap → NoTables s → table_alloc f s ≡ none
unfolding table_alloc
table_alloc-none zero s bytes h = refl
table_alloc-none (suc f) s bytes h = elim (Option-cases ((pmm_alloc_page s.pmm).0)) [
  | inl e ↦ table_alloc-empty f s e
  | inr (a, e) ↦
      let next : Paging = record s { pmm = (pmm_alloc_page s.pmm).1 } in
      let (p, page, range, unused, below, marks) = pmm_alloc_page-some s.pmm a bytes e in
      let (start, end) = alloc_keeps_range s.pmm in
      let bytes' = pmm_alloc_page-IsBytes s.pmm bytes in
      let needs : needs_table s.words s.pml4_root a ≡ true = rw page (h p range unused) in
      let stuck = table_alloc-none f next bytes' (λ q (low, high) free.
        h q (omega (arith, low, start), omega (arith, high, end)) (ground (arith, marks q))) in
      table_alloc-suc f s a e
        (map_page-none (table_alloc f) a a 0 next (walk-needs (table_alloc f) a next needs stuck))
]
