-- ===== src/Tests/ArchTests.antt =====
-- Concrete runs of the parts in Arch, and their results at concrete inputs.
use mira_os.Base.{
  true, false, all_below, all_below_lem, Bool-cases, inl, inr, ◌≤◌, ℕ, ◌+◌, ◌<◌, ◌^◌, ◌%◌, ◌/◌, ◌≡◌,
  ◌≢◌, refl, Option, none, some, if◌then◌else◌, ltb, arith, ◌==◌, has_bit, set_bit,
}
use mira_os.Kernel.Pmm.{Pmm, pmm_alloc_page, first_free, bitmap_test, bitmap_set}
use mira_os.Arch.Paging.{
  Paging, BootTables, pml4_index, pdpt_index, pd_index, pt_index, page_present, page_size_flag,
  address_of, present_write, set_word, clear_words, level, level_pd, continue, walk, map_page,
  table_alloc, paging_map_page, find_table, paging_unmap_page, paging_virt_to_phys,
  paging_heap_base, boot_entries, paging_init,
}
use mira_os.Common.Memory.{poke}
use mira_os.Arch.Paging.Tree.{IsTree, page_of}
use mira_os.Arch.Paging.Init.{IsPlaced, boot_shape, paging_init-Tree}
use mira_os.Arch.Paging.Mapping.{paging_map_page-Tree, paging_unmap_page-Tree}
use mira_os.Arch.Paging.Exhausted.{paging_map_page-none}
use mira_os.Kernel.Pmm.Alloc.{in_use, InRange}

abbrev pub tables : BootTables
tables = record { pml4 = 0x10_5000; pdpt = 0x10_6000; pd = 0x10_7000; pt = 0x10_8000 }

-- A memory of 4 MB whose pages from `first` on are free; `first` is a multiple of 8.
abbrev pub memory : ℕ → Pmm
memory first = record {
  page_bitmap = λ i. if ltb i (first / 8) then 255 else 0;
  total_pages = 768;
  free_pages = 1024;
  mem_start = 0x10_0000;
  mem_end = 0x40_0000;
}

abbrev pub booted : ℕ → Paging
booted first = paging_init tables (memory first) (λ a j. 0)

pub placed : IsPlaced tables (λ a j. 0)
unfolding address_of
placed = (
  refl,
  refl,
  refl,
  (λ e. absurd (omega (arith, e))),
  (λ e. absurd (omega (arith, e))),
  (λ e. absurd (omega (arith, e))),
  (λ e. absurd (omega (arith, e))),
  (λ e. absurd (omega (arith, e))),
  (λ e. absurd (omega (arith, e))),
  (λ e. absurd (omega (arith, e))),
  (λ e. absurd (omega (arith, e))),
  (λ e. absurd (omega (arith, e))),
  (λ e. absurd (omega (arith, e))),
  λ i. refl,
  λ i. refl,
)

abbrev translated : Option (ℕ × Paging) → ℕ → ℕ
translated none v = 0
translated (some r) v = paging_virt_to_phys v (r.1)

-- The heap's first page is mapped: its two new tables come from the free pages below 2 MB.
run_map :
    translated (paging_map_page 3 paging_heap_base 0x30_0000 0 (booted 400)) 0x4000_0123 ≡ 0x30_0123
unfolding pml4_index pdpt_index pd_index pt_index page_present page_size_flag address_of
    present_write set_word clear_words level level_pd continue walk map_page table_alloc
    paging_map_page find_table paging_unmap_page paging_virt_to_phys paging_heap_base boot_entries
    paging_init pmm_alloc_page first_free bitmap_test bitmap_set poke has_bit set_bit
run_map = refl

-- With free pages only above 2 MB the same call panics.
run_panic : paging_map_page 20 paging_heap_base 0x30_0000 0 (booted 512) ≡ none
unfolding pml4_index pdpt_index pd_index pt_index page_present page_size_flag address_of
    present_write set_word clear_words level level_pd continue walk map_page table_alloc
    paging_map_page find_table paging_unmap_page paging_virt_to_phys paging_heap_base boot_entries
    paging_init pmm_alloc_page first_free bitmap_test bitmap_set poke has_bit set_bit
run_panic = refl

paging_init-Tree_example :
    IsTree (boot_shape tables) (booted 400)
    × ((v : ℕ)
        → v < 2 ^ 48
        → paging_virt_to_phys v (booted 400) ≡ (if ltb v 0x20_0000 then v else 0))
paging_init-Tree_example = paging_init-Tree tables (memory 400) (λ a j. 0) placed

booted-IsTree : IsTree (boot_shape tables) (booted 400)
booted-IsTree = (paging_init-Tree tables (memory 400) (λ a j. 0) placed).0

-- The boot tables already hold the table of 0x1F_F000.
stands : find_table 0x1F_F000 (booted 400) ≢ 0
unfolding pml4_index pdpt_index pd_index pt_index page_present page_size_flag address_of
    present_write set_word clear_words level level_pd continue walk map_page table_alloc
    paging_map_page find_table paging_unmap_page paging_virt_to_phys paging_heap_base boot_entries
    paging_init
stands e = absurd (omega (arith, e))

paging_map_page-Tree_example :
    (s' : Paging) × (paging_map_page 0 0x1F_F000 0x30_0000 2 (booted 400) ≡ some (0x1F_F000, s'))
    × IsTree (boot_shape tables) s'
    × (s'.pmm ≡ memory 400)
    × ((w : ℕ) → find_table w s' ≡ find_table w (booted 400))
    × ((w : ℕ)
        → paging_virt_to_phys w s' ≡ (
            if page_of 0x1F_F000 == page_of w
            then address_of 0x30_0000 + w % 4096
            else paging_virt_to_phys w (booted 400)))
unfolding paging_init
paging_map_page-Tree_example =
    paging_map_page-Tree 0 (boot_shape tables) (booted 400) 0x1F_F000 0x30_0000 2 booted-IsTree
      stands (omega arith)

paging_unmap_page-Tree_example :
    IsTree (boot_shape tables) (paging_unmap_page 0x1F_F000 (booted 400))
    × ((w : ℕ)
        → paging_virt_to_phys w (paging_unmap_page 0x1F_F000 (booted 400))
          ≡ (if page_of 0x1F_F000 == page_of w then 0 else paging_virt_to_phys w (booted 400)))
paging_unmap_page-Tree_example =
    paging_unmap_page-Tree (boot_shape tables) (booted 400) 0x1F_F000 booted-IsTree

-- The pages from 512 on, those above 2 MB, are free.
full_bits : all_below 8 (has_bit 255) ≡ true
unfolding all_below has_bit
full_bits = refl

free_above :
    (p : ℕ) → InRange (memory 512) p → in_use (memory 512) p ≡ false → (2 ^ 9 ≤ p) × (p < 2 ^ 36)
unfolding bitmap_test
free_above p range free = elim (Bool-cases (ltb (p / 8) 64)) [
  | inl below ↦
      let used : in_use (memory 512) p ≡ true =
        rw below (all_below_lem 8 (has_bit 255) (p % 8) full_bits (omega arith)) in
      absurd (ground (arith, free, used))
  | inr from ↦ (ground (arith, from), omega (arith, range.1))
]

paging_map_page-none_example :
    (table_alloc 9 (booted 512) ≡ none)
    × (paging_map_page 9 0x4000_0000 0x30_0000 0 (booted 512) ≡ none)
paging_map_page-none_example =
    paging_map_page-none tables (memory 512) (λ a j. 0) placed 9 0x4000_0000 0x30_0000 0
      (λ i. ground arith) free_above (omega arith) (omega arith)
