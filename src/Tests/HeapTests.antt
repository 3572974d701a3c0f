-- ===== src/Tests/HeapTests.antt =====
-- kernel/heap.c at concrete inputs.
use mira_os.Base.{
  ℕ, ◌^◌, ◌+◌, ◌*◌, ◌≡◌, ◌≤◌, refl, inl, false, Option, none, some, if◌then◌else◌, arith, ◌==◌, [],
  has_bit, set_bit,
}
use mira_os.Common.Memory.{poke}
use mira_os.Kernel.Pmm.{pmm_alloc_page, first_free, bitmap_test, bitmap_set}
use mira_os.Arch.Paging.{
  pml4_index, pdpt_index, pd_index, pt_index, page_present, page_size_flag, address_of,
  present_write, set_word, clear_words, level, level_pd, continue, walk, map_page, table_alloc,
  paging_map_page, find_table, paging_unmap_page, paging_virt_to_phys, paging_heap_base,
  boot_entries, paging_init,
}
use mira_os.Kernel.Heap.{
  Heap, block_size, is_free, next_block, prev_block, set_free, slab_cache, slab_init, link_objects,
  slab_pop, slab_alloc, in_cache, heap_map_more, write_block, heap_init, set_prev, split_block,
  merge_next, merge_prev, merge_adjacent, find_fit, find_tail, round_size, add_area, take_block,
  kmalloc, kfree, copy_words, low_bytes, copy_bytes, krealloc, zero_words, kcalloc, sum_used,
  heap_used, heap_total,
}
use mira_os.Kernel.Heap.Blocks.{in_header}
use mira_os.Kernel.Heap.RoundTrip.{kfree-kmalloc}
use mira_os.Kernel.Heap.Growth.{kmalloc-NoRoom}
use mira_os.Tests.ArchTests.{booted}

-- The heap before it is set up, over the page tables at the start.
abbrev unset : Heap
unset = record {
  words = λ a. 0;
  heap_head = 0;
  heap_mapped = 0;
  heap_virt_base = 0;
  slab_caches = [];
  paging = booted 400;
}

-- One free block of 4064 bytes.
abbrev one_block : Heap
one_block = record {
  words = λ a. if a == 0x4000_0000 then 4064 else if a == 0x4000_0008 then 1 else 0;
  heap_head = 0x4000_0000;
  heap_mapped = 4096;
  heap_virt_base = 0x4000_0000;
  slab_caches = [];
  paging = booted 400;
}

kfree-kmalloc_example :
    (h' : Heap) × (kmalloc 3 1 2000 one_block ≡ some (0x4000_0000 + 32, h'))
    × (is_free h'.words 0x4000_0000 ≡ false)
    × (2000 ≤ block_size h'.words 0x4000_0000)
    × ((x : ℕ)
        → in_header (0x4000_0000 + 32 + round_size 2000) x ≡ false
        → (kfree (0x4000_0000 + 32) h').words x ≡ one_block.words x)
unfolding find_fit is_free block_size next_block round_size
kfree-kmalloc_example =
    kfree-kmalloc 3 0 2000 one_block 0x4000_0000 (omega arith) (omega arith) refl
      (omega arith, refl, inl refl, inl refl)

kmalloc-NoRoom_example : kmalloc 3 7 5000 one_block ≡ none
unfolding round_size
kmalloc-NoRoom_example =
    kmalloc-NoRoom 3 7 5000 1 one_block (omega arith) (omega arith)
      ((λ e. absurd (omega (arith, e))), omega arith, omega arith, inl refl, refl)
      (λ e. absurd (omega (arith, e))) (omega arith)

abbrev with_heap : (Heap → ℕ) → Option Heap → ℕ
with_heap f none = 0
with_heap f (some h) = f h

abbrev result : Option (ℕ × Heap) → ℕ
result none = 0
result (some r) = r.0

-- The heap set up on the boot tables, and then one object of 100 bytes.
run_object : with_heap (λ h. result (kmalloc 3 5 100 h)) (heap_init 3 5 unset) ≡ 0x4000_1000
unfolding block_size is_free next_block prev_block set_free slab_cache slab_init link_objects
    slab_pop slab_alloc in_cache heap_map_more write_block heap_init set_prev split_block merge_next
    merge_prev merge_adjacent find_fit find_tail round_size add_area take_block kmalloc kfree
    copy_words low_bytes copy_bytes krealloc zero_words kcalloc sum_used heap_used heap_total
    pml4_index pdpt_index pd_index pt_index page_present page_size_flag address_of present_write
    set_word clear_words level level_pd continue walk map_page table_alloc paging_map_page
    find_table paging_unmap_page paging_virt_to_phys paging_heap_base boot_entries paging_init
    pmm_alloc_page first_free bitmap_test bitmap_set poke has_bit set_bit
run_object = refl

-- The second object of a slab, given to `kfree`: the last 24 bytes of the first object, which hold 7 and 0,
-- are taken for a header, and its flag is set.
run_slab_free :
    elim (heap_init 3 5 unset) [
      | none ↦ 0
      | some h ↦ elim (kmalloc 3 5 32 h) [
        | none ↦ 0
        | some r ↦
            let used : Heap = record (r.1) { words = poke (r.1.words) (r.0 + 8) (7 * 2 ^ 32) } in
            (kfree (r.0 + 32) used).words (r.0 + 8)
      ]
    ]
    ≡ 7 * 2 ^ 32 + 1
unfolding block_size is_free next_block prev_block set_free slab_cache slab_init link_objects
    slab_pop slab_alloc in_cache heap_map_more write_block heap_init set_prev split_block merge_next
    merge_prev merge_adjacent find_fit find_tail round_size add_area take_block kmalloc kfree
    copy_words low_bytes copy_bytes krealloc zero_words kcalloc sum_used heap_used heap_total
    pml4_index pdpt_index pd_index pt_index page_present page_size_flag address_of present_write
    set_word clear_words level level_pd continue walk map_page table_alloc paging_map_page
    find_table paging_unmap_page paging_virt_to_phys paging_heap_base boot_entries paging_init
    pmm_alloc_page first_free bitmap_test bitmap_set poke has_bit set_bit
run_slab_free = refl

-- `nmemb * size` wraps to 16: an object of 32 bytes is given for 2 ^ 60 elements.
run_wrap :
    with_heap (λ h. result (kcalloc 3 5 (2 ^ 60 + 1) 16 h)) (heap_init 3 5 unset) ≡ 0x4000_1000
unfolding block_size is_free next_block prev_block set_free slab_cache slab_init link_objects
    slab_pop slab_alloc in_cache heap_map_more write_block heap_init set_prev split_block merge_next
    merge_prev merge_adjacent find_fit find_tail round_size add_area take_block kmalloc kfree
    copy_words low_bytes copy_bytes krealloc zero_words kcalloc sum_used heap_used heap_total
    pml4_index pdpt_index pd_index pt_index page_present page_size_flag address_of present_write
    set_word clear_words level level_pd continue walk map_page table_alloc paging_map_page
    find_table paging_unmap_page paging_virt_to_phys paging_heap_base boot_entries paging_init
    pmm_alloc_page first_free bitmap_test bitmap_set poke has_bit set_bit
run_wrap = refl

-- A block that grows moves, with its words, and the old one is free again.
run_realloc :
    with_heap
      (λ h.
        with_heap
          (λ g. g.words 0x4000_0490)
          (elim (krealloc 3 5 0x4000_0020 2000 (record h { words = poke h.words 0x4000_0020 99 })) [
            | none ↦ none
            | some q ↦ some (q.1)
          ]))
      (elim (kmalloc 3 5 1100 one_block) [ none ↦ none | some r ↦ some (r.1) ])
    ≡ 99
unfolding block_size is_free next_block prev_block set_free slab_cache slab_init link_objects
    slab_pop slab_alloc in_cache heap_map_more write_block heap_init set_prev split_block merge_next
    merge_prev merge_adjacent find_fit find_tail round_size add_area take_block kmalloc kfree
    copy_words low_bytes copy_bytes krealloc zero_words kcalloc sum_used heap_used heap_total
    pml4_index pdpt_index pd_index pt_index page_present page_size_flag address_of present_write
    set_word clear_words level level_pd continue walk map_page table_alloc paging_map_page
    find_table paging_unmap_page paging_virt_to_phys paging_heap_base boot_entries paging_init
    pmm_alloc_page first_free bitmap_test bitmap_set poke has_bit set_bit
run_realloc = refl

run_used :
    elim (kmalloc 3 5 1100 one_block) [ none ↦ none | some r ↦ heap_used 5 (r.1) ] ≡ some 1104
unfolding block_size is_free next_block prev_block set_free slab_cache slab_init link_objects
    slab_pop slab_alloc in_cache heap_map_more write_block heap_init set_prev split_block merge_next
    merge_prev merge_adjacent find_fit find_tail round_size add_area take_block kmalloc kfree
    copy_words low_bytes copy_bytes krealloc zero_words kcalloc sum_used heap_used heap_total
    pml4_index pdpt_index pd_index pt_index page_present page_size_flag address_of present_write
    set_word clear_words level level_pd continue walk map_page table_alloc paging_map_page
    find_table paging_unmap_page paging_virt_to_phys paging_heap_base boot_entries paging_init
    pmm_alloc_page first_free bitmap_test bitmap_set poke has_bit set_bit
run_used = refl

run_total : heap_total one_block ≡ 4096
unfolding block_size is_free next_block prev_block set_free slab_cache slab_init link_objects
    slab_pop slab_alloc in_cache heap_map_more write_block heap_init set_prev split_block merge_next
    merge_prev merge_adjacent find_fit find_tail round_size add_area take_block kmalloc kfree
    copy_words low_bytes copy_bytes krealloc zero_words kcalloc sum_used heap_used heap_total
    pml4_index pdpt_index pd_index pt_index page_present page_size_flag address_of present_write
    set_word clear_words level level_pd continue walk map_page table_alloc paging_map_page
    find_table paging_unmap_page paging_virt_to_phys paging_heap_base boot_entries paging_init
    pmm_alloc_page first_free bitmap_test bitmap_set poke has_bit set_bit
run_total = refl
