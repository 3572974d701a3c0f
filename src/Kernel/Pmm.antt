-- ===== src/Kernel/Pmm.antt =====
-- kernel/mem.c: the physical page allocator, a bitmap with one bit for each page of 4096 bytes, set
-- while the page is in use. The bitmap's bytes are a function of the index: what stands at an index
-- above the array's end is whatever follows the array in memory.
pub mod Bitmap
pub mod Alloc
pub mod Owners
use mira_os.Base.{
  ℕ, zero, suc, ◌+◌, ◌-◌, ◌*◌, ◌/◌, ◌%◌, Bool, ◌==◌, ltb, if◌then◌else◌, Option, none, some, not,
  has_bit, set_bit, clear_bit,
}
use mira_os.Common.Memory.{Memory, poke, memset}
use mira_os.Kernel.Words.{add64, sub64, add32, read_u32, read_u64}

abbrev pub max_phys_pages : ℕ
max_phys_pages = 131072

abbrev pub bitmap_size : ℕ
bitmap_size = (max_phys_pages + 7) / 8

pub record Pmm : Type 0 where
  pub page_bitmap : Memory
  pub total_pages : ℕ
  pub free_pages : ℕ
  pub mem_start : ℕ
  pub mem_end : ℕ

-- A multiboot tag's size is rounded up to 8 bytes; the size is a `uint32_t`.
unfoldable pub mbi_next : Memory → ℕ → ℕ
mbi_next m tag = tag + add32 (read_u32 m (tag + 4)) 7 / 8 * 8

unfoldable pub bitmap_set : Memory → ℕ → Memory
bitmap_set bm page = poke bm (page / 8) (set_bit (bm (page / 8)) (page % 8))

unfoldable pub bitmap_clear : Memory → ℕ → Memory
bitmap_clear bm page = poke bm (page / 8) (clear_bit (bm (page / 8)) (page % 8))

unfoldable pub bitmap_test : Memory → ℕ → Bool
bitmap_test bm page = has_bit (bm (page / 8)) (page % 8)

-- `for (p = start; p < end; p++) bitmap_set(p);` with the rounds left.
unfoldable pub set_pages : ℕ → ℕ → Memory → Memory
set_pages zero p bm = bm
set_pages (suc n) p bm = set_pages n (p + 1) (bitmap_set bm p)

unfoldable pub reserve_region : ℕ → ℕ → Memory → Memory
reserve_region base length bm =
    let start_page = base / 4096 in
    let end_page = add64 (add64 base length) 4095 / 4096 in
    set_pages (end_page - start_page) start_page bm

-- The loop over the pages of one usable region, with the rounds left.
unfoldable pub free_region : ℕ → ℕ → Pmm → Pmm
free_region zero p s = s
free_region (suc n) p s = free_region n (p + 1) (record s {
  page_bitmap = bitmap_clear s.page_bitmap p;
  total_pages = add64 s.total_pages 1;
  free_pages = add64 s.free_pages 1;
})

-- One entry of the memory map, at `e`.
unfoldable pub add_entry : Memory → ℕ → Pmm → Pmm
add_entry m e s =
    let base = read_u64 m e in
    let end = add64 base (read_u64 m (e + 8)) in
    let start_page = base / 4096 in
    if read_u32 m (e + 16) == 1
    then free_region (end / 4096 - start_page) start_page
        (record s { mem_end = if ltb s.mem_end end then end else s.mem_end })
    else s

-- The entries from `entry` up to `stop`, on fuel: an `entry_size` of 0 never ends.
unfoldable pub add_entries : ℕ → Memory → ℕ → ℕ → ℕ → Pmm → Option Pmm
add_entries zero m entry stop entry_size s = none
add_entries (suc f) m entry stop entry_size s =
    let rest = add_entries f m (entry + entry_size) stop entry_size (add_entry m entry s) in
    if ltb entry stop then rest else some s

-- The loop over the tags, on fuel.
unfoldable pub read_tags : ℕ → Memory → ℕ → Pmm → Option Pmm
read_tags zero m tag s = none
read_tags (suc f) m tag s =
    let kind = read_u32 m tag in
    let entries =
      add_entries f m (tag + 16) (tag + read_u32 m (tag + 4)) (read_u32 m (tag + 8)) s in
    let next = λ (t : Pmm). read_tags f m (mbi_next m tag) t in
    if kind == 0
    then some s
    else if kind == 6
    then elim entries [ none ↦ none | some t ↦ next t ]
    else next s

-- `bitmap` is the address of `page_bitmap`, which the linker gives.
unfoldable pub pmm_init : ℕ → Memory → ℕ → ℕ → Memory → Option Pmm
pmm_init f m mbi bitmap old =
    let start : Pmm = record {
      page_bitmap = memset 0 0xFF bitmap_size old;
      total_pages = 0;
      free_pages = 0;
      mem_start = 0x10_0000;
      mem_end = 0;
    } in
    elim (read_tags f m (mbi + 8) start) [
      | none ↦ none
      | some s ↦ some (record s {
        page_bitmap = reserve_region bitmap bitmap_size (reserve_region 0 0x10_0000 s.page_bitmap);
      })
    ]

-- The first page from `p` on that is not in use, with the rounds left.
unfoldable pub first_free : ℕ → ℕ → Memory → Option ℕ
first_free zero p bm = none
first_free (suc n) p bm =
    let rest = first_free n (p + 1) bm in if not (bitmap_test bm p) then some p else rest

-- `none` is the pointer NULL.
unfoldable pub pmm_alloc_page : Pmm → Option ℕ × Pmm
pmm_alloc_page s =
    elim (first_free (s.mem_end / 4096 - s.mem_start / 4096) (s.mem_start / 4096) s.page_bitmap) [
      | none ↦ (none, s)
      | some p ↦ (
        some (p * 4096),
        record s { page_bitmap = bitmap_set s.page_bitmap p; free_pages = sub64 s.free_pages 1 },
      )
    ]

unfoldable pub pmm_free_page : ℕ → Pmm → Pmm
pmm_free_page page s =
    let p = page / 4096 in
    if bitmap_test s.page_bitmap p
    then record s { page_bitmap = bitmap_clear s.page_bitmap p; free_pages = add64 s.free_pages 1 }
    else s

unfoldable pub pmm_total_pages : Pmm → ℕ
pmm_total_pages s = s.total_pages

unfoldable pub pmm_free_count : Pmm → ℕ
pmm_free_count s = s.free_pages
