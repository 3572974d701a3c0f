-- ===== src/Arch/Paging.antt =====
-- arch/x86_64/paging.c: page tables of 512 words. A table is named by its physical address, at which the
-- code reaches it since the tables' pages are mapped to themselves; its words are a function of the index.
-- `invlpg` and the control registers only tell the processor what the tables say.
pub mod Tree
pub mod Entries
pub mod Mapping
pub mod BootWords
pub mod Init
pub mod Alloc
pub mod Exhausted
use mira_os.Base.{
  ℕ, zero, suc, ◌+◌, ◌*◌, ◌/◌, ◌%◌, ◌^◌, Bool, true, false, ◌==◌, ◌&&◌, if◌then◌else◌, Option, none,
  some, bit_or,
}
use mira_os.Kernel.Pmm.{Pmm, pmm_alloc_page}

-- The words of each table, by the table's address and the index.
abbrev pub Words : Type 0
Words = ℕ → ℕ → ℕ

pub record Paging : Type 0 where
  pub pmm : Pmm
  pub words : Words
  pub pml4_root : ℕ

abbrev pub heap_virt_base : ℕ
heap_virt_base = 0x4000_0000

-- `(v >> 39) & 0x1FF`, and so on
unfoldable pub pml4_index : ℕ → ℕ
pml4_index v = v / 2 ^ 39 % 512

unfoldable pub pdpt_index : ℕ → ℕ
pdpt_index v = v / 2 ^ 30 % 512

unfoldable pub pd_index : ℕ → ℕ
pd_index v = v / 2 ^ 21 % 512

unfoldable pub pt_index : ℕ → ℕ
pt_index v = v / 2 ^ 12 % 512

-- `e & PAGE_PRESENT`, `e & PAGE_SIZE_FLAG` and `e & ~0xFFF`
unfoldable pub page_present : ℕ → Bool
page_present e = e % 2 == 1

unfoldable pub page_size_flag : ℕ → Bool
page_size_flag e = e / 2 ^ 7 % 2 == 1

unfoldable pub address_of : ℕ → ℕ
address_of e = e / 4096 * 4096

-- `e | PAGE_PRESENT | PAGE_WRITE`
unfoldable pub present_write : ℕ → ℕ
present_write e = bit_or (bit_or e 1) 2

unfoldable pub set_word : ℕ → ℕ → ℕ → Words → Words
set_word t i v w a j = if (a == t) && (j == i) then v else w a j

-- `for (i = 0; i < 512; i++) t[i] = 0`, with the rounds left.
unfoldable pub clear_words : ℕ → ℕ → ℕ → Words → Words
clear_words zero i t w = w
clear_words (suc n) i t w = clear_words n (i + 1) t (set_word t i 0 w)

-- What allocates a table: `none` is the panic "paging oom".
abbrev pub TableAlloc : Type 0
TableAlloc = Paging → Option (ℕ × Paging)

-- The table below the entry `i` of the table `t`: one step of `walk`. The inner `none` is its `return 0`.
-- `level_pd` is the third step, which refuses an entry that maps a large page.
unfoldable pub level : TableAlloc → Bool → ℕ → ℕ → Paging → Option (Option ℕ × Paging)
level alloc create t i s =
    if page_present (s.words t i)
    then some (some (address_of (s.words t i)), s)
    else if create
    then elim (alloc s) [
      | none ↦ none
      | some r ↦
          some (some (r.0), record (r.1) { words = set_word t i (present_write (r.0)) (r.1.words) })
    ]
    else some (none, s)

unfoldable pub level_pd : TableAlloc → Bool → ℕ → ℕ → Paging → Option (Option ℕ × Paging)
level_pd alloc create t i s =
    if page_present (s.words t i) && page_size_flag (s.words t i)
    then some (none, s)
    else level alloc create t i s

-- What follows a step of `walk` that found a table.
unfoldable pub continue :
    Option (Option ℕ × Paging)
    → (ℕ → Paging → Option (Option ℕ × Paging))
    → Option (Option ℕ × Paging)
continue none k = none
continue (some (none, s)) k = some (none, s)
continue (some (some t, s)) k = k t s

-- `create` is the argument `create`; the result `some 0` is the pointer NULL.
unfoldable pub walk : TableAlloc → ℕ → Bool → Paging → Option (ℕ × Paging)
walk alloc virt create s =
    let pdpt = level alloc create s.pml4_root (pml4_index virt) s in
    let pd = continue pdpt (λ t. level alloc create t (pdpt_index virt)) in
    let pt = continue pd (λ t. level_pd alloc create t (pd_index virt)) in
    elim pt [ none ↦ none | some r ↦ elim (r.0) [ none ↦ some (0, r.1) | some t ↦ some (t, r.1) ] ]

-- `paging_map_page` over the allocation of tables; `none` is a panic. The result is the address `virt`.
unfoldable pub map_page : TableAlloc → ℕ → ℕ → ℕ → Paging → Option (ℕ × Paging)
map_page alloc virt phys flags s = elim (walk alloc virt true s) [
  | none ↦ none
  | some r ↦
      if r.0 == 0
      then none
      else some (
        virt,
        record (r.1) {
          words =
              set_word (r.0) (pt_index virt) (present_write (bit_or (address_of phys) flags))
                (r.1.words);
        },
      )
]

-- On fuel: `table_alloc` and `paging_map_page` call each other.
unfoldable pub table_alloc : ℕ → TableAlloc
table_alloc zero s = none
table_alloc (suc f) s =
    let next : Paging = record s { pmm = (pmm_alloc_page s.pmm).1 } in
    elim ((pmm_alloc_page s.pmm).0) [
      | none ↦ none
      | some phys ↦ elim (map_page (table_alloc f) phys phys 0 next) [
        | none ↦ none
        | some r ↦ some (phys, record (r.1) { words = clear_words 512 0 phys (r.1.words) })
      ]
    ]

unfoldable pub paging_map_page : ℕ → ℕ → ℕ → ℕ → Paging → Option (ℕ × Paging)
paging_map_page f = map_page (table_alloc f)

-- Without `create` no table is allocated.
unfoldable pub find_table : ℕ → Paging → ℕ
find_table virt s = elim (walk (λ t. none) virt false s) [ none ↦ 0 | some r ↦ r.0 ]

unfoldable pub paging_unmap_page : ℕ → Paging → Paging
paging_unmap_page virt s =
    let pt = find_table virt s in
    if pt == 0 then s else record s { words = set_word pt (pt_index virt) 0 s.words }

unfoldable pub paging_virt_to_phys : ℕ → Paging → ℕ
paging_virt_to_phys virt s =
    let pt = find_table virt s in
    let entry = s.words pt (pt_index virt) in
    if pt == 0 then 0 else if page_present entry then address_of entry + virt % 4096 else 0

unfoldable pub paging_heap_base : ℕ
paging_heap_base = heap_virt_base

-- `for (i = 0; i < 512; i++) boot_pt[i] = i * PAGE_SIZE | ...`, from index `i`, with the rounds left.
unfoldable pub boot_entries : ℕ → ℕ → ℕ → Words → Words
boot_entries zero i t w = w
boot_entries (suc n) i t w = boot_entries n (i + 1) t (set_word t i (present_write (i * 4096)) w)

-- The addresses of the static tables, which the linker gives.
pub record BootTables : Type 0 where
  pub pml4 : ℕ
  pub pdpt : ℕ
  pub pd : ℕ
  pub pt : ℕ

unfoldable pub paging_init : BootTables → Pmm → Words → Paging
paging_init b q w = record {
  pmm = q;
  words = set_word b.pml4 0 (present_write b.pdpt) (
      set_word b.pdpt 0 (present_write b.pd) (
        set_word b.pd 0 (present_write b.pt)
          (boot_entries 512 0 b.pt (clear_words 512 0 b.pml4 w))));
  pml4_root = b.pml4;
}
