-- ===== src/Tests/LoaderTests.antt =====
-- kernel/bin and kernel/elf.c at concrete inputs.
use mira_os.Base.{
  ℕ, ◌+◌, ◌-◌, ◌≡◌, ◌<◌, refl, Bool, true, false, none, some, if◌then◌else◌, arith, ◌==◌, ◌&&◌,
  List, [], ◌∷◌, ltb, leb, get_or, replicate, ◌++◌, has_bit, set_bit, zero, suc,
}
use mira_os.Common.Memory.{Memory, poke, memset, memset_loop, copy_up}
use mira_os.Kernel.Words.{read_u16, read_u32, read_u64}
use mira_os.Kernel.Pmm.{Pmm, pmm_alloc_page, first_free, bitmap_test, bitmap_set}
use mira_os.Kernel.Pmm.Bitmap.{IsBytes}
use mira_os.Arch.Paging.{
  Paging, pml4_index, pdpt_index, pd_index, pt_index, page_present, page_size_flag, address_of,
  present_write, set_word, clear_words, level, level_pd, continue, walk, map_page, table_alloc,
  paging_map_page, find_table, paging_virt_to_phys, boot_entries, paging_init,
}
use mira_os.Kernel.Loader.{
  Machine, SectDesc, read_header, read_sect, hash_byte, hash_bytes, mira_checksum64, zeroed_header,
  file_checksum, mira_validate_header, exec_validate_header, mira_bin_is_valid,
  mira_flags_to_paging, exec_flags_to_paging, fill_page, is_reached, can_fill, map_pages,
  map_section, mira_map_section,
}
use mira_os.Kernel.Loader.Load.{load_sections, mira_load, mira_load_mex, mira_load_mdl}
use mira_os.Kernel.Loader.Elf.{
  read_program_header, elf_fill_page, elf_can_fill, elf_pages, elf_segments, elf_load,
}
use mira_os.Kernel.Loader.Validate.{mira_bin_is_valid-validate, mira_bin_is_valid-poke}
use mira_os.Tests.ArchTests.{booted, tables}

-- A file of 72 bytes at 1000 without sections: type 1, an entry at 0x40_0000, a section table at 64.
abbrev file_bytes : List ℕ → List ℕ
file_bytes checksum =
    (0x82 ∷ 0x55 ∷ 0x84 ∷ 0x95 ∷ 0xD4 ∷ 0x04 ∷ 0 ∷ 0 ∷ [])
    ++ (1 ∷ 0 ∷ 1 ∷ 0 ∷ 64 ∷ 0 ∷ 0 ∷ 0 ∷ 0 ∷ 0 ∷ 0 ∷ 0 ∷ [])
    ++ (0 ∷ 0 ∷ 0x40 ∷ 0 ∷ 0 ∷ 0 ∷ 0 ∷ 0 ∷ [])
    ++ replicate 12 0
    ++ (64 ∷ 0 ∷ 0 ∷ 0 ∷ 0 ∷ 0 ∷ 0 ∷ 0 ∷ [])
    ++ replicate 8 0
    ++ checksum
    ++ (1 ∷ 2 ∷ 3 ∷ 4 ∷ 5 ∷ 6 ∷ 7 ∷ 8 ∷ [])

abbrev all_bytes : List ℕ → Bool
all_bytes [] = true
all_bytes (x ∷ xs) = ltb x 256 && all_bytes xs

abbrev memory_of : List ℕ → Memory
memory_of bytes x = if leb 1000 x then get_or bytes (x - 1000) 0 else 0

abbrev file : Memory
file = memory_of (file_bytes (221 ∷ 79 ∷ 65 ∷ 89 ∷ 110 ∷ 96 ∷ 7 ∷ 250 ∷ []))

abbrev machine : Memory → Machine
machine m = record { paging = booted 400; ram = m }

get_or-bytes : (bytes : List ℕ) (i : ℕ) → all_bytes bytes ≡ true → get_or bytes i 0 < 256
get_or-bytes [] i h = omega arith
get_or-bytes (x ∷ xs) zero h = ground arith
get_or-bytes (x ∷ xs) (suc i) h = get_or-bytes xs i (ground arith)

file-IsBytes : IsBytes file
file-IsBytes i = ground (
  arith,
  get_or-bytes (file_bytes (221 ∷ 79 ∷ 65 ∷ 89 ∷ 110 ∷ 96 ∷ 7 ∷ 250 ∷ [])) (i - 1000) refl,
)

mira_bin_is_valid-validate_example :
    mira_bin_is_valid file 1000 72 1
    ≡ (mira_validate_header file 1000 72 1 && leb (read_header file 1000).header_size 64)
mira_bin_is_valid-validate_example = mira_bin_is_valid-validate file 1000 72 1

valid : mira_bin_is_valid file 1000 72 1 ≡ true
unfolding read_header read_sect hash_byte hash_bytes mira_checksum64 zeroed_header file_checksum
    mira_validate_header exec_validate_header mira_bin_is_valid mira_flags_to_paging
    exec_flags_to_paging fill_page is_reached can_fill map_pages map_section mira_map_section
    load_sections mira_load mira_load_mex mira_load_mdl read_program_header elf_fill_page
    elf_can_fill elf_pages elf_segments elf_load read_u16 read_u32 read_u64 poke memset memset_loop
    copy_up pml4_index pdpt_index pd_index pt_index page_present page_size_flag address_of
    present_write set_word clear_words level level_pd continue walk map_page table_alloc
    paging_map_page find_table paging_virt_to_phys boot_entries paging_init pmm_alloc_page
    first_free bitmap_test bitmap_set has_bit set_bit
valid = refl

mira_bin_is_valid-poke_example : mira_bin_is_valid (poke file (1000 + 66) 9) 1000 72 1 ≡ false
mira_bin_is_valid-poke_example =
    mira_bin_is_valid-poke file 1000 72 1 66 9 file-IsBytes (omega arith)
      (λ e. absurd (omega (arith, e))) (omega arith) valid

run_load :
    elim (mira_load_mex 3 5 1000 72 5000 (machine file)) [
      | none ↦ none
      | some r ↦ elim (r.0) [ none ↦ none | some i ↦ some i.entry_point ]
    ]
    ≡ some 0x40_0000
unfolding read_header read_sect hash_byte hash_bytes mira_checksum64 zeroed_header file_checksum
    mira_validate_header exec_validate_header mira_bin_is_valid mira_flags_to_paging
    exec_flags_to_paging fill_page is_reached can_fill map_pages map_section mira_map_section
    load_sections mira_load mira_load_mex mira_load_mdl read_program_header elf_fill_page
    elf_can_fill elf_pages elf_segments elf_load read_u16 read_u32 read_u64 poke memset memset_loop
    copy_up pml4_index pdpt_index pd_index pt_index page_present page_size_flag address_of
    present_write set_word clear_words level level_pd continue walk map_page table_alloc
    paging_map_page find_table paging_virt_to_phys boot_entries paging_init pmm_alloc_page
    first_free bitmap_test bitmap_set has_bit set_bit
run_load = refl

-- The same file is no module.
run_load_mdl :
    elim (mira_load_mdl 3 5 1000 72 5000 (machine file)) [
      | none ↦ true
      | some r ↦ elim (r.0) [ none ↦ false | some i ↦ true ]
    ]
    ≡ false
unfolding read_header read_sect hash_byte hash_bytes mira_checksum64 zeroed_header file_checksum
    mira_validate_header exec_validate_header mira_bin_is_valid mira_flags_to_paging
    exec_flags_to_paging fill_page is_reached can_fill map_pages map_section mira_map_section
    load_sections mira_load mira_load_mex mira_load_mdl read_program_header elf_fill_page
    elf_can_fill elf_pages elf_segments elf_load read_u16 read_u32 read_u64 poke memset memset_loop
    copy_up pml4_index pdpt_index pd_index pt_index page_present page_size_flag address_of
    present_write set_word clear_words level level_pd continue walk map_page table_alloc
    paging_map_page find_table paging_virt_to_phys boot_entries paging_init pmm_alloc_page
    first_free bitmap_test bitmap_set has_bit set_bit
run_load_mdl = refl

-- A section of 5000 bytes at 0x1F_0000, of which one byte comes from the file.
abbrev section : SectDesc
section = record {
  sect_type = 3;
  sect_flags = 0;
  vaddr = 0x1F_0000;
  memsz = 5000;
  filesz = 1;
  file_off = 64;
}

-- The pages from 400 to 495 are free, all of them below 2 MB.
abbrev low_pages : Pmm
low_pages = record {
  page_bitmap = λ i. if ltb i 50 then 255 else if leb 62 i then 255 else 0;
  total_pages = 256;
  free_pages = 96;
  mem_start = 0x10_0000;
  mem_end = 0x20_0000;
}

abbrev low : Paging
low = paging_init tables low_pages (λ a j. 0)

-- A page of a section, and one of an ELF segment, which keeps what stood in the page.
run_fill : fill_page 1064 section 0 4096 (λ x. if x == 1129 then 9 else 5) 4097 ≡ 0
unfolding read_header read_sect hash_byte hash_bytes mira_checksum64 zeroed_header file_checksum
    mira_validate_header exec_validate_header mira_bin_is_valid mira_flags_to_paging
    exec_flags_to_paging fill_page is_reached can_fill map_pages map_section mira_map_section
    load_sections mira_load mira_load_mex mira_load_mdl read_program_header elf_fill_page
    elf_can_fill elf_pages elf_segments elf_load read_u16 read_u32 read_u64 poke memset memset_loop
    copy_up pml4_index pdpt_index pd_index pt_index page_present page_size_flag address_of
    present_write set_word clear_words level level_pd continue walk map_page table_alloc
    paging_map_page find_table paging_virt_to_phys boot_entries paging_init pmm_alloc_page
    first_free bitmap_test bitmap_set has_bit set_bit
run_fill = refl

run_elf_fill :
    elf_fill_page 1000
      (record { kind = 1; offset = 64; vaddr = 0; filesz = 1; memsz = 5000 })
      0
      4096
      (λ x. if x == 1064 then 9 else 5)
      4097
    ≡ 5
unfolding read_header read_sect hash_byte hash_bytes mira_checksum64 zeroed_header file_checksum
    mira_validate_header exec_validate_header mira_bin_is_valid mira_flags_to_paging
    exec_flags_to_paging fill_page is_reached can_fill map_pages map_section mira_map_section
    load_sections mira_load mira_load_mex mira_load_mdl read_program_header elf_fill_page
    elf_can_fill elf_pages elf_segments elf_load read_u16 read_u32 read_u64 poke memset memset_loop
    copy_up pml4_index pdpt_index pd_index pt_index page_present page_size_flag address_of
    present_write set_word clear_words level level_pd continue walk map_page table_alloc
    paging_map_page find_table paging_virt_to_phys boot_entries paging_init pmm_alloc_page
    first_free bitmap_test bitmap_set has_bit set_bit
run_elf_fill = refl

-- The bytes "\x7FELF" and the machine x86-64, without program headers; and no ELF file.
run_elf :
    elim (elf_load 3 5 2000 8 (
      machine (
        poke
          (poke (poke (poke (poke (λ x. 0) 2000 0x7F) 2001 0x45) 2002 0x4C) 2003 0x46)
          2018
          0x3E))) [ none ↦ none | some r ↦ r.1 ]
    ≡ some 0
unfolding read_header read_sect hash_byte hash_bytes mira_checksum64 zeroed_header file_checksum
    mira_validate_header exec_validate_header mira_bin_is_valid mira_flags_to_paging
    exec_flags_to_paging fill_page is_reached can_fill map_pages map_section mira_map_section
    load_sections mira_load mira_load_mex mira_load_mdl read_program_header elf_fill_page
    elf_can_fill elf_pages elf_segments elf_load read_u16 read_u32 read_u64 poke memset memset_loop
    copy_up pml4_index pdpt_index pd_index pt_index page_present page_size_flag address_of
    present_write set_word clear_words level level_pd continue walk map_page table_alloc
    paging_map_page find_table paging_virt_to_phys boot_entries paging_init pmm_alloc_page
    first_free bitmap_test bitmap_set has_bit set_bit
run_elf = refl

run_flags :
    (mira_flags_to_paging 1 ≡ 3)
    × (exec_flags_to_paging 1 0 ≡ 1)
    × (mira_checksum64 (λ x. 97) 0 1 ≡ 0x44BD8AD473CD9906)
    × (elim (mira_map_section 3 5 1000 72 0 (machine file)) [ none ↦ true | some r ↦ r.0 ] ≡ false)
unfolding read_header read_sect hash_byte hash_bytes mira_checksum64 zeroed_header file_checksum
    mira_validate_header exec_validate_header mira_bin_is_valid mira_flags_to_paging
    exec_flags_to_paging fill_page is_reached can_fill map_pages map_section mira_map_section
    load_sections mira_load mira_load_mex mira_load_mdl read_program_header elf_fill_page
    elf_can_fill elf_pages elf_segments elf_load read_u16 read_u32 read_u64 poke memset memset_loop
    copy_up pml4_index pdpt_index pd_index pt_index page_present page_size_flag address_of
    present_write set_word clear_words level level_pd continue walk map_page table_alloc
    paging_map_page find_table paging_virt_to_phys boot_entries paging_init pmm_alloc_page
    first_free bitmap_test bitmap_set has_bit set_bit
run_flags = (refl, refl, refl, refl)
