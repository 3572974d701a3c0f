-- ===== src/Kernel/Loader.antt =====
-- kernel/bin: the loader of the container format. The fields of the packed header and of a section's
-- descriptor are read from the byte memory at their offsets. `image_flags`, `load_base` and `name_table_off`
-- are never read.
pub mod Fields
pub mod Hash
pub mod Validate
pub mod Pages
pub mod Round
pub mod Section
pub mod Load
pub mod Elf
use mira_os.Base.{
  ℕ, zero, suc, ◌+◌, ◌-◌, ◌*◌, ◌%◌, ◌^◌, Bool, true, false, ◌==◌, ◌&&◌, ◌||◌, not, ltb, leb,
  if◌then◌else◌, Option, none, some, bit_or, bit_xor,
}
use mira_os.Common.Memory.{Memory, memset, copy_up}
use mira_os.Kernel.Words.{add64, mul64, read_u16, read_u32, read_u64}
use mira_os.Kernel.Pmm.{pmm_alloc_page}
use mira_os.Arch.Paging.{Paging, paging_map_page, paging_virt_to_phys}

abbrev pub mira_bin_magic : ℕ
mira_bin_magic = 0x4D4_9584_5582

-- `sizeof(mira_bin_header_t)` and `sizeof(mira_sect_desc_t)`
abbrev pub header_bytes : ℕ
header_bytes = 64

abbrev pub sect_desc_bytes : ℕ
sect_desc_bytes = 40

pub record Header : Type 0 where
  pub magic : ℕ
  pub abi_version : ℕ
  pub kind : ℕ
  pub header_size : ℕ
  pub entry_point : ℕ
  pub sect_count : ℕ
  pub sect_table_off : ℕ
  pub checksum : ℕ

unfoldable pub read_header : Memory → ℕ → Header
read_header m a = record {
  magic = read_u64 m a;
  abi_version = read_u16 m (a + 8);
  kind = read_u16 m (a + 10);
  header_size = read_u32 m (a + 12);
  entry_point = read_u64 m (a + 20);
  sect_count = read_u32 m (a + 36);
  sect_table_off = read_u64 m (a + 40);
  checksum = read_u64 m (a + 56);
}

pub record SectDesc : Type 0 where
  pub sect_type : ℕ
  pub sect_flags : ℕ
  pub vaddr : ℕ
  pub memsz : ℕ
  pub filesz : ℕ
  pub file_off : ℕ

unfoldable pub read_sect : Memory → ℕ → SectDesc
read_sect m a = record {
  sect_type = read_u32 m a;
  sect_flags = read_u32 m (a + 4);
  vaddr = read_u64 m (a + 8);
  memsz = read_u64 m (a + 16);
  filesz = read_u64 m (a + 24);
  file_off = read_u64 m (a + 32);
}

-- One round of the checksum: `h ^= byte; h *= 1099511628211`.
unfoldable pub hash_byte : ℕ → ℕ → ℕ
hash_byte h byte = mul64 (bit_xor h byte) 1099511628211

-- The bytes from `a` on, with the rounds left.
unfoldable pub hash_bytes : ℕ → ℕ → Memory → ℕ → ℕ
hash_bytes zero a m h = h
hash_bytes (suc n) a m h = hash_bytes n (a + 1) m (hash_byte h (m a))

abbrev pub hash_start : ℕ
hash_start = 1469598103934665603

unfoldable pub mira_checksum64 : Memory → ℕ → ℕ → ℕ
mira_checksum64 m file size = hash_bytes size file m hash_start

-- The copy `tmp` of the header with `checksum` 0, as bytes from 0 on.
unfoldable pub zeroed_header : Memory → ℕ → Memory
zeroed_header m file i = if leb 56 i && ltb i 64 then 0 else m (file + i)

-- The checksum that both validators compute, of a file of at least 64 bytes.
unfoldable pub file_checksum : Memory → ℕ → ℕ → ℕ
file_checksum m file size =
    hash_bytes (size - header_bytes) (file + header_bytes) m
      (hash_bytes header_bytes 0 (zeroed_header m file) hash_start)

-- kernel/bin/mira_bin_validate.c
unfoldable pub mira_validate_header : Memory → ℕ → ℕ → ℕ → Bool
mira_validate_header m file size expected_type =
    let hdr = read_header m file in
    if file == 0
    then false
    else if ltb size header_bytes
    then false
    else if not (hdr.magic == mira_bin_magic)
    then false
    else if not (hdr.abi_version == 1)
    then false
    else if not (hdr.kind == expected_type)
    then false
    else if ltb hdr.header_size header_bytes
    then false
    else if ltb 65535 hdr.sect_count
    then false
    else if ltb hdr.sect_table_off header_bytes
    then false
    else if leb size hdr.sect_table_off
    then false
    else if ltb size (add64 hdr.sect_table_off (hdr.sect_count * sect_desc_bytes))
    then false
    else file_checksum m file size == hdr.checksum

-- The validator of kernel/bin/mira_exec.c, which also refuses a larger header.
unfoldable pub exec_validate_header : Memory → ℕ → ℕ → ℕ → Bool
exec_validate_header m hdr_at size expected_type =
    let hdr = read_header m hdr_at in
    if hdr_at == 0
    then false
    else if not (hdr.magic == mira_bin_magic)
    then false
    else if not (hdr.abi_version == 1)
    then false
    else if not (hdr.kind == expected_type)
    then false
    else if ltb hdr.header_size header_bytes
    then false
    else if ltb 65535 hdr.sect_count
    then false
    else if ltb hdr.sect_table_off header_bytes
    then false
    else if leb size hdr.sect_table_off
    then false
    else if ltb size (add64 hdr.sect_table_off (hdr.sect_count * sect_desc_bytes))
    then false
    else if ltb header_bytes hdr.header_size
    then false
    else if ltb size header_bytes
    then false
    else file_checksum m hdr_at size == hdr.checksum

unfoldable pub mira_bin_is_valid : Memory → ℕ → ℕ → ℕ → Bool
mira_bin_is_valid m file size expected_type =
    if file == 0
    then false
    else if ltb size header_bytes
    then false
    else exec_validate_header m file size expected_type

-- PAGE_PRESENT, and PAGE_WRITE but for read-only data
unfoldable pub mira_flags_to_paging : ℕ → ℕ
mira_flags_to_paging sect_type = if sect_type == 2 then 1 else bit_or 1 2

-- The version of kernel/bin/mira_exec.c: text is not writable either.
unfoldable pub exec_flags_to_paging : ℕ → ℕ → ℕ
exec_flags_to_paging sect_type sect_flags =
    if (sect_type == 3) || ((sect_type == 4) || (sect_type == 1))
    then if not (sect_type == 1) then bit_or 1 2 else 1
    else 1

-- The page tables and the memory, in which a physical page stands at its address.
pub record Machine : Type 0 where
  pub paging : Paging
  pub ram : Memory

-- The bytes of the file that go into the page `page` of a section, from offset `j` of it.
unfoldable pub fill_page : ℕ → SectDesc → ℕ → ℕ → Memory → Memory
fill_page file sd j page m =
    let cleared = memset page 0 4096 m in
    let copy_left = sd.filesz - j in
    let copy = if ltb copy_left 4096 then copy_left else 4096 in
    if ltb j sd.filesz
    then copy_up copy 0 page (add64 (add64 file sd.file_off) j) cleared
    else cleared

-- The byte at an address is the one in memory at that address: the page is mapped to itself.
unfoldable pub is_reached : Paging → ℕ → Bool
unfolding paging_virt_to_phys
is_reached s a = paging_virt_to_phys a s == a

-- The page and the bytes of the file that go into it, at most two pages of them, can be reached at their
-- addresses.
unfoldable pub can_fill : ℕ → SectDesc → ℕ → ℕ → Paging → Bool
unfolding is_reached
can_fill file sd j page s =
    let copy_left = sd.filesz - j in
    let copy = if ltb copy_left 4096 then copy_left else 4096 in
    let src = add64 (add64 file sd.file_off) j in
    is_reached s page
    && (if ltb j sd.filesz then is_reached s src && is_reached s (src + copy - 1) else true)

-- The loop over the pages of a section, on fuel, which also bounds the depth of `paging_map_page`; `none` is
-- a panic, as the page fault is at a page that is not mapped, a page that is mapped to another one, or a run
-- out of fuel.
unfoldable pub map_pages : ℕ → ℕ → ℕ → SectDesc → ℕ → ℕ → Machine → Option (Bool × Machine)
map_pages depth zero file sd flags j s = none
map_pages depth (suc f) file sd flags j s =
    let next : Paging = record (s.paging) { pmm = (pmm_alloc_page s.paging.pmm).1 } in
    let rest = map_pages depth f file sd flags (add64 j 4096) in
    if ltb j sd.memsz
    then elim ((pmm_alloc_page s.paging.pmm).0) [
      | none ↦ some (false, record s { paging = next })
      | some page ↦
          if not (can_fill file sd j page s.paging)
          then none
          else elim (paging_map_page depth (add64 sd.vaddr j) page (bit_or flags 2) next) [
            | none ↦ none
            | some r ↦ rest (record { paging = r.1; ram = fill_page file sd j page s.ram })
          ]
    ]
    else some (true, s)

-- The checks and the pages of one section, which both loaders share.
unfoldable pub map_section : ℕ → ℕ → ℕ → ℕ → SectDesc → ℕ → Machine → Option (Bool × Machine)
map_section depth f file size sd flags s =
    if ltb sd.memsz sd.filesz
    then some (false, s)
    else if ltb size (add64 sd.file_off sd.filesz)
    then some (false, s)
    else map_pages depth f file sd flags 0 s

-- kernel/bin/mira_bin_map.c; `sd` is the address of the descriptor.
unfoldable pub mira_map_section : ℕ → ℕ → ℕ → ℕ → ℕ → Machine → Option (Bool × Machine)
mira_map_section depth f file size sd s =
    if (file == 0) || (sd == 0)
    then some (false, s)
    else let desc = read_sect s.ram sd in
      map_section depth f file size desc (mira_flags_to_paging desc.sect_type) s
