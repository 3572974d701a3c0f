-- ===== src/Kernel/Loader/Elf.antt =====
-- kernel/elf.c: the loader of ELF files, which never reads the file's size.
use mira_os.Base.{
  ℕ, zero, suc, ◌+◌, ◌-◌, ◌&&◌, ◌*◌, Bool, true, false, ◌==◌, not, ltb, leb, if◌then◌else◌, Option,
  none, some, bit_or,
}
use mira_os.Common.Memory.{Memory, copy_up}
use mira_os.Kernel.Words.{add64, read_u16, read_u32, read_u64}
use mira_os.Kernel.Pmm.{pmm_alloc_page}
use mira_os.Arch.Paging.{Paging, paging_map_page}
use mira_os.Kernel.Loader.{is_reached, Machine}

-- elf_program_header_t
pub record ProgramHeader : Type 0 where
  pub kind : ℕ
  pub offset : ℕ
  pub vaddr : ℕ
  pub filesz : ℕ
  pub memsz : ℕ

unfoldable pub read_program_header : Memory → ℕ → ProgramHeader
read_program_header m a = record {
  kind = read_u32 m a;
  offset = read_u64 m (a + 8);
  vaddr = read_u64 m (a + 16);
  filesz = read_u64 m (a + 32);
  memsz = read_u64 m (a + 40);
}

-- The copy into the page at offset `j` of a segment: `copy_size` bytes, but none past `memsz`. The page is
-- not cleared first.
unfoldable pub elf_fill_page : ℕ → ProgramHeader → ℕ → ℕ → Memory → Memory
elf_fill_page file ph j page m =
    let copy_size =
      if leb (add64 j 4096) ph.filesz then 4096 else if ltb j ph.filesz then ph.filesz - j else 0 in
    let count = if ltb copy_size (ph.memsz - j) then copy_size else ph.memsz - j in
    if ltb j ph.filesz then copy_up count 0 page (add64 (add64 file ph.offset) j) m else m

-- The page and the bytes that go into it can be reached at their addresses.
unfoldable pub elf_can_fill : ℕ → ProgramHeader → ℕ → ℕ → Paging → Bool
unfolding is_reached
elf_can_fill file ph j page s =
    let copy_size =
      if leb (add64 j 4096) ph.filesz then 4096 else if ltb j ph.filesz then ph.filesz - j else 0 in
    let count = if ltb copy_size (ph.memsz - j) then copy_size else ph.memsz - j in
    let src = add64 (add64 file ph.offset) j in
    if ltb j ph.filesz
    then is_reached s page && (is_reached s src && is_reached s (src + count - 1))
    else true

-- The loop over the pages of a segment, on fuel; `none` is as for `map_pages`.
unfoldable pub elf_pages : ℕ → ℕ → ℕ → ProgramHeader → ℕ → Machine → Option (Bool × Machine)
elf_pages depth zero file ph j s = none
elf_pages depth (suc f) file ph j s =
    let next : Paging = record (s.paging) { pmm = (pmm_alloc_page s.paging.pmm).1 } in
    let rest = elf_pages depth f file ph (add64 j 4096) in
    if ltb j ph.memsz
    then elim ((pmm_alloc_page s.paging.pmm).0) [
      | none ↦ some (false, record s { paging = next })
      | some page ↦
          if not (elf_can_fill file ph j page s.paging)
          then none
          else elim (paging_map_page depth (add64 ph.vaddr j) page (bit_or 1 2) next) [
            | none ↦ none
            | some r ↦ rest (record { paging = r.1; ram = elf_fill_page file ph j page s.ram })
          ]
    ]
    else some (true, s)

-- The loop over the program headers, from header `i`, with the rounds left.
unfoldable pub elf_segments : ℕ → ℕ → ℕ → ℕ → ℕ → ℕ → ℕ → Machine → Option (Bool × Machine)
elf_segments depth f file phoff phentsize zero i s = some (true, s)
elf_segments depth f file phoff phentsize (suc n) i s =
    let ph = read_program_header s.ram (add64 (add64 file phoff) (i * phentsize)) in
    let rest = elf_segments depth f file phoff phentsize n (i + 1) in
    if not (ph.kind == 1) then rest s else elim (elf_pages depth f file ph 0 s) [
      | none ↦ none
      | some r ↦ elim (r.0) [ true ↦ rest (r.1) | false ↦ some (false, r.1) ]
    ]

-- The second part of the result is what is written through `entry_point`, if that is not NULL. The headers
-- are read once, before the loop: a segment that is loaded over the file is not modelled.
unfoldable pub elf_load : ℕ → ℕ → ℕ → ℕ → Machine → Option (Bool × Option ℕ × Machine)
elf_load depth f file entry_point s =
    let entry = if entry_point == 0 then none else some (read_u64 s.ram (file + 24)) in
    if not (read_u32 s.ram file == 0x464C_457F)
    then some (false, none, s)
    else if not (read_u16 s.ram (file + 18) == 0x3E)
    then some (false, none, s)
    else elim (elf_segments depth f file (read_u64 s.ram (file + 32)) (read_u16 s.ram (file + 54))
        (read_u16 s.ram (file + 56)) 0 s) [ none ↦ none | some r ↦ some (r.0, entry, r.1) ]
