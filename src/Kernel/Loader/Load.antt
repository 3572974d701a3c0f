-- ===== src/Kernel/Loader/Load.antt =====
-- kernel/bin/mira_exec.c: `mira_load` and its two callers.
use mira_os.Base.{
  ℕ, zero, suc, ◌+◌, ◌*◌, Bool, true, false, ◌==◌, ◌||◌, not, ltb, if◌then◌else◌, Option, none,
  some,
}
use mira_os.Kernel.Loader.{
  Machine, header_bytes, sect_desc_bytes, read_header, read_sect, exec_validate_header,
  exec_flags_to_paging, map_section,
}

-- mira_loaded_image_t
pub record LoadedImage : Type 0 where
  pub entry_point : ℕ
  pub cr3 : ℕ
  pub user_stack_top : ℕ

-- The loop over the section table at `table`, from section `i`, with the rounds left.
unfoldable pub load_sections : ℕ → ℕ → ℕ → ℕ → ℕ → ℕ → ℕ → Machine → Option (Bool × Machine)
load_sections depth f file size table zero i s = some (true, s)
load_sections depth f file size table (suc n) i s =
    let sd = read_sect s.ram (table + i * sect_desc_bytes) in
    let flags = exec_flags_to_paging sd.sect_type sd.sect_flags in
    let rest = load_sections depth f file size table n (i + 1) in
    elim (map_section depth f file size sd flags s) [
      | none ↦ none
      | some r ↦ elim (r.0) [ true ↦ rest (r.1) | false ↦ some (false, r.1) ]
    ]

-- `out` is the address that the image is written to. A result `some (none, s)` is `false`; the image is
-- the value that the code stores at `out`.
unfoldable pub mira_load : ℕ → ℕ → ℕ → ℕ → ℕ → ℕ → Machine → Option (Option LoadedImage × Machine)
mira_load depth f file size kind out s =
    let hdr = read_header s.ram file in
    if (file == 0) || (ltb size header_bytes || (out == 0))
    then some (none, s)
    else if not (exec_validate_header s.ram file size kind)
    then some (none, s)
    else elim (load_sections depth f file size (file + hdr.sect_table_off) hdr.sect_count 0 s) [
      | none ↦ none
      | some r ↦ elim (r.0) [
        | false ↦ some (none, r.1)
        | true ↦
            some (some (record { entry_point = hdr.entry_point; cr3 = 0; user_stack_top = 0 }), r.1)
      ]
    ]

unfoldable pub mira_load_mex : ℕ → ℕ → ℕ → ℕ → ℕ → Machine → Option (Option LoadedImage × Machine)
mira_load_mex depth f file size out s = mira_load depth f file size 1 out s

unfoldable pub mira_load_mdl : ℕ → ℕ → ℕ → ℕ → ℕ → Machine → Option (Option LoadedImage × Machine)
mira_load_mdl depth f file size out s = mira_load depth f file size 2 out s
