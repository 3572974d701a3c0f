-- ===== src/Arch/Descriptors.antt =====
-- arch/x86_64/gdt.c and idt.c: the entries of the descriptor tables. The load of the tables into the
-- processor's registers is left out; the addresses of the tables and of the task state segment are arguments.
pub mod Decode
use mira_os.Base.{
  ℕ, zero, suc, ◌+◌, ◌-◌, ◌*◌, ◌/◌, ◌%◌, ◌^◌, bit_or, List, [], ◌∷◌, set, replicate, Option, none,
  some,
}

-- `struct gdt_entry`
pub record GdtEntry : Type 0 where
  pub limit_low : ℕ
  pub base_low : ℕ
  pub base_mid : ℕ
  pub access : ℕ
  pub granularity : ℕ
  pub base_high : ℕ

abbrev pub gdt_entries : ℕ
gdt_entries = 7

-- `x & 0xFF…`, for a mask of so many bits, as a remainder; `gran & 0xF0` keeps the high half.
unfoldable pub gdt_set_entry : List GdtEntry → ℕ → ℕ → ℕ → ℕ → ℕ → List GdtEntry
gdt_set_entry gdt idx base limit access gran = set gdt idx (record {
  limit_low = limit % 2 ^ 16;
  base_low = base % 2 ^ 16;
  base_mid = base / 2 ^ 16 % 2 ^ 8;
  access = access;
  granularity = bit_or (limit / 2 ^ 16 % 2 ^ 4) (gran / 2 ^ 4 % 2 ^ 4 * 2 ^ 4);
  base_high = base / 2 ^ 24 % 2 ^ 8;
})

-- The descriptor of 16 bytes lies over two entries: `base_upper` over the first four bytes of the second,
-- and `reserved` over the others.
unfoldable pub gdt_set_tss : List GdtEntry → ℕ → ℕ → ℕ → List GdtEntry
gdt_set_tss gdt idx base limit =
    let low : GdtEntry = record {
      limit_low = limit % 2 ^ 16;
      base_low = base % 2 ^ 16;
      base_mid = base / 2 ^ 16 % 2 ^ 8;
      access = 0x89;
      granularity = limit / 2 ^ 16 % 2 ^ 4;
      base_high = base / 2 ^ 24 % 2 ^ 8;
    } in
    let upper = base / 2 ^ 32 in
    let high : GdtEntry = record {
      limit_low = upper % 2 ^ 16;
      base_low = upper / 2 ^ 16 % 2 ^ 16;
      base_mid = 0;
      access = 0;
      granularity = 0;
      base_high = 0;
    } in
    set (set gdt idx low) (idx + 1) high

-- The table that `gdt_init` builds, for the address of `tss`, which has 104 bytes
unfoldable pub gdt_init : List GdtEntry → ℕ → List GdtEntry
unfolding gdt_set_entry gdt_set_tss
gdt_init gdt tss =
    let null = gdt_set_entry gdt 0 0 0 0 0 in
    let kernel_code = gdt_set_entry null 1 0 0xFFFFF 0x9A 0xA0 in
    let kernel_data = gdt_set_entry kernel_code 2 0 0xFFFFF 0x92 0xA0 in
    let user_code = gdt_set_entry kernel_data 3 0 0xFFFFF 0xFA 0xA0 in
    let user_data = gdt_set_entry user_code 4 0 0xFFFFF 0xF2 0xA0 in gdt_set_tss user_data 5 tss 103

unfoldable pub gdt_user_code_selector : ℕ
gdt_user_code_selector = bit_or 0x18 3

unfoldable pub gdt_user_data_selector : ℕ
gdt_user_data_selector = bit_or 0x20 3

unfoldable pub gdt_tss_selector : ℕ
gdt_tss_selector = 0x28

-- `struct idt_entry`
pub record IdtEntry : Type 0 where
  pub offset_low : ℕ
  pub selector : ℕ
  pub ist : ℕ
  pub type_attr : ℕ
  pub offset_mid : ℕ
  pub offset_high : ℕ
  pub reserved : ℕ

abbrev pub idt_entries : ℕ
idt_entries = 256

unfoldable pub gate : ℕ → ℕ → IdtEntry
gate handler type_attr = record {
  offset_low = handler % 2 ^ 16;
  selector = 0x08;
  ist = 0;
  type_attr = type_attr;
  offset_mid = handler / 2 ^ 16 % 2 ^ 16;
  offset_high = handler / 2 ^ 32 % 2 ^ 32;
  reserved = 0;
}

unfoldable pub idt_set_gate : List IdtEntry → ℕ → ℕ → ℕ → List IdtEntry
unfolding gate
idt_set_gate idt num handler type_attr = set idt num (gate handler type_attr)

-- `for (i = …; i < …; i++) idt_set_gate(i, handlers[i], type_attr)`, from `i` on
unfoldable pub set_gates : List ℕ → ℕ → ℕ → List IdtEntry → List IdtEntry
unfolding idt_set_gate
set_gates [] i type_attr idt = idt
set_gates (handler ∷ handlers) i type_attr idt =
    set_gates handlers (i + 1) type_attr (idt_set_gate idt i handler type_attr)

unfoldable pub idt_init : List IdtEntry → List IdtEntry
unfolding set_gates
idt_init idt = set_gates (replicate idt_entries 0) 0 0 idt

-- The gates of `isr_init`, for the addresses of the 48 stubs
unfoldable pub isr_init : List ℕ → List IdtEntry → List IdtEntry
unfolding set_gates
isr_init isr_stubs idt = set_gates isr_stubs 0 0x8E idt
