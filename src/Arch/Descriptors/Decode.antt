-- ===== src/Arch/Descriptors/Decode.antt =====
-- What the processor reads in a descriptor that gdt.c or idt.c of arch/x86_64 writes.
use mira_os.Base.{
  ℕ, zero, suc, ◌+◌, ◌*◌, ◌/◌, ◌%◌, ◌^◌, ◌<◌, ◌≤◌, ◌≡◌, ◌≢◌, ◌⊎◌, inl, inr, refl, ap, ◌∙◌, bit_or,
  List, [], ◌∷◌, some, length, set, get_elem?, arith, get_elem?-set_self, get_elem?-set_ne,
  length-set, Bool, true, ◌&&◌, ◌==◌, all_below, all_below_lem,
}
use mira_os.Arch.Descriptors.{
  GdtEntry, gdt_set_entry, gdt_set_tss, IdtEntry, gate, idt_set_gate, set_gates, isr_init,
}

-- The base, the limit and the flags of a segment
abbrev pub base_of : GdtEntry → ℕ
base_of e = e.base_low + e.base_mid * 2 ^ 16 + e.base_high * 2 ^ 24

abbrev pub limit_of : GdtEntry → ℕ
limit_of e = e.limit_low + e.granularity % 2 ^ 4 * 2 ^ 16

abbrev pub flags_of : GdtEntry → ℕ
flags_of e = e.granularity / 2 ^ 4

-- The address in a gate
abbrev pub offset_of : IdtEntry → ℕ
offset_of e = e.offset_low + e.offset_mid * 2 ^ 16 + e.offset_high * 2 ^ 32

nibble_table : ℕ → ℕ → Bool
nibble_table low high =
    (bit_or low (high * 2 ^ 4) % 2 ^ 4 == low) && (bit_or low (high * 2 ^ 4) / 2 ^ 4 == high)

nibble_table-all : all_below 16 (λ low. all_below 16 (nibble_table low)) ≡ true
unfolding all_below nibble_table
nibble_table-all = refl

nibbles :
    (low high : ℕ)
    → low < 2 ^ 4
    → high < 2 ^ 4
    → (bit_or low (high * 2 ^ 4) % 2 ^ 4 ≡ low) × (bit_or low (high * 2 ^ 4) / 2 ^ 4 ≡ high)
unfolding nibble_table
nibbles low high h k =
    let row = all_below_lem 16 (λ l. all_below 16 (nibble_table l)) low nibble_table-all h in
    ground (arith, all_below_lem 16 (nibble_table low) high row k)

segment_base :
    (base : ℕ)
    → base < 2 ^ 32
    → base % 2 ^ 16 + base / 2 ^ 16 % 2 ^ 8 * 2 ^ 16 + base / 2 ^ 24 % 2 ^ 8 * 2 ^ 24 ≡ base
segment_base base h = omega arith

-- The entry that `gdt_set_entry` writes, for a base of 32 bits and a limit of 20 bits, has that base, limit and
-- access byte, and as flags the high half of `gran`; the other entries are what they were.
gdt_set_entry-decode :
    (gdt : List GdtEntry) (idx base limit access gran : ℕ) {old : GdtEntry}
    → get_elem? gdt idx ≡ some old
    → base < 2 ^ 32
    → limit < 2 ^ 20
    → (e : GdtEntry) × (get_elem? (gdt_set_entry gdt idx base limit access gran) idx ≡ some e)
      × (base_of e ≡ base)
      × (limit_of e ≡ limit)
      × (e.access ≡ access)
      × (flags_of e ≡ gran / 2 ^ 4 % 2 ^ 4)
      × ((j : ℕ)
          → idx ≢ j
          → get_elem? (gdt_set_entry gdt idx base limit access gran) j ≡ get_elem? gdt j)
unfolding gdt_set_entry
gdt_set_entry-decode gdt idx base limit access gran at hb hl =
    let (low, high) =
      nibbles (limit / 2 ^ 16 % 2 ^ 4) (gran / 2 ^ 4 % 2 ^ 4) (omega arith) (omega arith) in
    (
      _,
      get_elem?-set_self gdt idx _ at,
      segment_base base hb,
      rw low (omega (arith, hl)),
      refl,
      high,
      λ j ne. get_elem?-set_ne gdt idx j _ ne,
    )

-- `gdt_set_tss` writes the whole 64-bit base of the task state segment, and its limit of 20 bits, over two
-- entries, and changes no other entry.
pub gdt_set_tss-decode :
    (gdt : List GdtEntry) (idx base limit : ℕ) {old next : GdtEntry}
    → get_elem? gdt idx ≡ some old
    → get_elem? gdt (idx + 1) ≡ some next
    → base < 2 ^ 64
    → limit < 2 ^ 20
    → (low high : GdtEntry) × (get_elem? (gdt_set_tss gdt idx base limit) idx ≡ some low)
      × (get_elem? (gdt_set_tss gdt idx base limit) (idx + 1) ≡ some high)
      × (base_of low + (high.limit_low + high.base_low * 2 ^ 16) * 2 ^ 32 ≡ base)
      × (limit_of low ≡ limit)
      × ((j : ℕ)
          → idx ≢ j
          → idx + 1 ≢ j
          → get_elem? (gdt_set_tss gdt idx base limit) j ≡ get_elem? gdt j)
unfolding gdt_set_tss
gdt_set_tss-decode gdt idx base limit at at' hb hl = (
  _,
  _,
  get_elem?-set_ne (set gdt idx _) (idx + 1) idx _ (omega arith) ∙ get_elem?-set_self gdt idx _ at,
  get_elem?-set_self (set gdt idx _) (idx + 1) _
      (get_elem?-set_ne gdt idx (idx + 1) _ (omega arith) ∙ at'),
  omega arith,
  omega arith,
  λ j ne ne'. get_elem?-set_ne (set gdt idx _) (idx + 1) j _ ne' ∙ get_elem?-set_ne gdt idx j _ ne,
)

get_elem?-set_lt :
    (idt : List IdtEntry) (i : ℕ) (v : IdtEntry)
    → i < length idt
    → get_elem? (set idt i v) i ≡ some v
get_elem?-set_lt [] i v h = absurd (omega arith)
get_elem?-set_lt (x ∷ idt) zero v h = refl
get_elem?-set_lt (x ∷ idt) (suc i) v h = get_elem?-set_lt idt i v (omega arith)

set_gates-outside :
    (handlers : List ℕ) (i type_attr j : ℕ) (idt : List IdtEntry)
    → (j < i) ⊎ (i + length handlers ≤ j)
    → get_elem? (set_gates handlers i type_attr idt) j ≡ get_elem? idt j
unfolding set_gates idt_set_gate
set_gates-outside [] i type_attr j idt h = refl
set_gates-outside (handler ∷ handlers) i type_attr j idt h =
    set_gates-outside handlers (i + 1) type_attr j (set idt i (gate handler type_attr))
      (ground (arith, h))
    ∙ get_elem?-set_ne idt i j (gate handler type_attr) (ground (arith, h))

set_gates-inside :
    (handlers : List ℕ) (i type_attr k : ℕ) (idt : List IdtEntry) {handler : ℕ}
    → i + length handlers ≤ length idt
    → get_elem? handlers k ≡ some handler
    → get_elem? (set_gates handlers i type_attr idt) (i + k) ≡ some (gate handler type_attr)
unfolding set_gates idt_set_gate
set_gates-inside [] i type_attr k idt fit at = absurd (ground arith)
set_gates-inside (x ∷ handlers) i type_attr zero idt {handler} fit at =
    let same : x ≡ handler = ground (arith, at) in
    set_gates-outside handlers (i + 1) type_attr (i + 0) (set idt i (gate x type_attr))
      (inl (omega arith))
    ∙ ap (get_elem? (set idt i (gate x type_attr))) (omega arith)
    ∙ get_elem?-set_lt idt i (gate x type_attr) (omega arith)
    ∙ ap (λ h. some (gate h type_attr)) same
set_gates-inside (x ∷ handlers) i type_attr (suc k) idt {handler} fit at =
    let same : i + suc k ≡ (i + 1) + k = omega arith in
    let size = length-set idt i (gate x type_attr) in
    ap (get_elem? (set_gates handlers (i + 1) type_attr (set idt i (gate x type_attr)))) same
    ∙ set_gates-inside handlers (i + 1) type_attr k (set idt i (gate x type_attr))
        (omega (arith, size)) at

offset-gate :
    (handler type_attr : ℕ) → handler < 2 ^ 64 → offset_of (gate handler type_attr) ≡ handler
unfolding gate
offset-gate handler type_attr h = omega arith

-- After `isr_init`, on a table with room for the stubs, the gate of each vector that has a stub holds the 64-bit
-- address of that stub, in the kernel's code segment and as a present interrupt gate, and the gates of the
-- other vectors are what they were.
pub isr_init-gates :
    (isr_stubs : List ℕ) (idt : List IdtEntry)
    → length isr_stubs ≤ length idt
    → ((k stub : ℕ)
        → get_elem? isr_stubs k ≡ some stub
        → stub < 2 ^ 64
        → (e : IdtEntry) × (get_elem? (isr_init isr_stubs idt) k ≡ some e)
          × (offset_of e ≡ stub)
          × (e.selector ≡ 0x08)
          × (e.type_attr ≡ 0x8E))
      × ((j : ℕ) → length isr_stubs ≤ j → get_elem? (isr_init isr_stubs idt) j ≡ get_elem? idt j)
unfolding isr_init gate
isr_init-gates isr_stubs idt fit = (
  λ k stub at bound. (
    gate stub 0x8E,
    ap (get_elem? (set_gates isr_stubs 0 0x8E idt)) {x = k} {y = 0 + k} (omega arith)
        ∙ set_gates-inside isr_stubs 0 0x8E k idt (omega (arith, fit)) at,
    offset-gate stub 0x8E bound,
    refl,
    refl,
  ),
  λ j past. set_gates-outside isr_stubs 0 0x8E j idt (inr (omega (arith, past))),
)
