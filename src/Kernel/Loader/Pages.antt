-- ===== src/Kernel/Loader/Pages.antt =====
-- What the loader leaves in the pages of a section.
use mira_os.Base.{
  ℕ, zero, suc, ◌+◌, ◌-◌, ◌*◌, ◌/◌, ◌%◌, ◌^◌, ◌<◌, ◌≤◌, ◌≡◌, ◌≢◌, refl, ap, ◌∙◌, inl, inr,
  Bool-cases, true, false, ◌==◌, arith, if◌then◌else◌, ltb, leb, bit_or,
}
use mira_os.Common.Memory.{Memory, memset, copy_up}
use mira_os.Common.Memory.Copy.{within, memset_lem, copy_up_lem, copy_up-disjoint}
use mira_os.Kernel.Words.{add64}
use mira_os.Kernel.Pmm.Bitmap.{IsBytes}
use mira_os.Kernel.Pmm.Alloc.{in_use}
use mira_os.Arch.Paging.{find_table, paging_virt_to_phys, Paging}
use mira_os.Arch.Paging.Tree.{Shape, IsTree, page_of}
use mira_os.Kernel.Loader.{Machine, SectDesc, can_fill, is_reached, fill_page}

-- A copy from a block that has no byte in the destination's page.
copy_page :
    (n src p : ℕ) (m : Memory) (x : ℕ)
    → n ≤ 4096
    → ((k : ℕ) → k < n → (src + k) / 4096 ≢ p)
    → copy_up n 0 (p * 4096) src m x
      ≡ (if within (p * 4096) n x then m (src + (x - p * 4096)) else m x)
unfolding copy_up
copy_page zero src p m x small apart = ground arith
copy_page (suc n) src p m x small apart = elim (Bool-cases (ltb (p * 4096) src)) [
  | inl above ↦ ground (arith, copy_up_lem (suc n) 0 (p * 4096) src m x (ground arith))
  | inr not_above ↦ elim (Bool-cases (leb (src + suc n) (p * 4096))) [
    | inl below ↦ ground (arith, copy_up-disjoint (suc n) 0 (p * 4096) src m x (ground arith))
    | inr over ↦
        let inside : (src + (p * 4096 - src)) / 4096 ≡ p = ground arith in
        absurd (apart (p * 4096 - src) (ground arith) inside)
  ]
]

-- The section whose pages are loaded: its address is that of a page, it does not leave the 48 bits that are
-- translated, its bytes in the file do not wrap, and the flags fit an entry.
abbrev pub Fits : ℕ → SectDesc → ℕ → Type 0
Fits file sd flags =
    (sd.vaddr % 4096 ≡ 0)
    × (sd.vaddr + sd.memsz ≤ 2 ^ 48)
    × (file + sd.file_off + sd.filesz < 2 ^ 64)
    × (bit_or flags 2 < 4096)

-- What is to stand at offset `k` of the section, when the file is as in `m`.
abbrev pub content : Memory → ℕ → SectDesc → ℕ → ℕ
content m file sd k = if ltb k sd.filesz then m (file + sd.file_off + k) else 0

-- An address is mapped to itself and lies in no page of the section.
abbrev pub Kept : SectDesc → Paging → ℕ → Type 0
Kept sd s a =
    (paging_virt_to_phys a s ≡ a) × ((i : ℕ) → i < sd.memsz → page_of (sd.vaddr + i) ≢ page_of a)

-- So do the file's bytes and every page that is free.
abbrev pub Reaches : ℕ → SectDesc → Paging → Type 0
Reaches file sd s =
    ((k : ℕ) → k < sd.filesz → Kept sd s (file + sd.file_off + k))
    × ((p : ℕ) → in_use s.pmm p ≡ false → Kept sd s (p * 4096))

pub can_fill-Reaches :
    (file : ℕ) (sd : SectDesc) (j p : ℕ) (s : Paging)
    → file + sd.file_off + sd.filesz < 2 ^ 64
    → Reaches file sd s
    → in_use s.pmm p ≡ false
    → can_fill file sd j (p * 4096) s ≡ true
unfolding can_fill is_reached
can_fill-Reaches file sd j p s fits (bytes, pages) free =
    let left = sd.filesz - j in
    let n = if ltb left 4096 then left else 4096 in
    let src = add64 (add64 file sd.file_off) j in
    let page : (paging_virt_to_phys (p * 4096) s == p * 4096) ≡ true =
      ground (arith, (pages p free).0) in
    elim (Bool-cases (ltb j sd.filesz)) [
      | inr empty ↦ rw page (rw empty refl)
      | inl some_left ↦
          let at : src ≡ file + sd.file_off + j = ground arith in
          let low : paging_virt_to_phys src s ≡ src = rw at (bytes j (ground arith)).0 in
          let end : src + n - 1 ≡ file + sd.file_off + (j + n - 1) = ground (arith, at) in
          let high : paging_virt_to_phys (src + n - 1) s ≡ src + n - 1 =
            rw end (bytes (j + n - 1) (ground arith)).0 in
          let low' : (paging_virt_to_phys src s == src) ≡ true = ground (arith, low) in
          let high' : (paging_virt_to_phys (src + n - 1) s == src + n - 1) ≡ true =
            ground (arith, high) in
          rw page (rw some_left (rw low' (rw high' refl)))
    ]

-- The tables of the section's pages stand, and the bytes of the file are those of `m` and lie in pages that
-- are in use.
abbrev pub Ready : Shape → Memory → ℕ → SectDesc → Machine → Type 0
Ready sh m file sd s =
    IsTree sh s.paging
    × IsBytes s.paging.pmm.page_bitmap
    × ((k : ℕ) → k < sd.memsz → find_table (sd.vaddr + k) s.paging ≢ 0)
    × ((k : ℕ) → k < sd.filesz → s.ram (file + sd.file_off + k) ≡ m (file + sd.file_off + k))
    × ((k : ℕ) → k < sd.filesz → in_use s.paging.pmm ((file + sd.file_off + k) / 4096) ≡ true)
    × Reaches file sd s.paging

-- The first `j` bytes of the section translate to their contents, in pages that are in use.
abbrev pub Loaded : Memory → ℕ → SectDesc → ℕ → Machine → Type 0
Loaded m file sd j s =
    (k : ℕ)
    → k < j
    → k < sd.memsz
    → (s.ram (paging_virt_to_phys (sd.vaddr + k) s.paging) ≡ content m file sd k)
      × (in_use s.paging.pmm (paging_virt_to_phys (sd.vaddr + k) s.paging / 4096) ≡ true)

pub fill_page_lem :
    (file : ℕ) (sd : SectDesc) (j p : ℕ) (m : Memory) (x : ℕ)
    → file + sd.file_off + sd.filesz < 2 ^ 64
    → ((k : ℕ) → k < sd.filesz → (file + sd.file_off + k) / 4096 ≢ p)
    → fill_page file sd j (p * 4096) m x
      ≡ (if within (p * 4096) 4096 x then content m file sd (j + (x - p * 4096)) else m x)
unfolding fill_page
fill_page_lem file sd j p m x fits apart =
    let clear = memset (p * 4096) 0 4096 m in
    let left = sd.filesz - j in
    let n = if ltb left 4096 then left else 4096 in
    let src = add64 (add64 file sd.file_off) j in
    elim (Bool-cases (ltb j sd.filesz)) [
      | inr empty ↦ ground (arith, memset_lem (p * 4096) 0 4096 m x)
      | inl some_left ↦
          let at : src ≡ file + sd.file_off + j = ground arith in
          let copied =
            copy_page n src p clear x (ground arith)
              (λ k lt e. apart (j + k) (ground arith) (omega (arith, at, e))) in
          let start : fill_page file sd j (p * 4096) m x ≡ copy_up n 0 (p * 4096) src clear x =
            rw (some_left, fill_page) refl in
          elim (Bool-cases (within (p * 4096) n x)) [
            | inr outside ↦
                let kept : fill_page file sd j (p * 4096) m x ≡ clear x =
                  start ∙ (copied ∙ rw outside refl) in
                kept ∙ (memset_lem (p * 4096) 0 4096 m x ∙ ground arith)
            | inl inside ↦
                let k = j + (x - p * 4096) in
                let read : src + (x - p * 4096) ≡ file + sd.file_off + k = omega (arith, at) in
                let off : (file + sd.file_off + k) / 4096 ≢ p = apart k (ground arith) in
                let moved : fill_page file sd j (p * 4096) m x ≡ clear (file + sd.file_off + k) =
                  start ∙ (copied ∙ (rw inside refl ∙ ap clear read)) in
                moved ∙ (memset_lem (p * 4096) 0 4096 m (file + sd.file_off + k) ∙ ground arith)
          ]
    ]
