-- ===== src/Arch/Paging/Init.antt =====
-- `paging_init`: the static tables map the first 2 MB to themselves.
use mira_os.Base.{
  ℕ, ◌+◌, ◌*◌, ◌/◌, ◌%◌, ◌^◌, ◌<◌, ◌≡◌, ◌≢◌, refl, ap, ◌∙◌, sym, inl, inr, true, false, ◌==◌, ltb,
  if◌then◌else◌, arith, Bool-cases,
}
use mira_os.Kernel.Pmm.{Pmm}
use mira_os.Arch.Paging.{
  Words, BootTables, pml4_index, pdpt_index, pd_index, pt_index, page_present, address_of, set_word,
  present_write, clear_words, paging_init, paging_virt_to_phys,
}
use mira_os.Arch.Paging.Tree.{table_at, Shape, IsTree, LeadsTo}
use mira_os.Arch.Paging.Entries.{physical, virt_to_phys-eq}
use mira_os.Arch.Paging.BootWords.{
  clear_words_lem, boot_entries_lem, present_write-entry, only_first,
}

-- The linker places the static tables on pages of their own, and they start out zero.
abbrev pub IsPlaced : BootTables → Words → Type 0
IsPlaced b w =
    (address_of b.pdpt ≡ b.pdpt)
    × (address_of b.pd ≡ b.pd)
    × (address_of b.pt ≡ b.pt)
    × (b.pml4 ≢ 0)
    × (b.pdpt ≢ 0)
    × (b.pd ≢ 0)
    × (b.pt ≢ 0)
    × (b.pml4 ≢ b.pdpt)
    × (b.pml4 ≢ b.pd)
    × (b.pml4 ≢ b.pt)
    × (b.pdpt ≢ b.pd)
    × (b.pdpt ≢ b.pt)
    × (b.pd ≢ b.pt)
    × ((i : ℕ) → w b.pdpt i ≡ 0)
    × ((i : ℕ) → w b.pd i ≡ 0)

-- At the start every table stands at its place.
abbrev pub boot_shape : BootTables → Shape
boot_shape b = record {
  lvl = λ a.
      if a == b.pml4
      then 4
      else if a == b.pdpt
      then 3
      else if a == b.pd
      then 2
      else if a == b.pt
      then 1
      else 0;
  base = λ a. 0;
}

module _ (b : BootTables) (q : Pmm) (w : Words) (placed : IsPlaced b w) where
  pub words_pml4 :
      (j : ℕ)
      → j < 512
      → (paging_init b q w).words b.pml4 j ≡ (if j == 0 then present_write b.pdpt else 0)
  unfolding paging_init set_word
  words_pml4 j lt =
      let (a3, a2, a1, n4, n3, n2, n1, d43, d42, d41, d32, d31, d21, z3, z2) = placed in
      ground (
        arith,
        boot_entries_lem 512 0 b.pt (clear_words 512 0 b.pml4 w) b.pml4 j,
        clear_words_lem 512 0 b.pml4 w b.pml4 j,
      )

  pub words_pdpt :
      (j : ℕ) → (paging_init b q w).words b.pdpt j ≡ (if j == 0 then present_write b.pd else 0)
  unfolding paging_init set_word
  words_pdpt j =
      let (a3, a2, a1, n4, n3, n2, n1, d43, d42, d41, d32, d31, d21, z3, z2) = placed in
      ground (
        arith,
        boot_entries_lem 512 0 b.pt (clear_words 512 0 b.pml4 w) b.pdpt j,
        clear_words_lem 512 0 b.pml4 w b.pdpt j,
        z3 j,
      )

  pub words_pd :
      (j : ℕ) → (paging_init b q w).words b.pd j ≡ (if j == 0 then present_write b.pt else 0)
  unfolding paging_init set_word
  words_pd j =
      let (a3, a2, a1, n4, n3, n2, n1, d43, d42, d41, d32, d31, d21, z3, z2) = placed in
      ground (
        arith,
        boot_entries_lem 512 0 b.pt (clear_words 512 0 b.pml4 w) b.pd j,
        clear_words_lem 512 0 b.pml4 w b.pd j,
        z2 j,
      )

  words_pt : (j : ℕ) → j < 512 → (paging_init b q w).words b.pt j ≡ present_write (j * 4096)
  unfolding paging_init set_word
  words_pt j lt =
      let (a3, a2, a1, n4, n3, n2, n1, d43, d42, d41, d32, d31, d21, z3, z2) = placed in
      ground (arith, boot_entries_lem 512 0 b.pt (clear_words 512 0 b.pml4 w) b.pt j)

  table_at-init :
      (v : ℕ)
      → table_at (paging_init b q w).words b.pml4 v ≡ (if v / 2 ^ 21 % 2 ^ 27 == 0 then b.pt else 0)
  unfolding table_at pml4_index pdpt_index pd_index
  table_at-init v =
      let (a3, a2, a1, n4, n3, n2, n1, d43, d42, d41, d32, d31, d21, z3, z2) = placed in
      let s = paging_init b q w in
      let e4 = s.words b.pml4 (pml4_index v) in
      let e3 = s.words (address_of e4) (pdpt_index v) in
      let e2 = s.words (address_of e3) (pd_index v) in
      let (p4, f4, t4) = only_first e4 b.pdpt (pml4_index v) (words_pml4 _ (omega arith)) a3 in
      elim (Bool-cases (pml4_index v == 0)) [
        | inr other ↦ ground arith
        | inl first4 ↦
            let eq3 = ap (λ a. s.words a (pdpt_index v)) (t4 first4) ∙ words_pdpt (pdpt_index v) in
            let (p3, f3, t3) = only_first e3 b.pd (pdpt_index v) eq3 a2 in
            elim (Bool-cases (pdpt_index v == 0)) [
              | inr other ↦ ground arith
              | inl first3 ↦
                  let eq2 = ap (λ a. s.words a (pd_index v)) (t3 first3) ∙ words_pd (pd_index v) in
                  let (p2, f2, t2) = only_first e2 b.pt (pd_index v) eq2 a1 in
                  elim (Bool-cases (pd_index v == 0)) [
                    | inr other ↦ ground arith
                    | inl first2 ↦ let found = t2 first2 in ground arith
                  ]
            ]
      ]

  boot_leads :
      (t x l i : ℕ)
      → (paging_init b q w).words t i ≡ (if i == 0 then present_write x else 0)
      → address_of x ≡ x
      → page_present ((paging_init b q w).words t i) ≡ true
      → (boot_shape b).lvl x ≡ l
      → LeadsTo (boot_shape b) (paging_init b q w).words l t i
  boot_leads t x l i e aligned present level =
      let (p, small, to) = only_first _ x i e aligned in
      let first : (i == 0) ≡ true = sym p ∙ present in
      (ap (boot_shape b).lvl (to first) ∙ level, ground arith)

  boot-IsTree : IsTree (boot_shape b) (paging_init b q w)
  unfolding paging_init
  boot-IsTree =
      let (a3, a2, a1, n4, n3, n2, n1, d43, d42, d41, d32, d31, d21, z3, z2) = placed in
      let words = (paging_init b q w).words in
      (
        ground arith,
        refl,
        ground arith,
        λ t i lvl p lt.
            let at : t ≡ b.pml4 = ground arith in
            boot_leads t b.pdpt 3 i (ap (λ a. words a i) at ∙ words_pml4 i lt) a3 p (ground arith),
        λ t i lvl p lt.
            let at : t ≡ b.pdpt = ground arith in
            boot_leads t b.pd 2 i (ap (λ a. words a i) at ∙ words_pdpt i) a2 p (ground arith),
        λ t i lvl p small lt.
            let at : t ≡ b.pd = ground arith in
            boot_leads t b.pt 1 i (ap (λ a. words a i) at ∙ words_pd i) a1 p (ground arith),
      )

  boot_translates :
      (v : ℕ)
      → v < 2 ^ 48
      → paging_virt_to_phys v (paging_init b q w) ≡ (if ltb v 0x20_0000 then v else 0)
  unfolding pt_index address_of paging_init
  boot_translates v lt =
      let (a3, a2, a1, n4, n3, n2, n1, d43, d42, d41, d32, d31, d21, z3, z2) = placed in
      let s = paging_init b q w in
      let word = words_pt (pt_index v) (omega arith) in
      let aligned : address_of (pt_index v * 4096) ≡ pt_index v * 4096 = omega arith in
      let (page, present, small) = present_write-entry (pt_index v * 4096) aligned in
      let index = pt_index v in
      let at : (t : ℕ)
          → table_at s.words s.pml4_root v ≡ t
          → paging_virt_to_phys v s ≡ physical t (s.words t index) v =
        λ t e. virt_to_phys-eq v s ∙ ap (λ a. physical a (s.words a index) v) e in
      elim (Bool-cases (v / 2 ^ 21 % 2 ^ 27 == 0)) [
        | inl low ↦
            let null : (b.pt == 0) ≡ false = ground arith in
            let here : physical b.pt (present_write (index * 4096)) v ≡ index * 4096 + v % 4096 =
              rw (null, present, page) refl in
            at b.pt (table_at-init v ∙ rw low refl)
            ∙ (ap (λ e. physical b.pt e v) word ∙ (here ∙ ground arith))
        | inr high ↦ at 0 (table_at-init v ∙ rw high refl) ∙ ground arith
      ]

-- After `paging_init` the tables form a tree, each of the first 2 MB translates to itself, and no other
-- address of the 48 bits translates.
pub paging_init-Tree :
    (b : BootTables) (q : Pmm) (w : Words)
    → IsPlaced b w
    → IsTree (boot_shape b) (paging_init b q w)
      × ((v : ℕ)
          → v < 2 ^ 48
          → paging_virt_to_phys v (paging_init b q w) ≡ (if ltb v 0x20_0000 then v else 0))
paging_init-Tree b q w placed = (boot-IsTree b q w placed, boot_translates b q w placed)
