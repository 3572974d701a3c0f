-- ===== src/Arch/Paging/Mapping.antt =====
-- `paging_map_page`, `paging_unmap_page` and `paging_virt_to_phys` where the tables stand.
use mira_os.Base.{
  ℕ, ◌+◌, ◌%◌, ◌<◌, ◌≡◌, ◌≢◌, sym, refl, ap, ◌∙◌, inl, inr, true, false, ◌==◌, if◌then◌else◌, arith,
  some, Bool-cases, bit_or,
}
use mira_os.Arch.Paging.{
  Paging, TableAlloc, pt_index, page_present, address_of, set_word, present_write, walk, find_table,
  map_page, paging_map_page, paging_unmap_page, paging_virt_to_phys, table_alloc,
}
use mira_os.Arch.Paging.Tree.{
  page_of, table_at, find_table-eq, walk-table_at, Shape, IsTree, table_at-IsTree,
  table_at-set_word,
}
use mira_os.Arch.Paging.Entries.{
  entry_lem, physical, virt_to_phys-eq, write_entry-page, write_entry-IsTree, table_at-page,
}

map_page-found :
    (alloc : TableAlloc) (s : Paging) (v phys flags pt : ℕ)
    → walk alloc v true s ≡ some (pt, s)
    → (pt == 0) ≡ false
    → map_page alloc v phys flags s
      ≡ some (
        v,
        record s {
          words = set_word pt (pt_index v) (present_write (bit_or (address_of phys) flags)) s.words;
        },
      )
unfolding map_page
map_page-found alloc s v phys flags pt h nonzero = ground arith

-- Where the table of an address stands, `paging_map_page` succeeds without allocating a page, and keeps the
-- tree of tables; afterwards each address of the mapped page translates to the same offset in the physical
-- page, and every other address translates as before. Which tables stand does not change.
pub paging_map_page-Tree :
    (f : ℕ) (sh : Shape) (s : Paging) (v phys flags : ℕ)
    → IsTree sh s
    → find_table v s ≢ 0
    → flags < 4096
    → (s' : Paging) × (paging_map_page f v phys flags s ≡ some (v, s'))
      × IsTree sh s'
      × (s'.pmm ≡ s.pmm)
      × ((w : ℕ) → find_table w s' ≡ find_table w s)
      × ((w : ℕ)
          → paging_virt_to_phys w s' ≡ (
              if page_of v == page_of w
              then address_of phys + w % 4096
              else paging_virt_to_phys w s))
unfolding paging_map_page
paging_map_page-Tree f sh s v phys flags tree found lt =
    let stands = λ (e : table_at s.words s.pml4_root v ≡ 0). found (find_table-eq v s ∙ e) in
    let pt = table_at s.words s.pml4_root v in
    let e = present_write (bit_or (address_of phys) flags) in
    let (page, present) = entry_lem phys flags lt in
    let (one, place) = table_at-IsTree sh s v tree stands in
    let nonzero : (pt == 0) ≡ false = ground arith in
    let walked = walk-table_at (table_alloc f) v s stands in
    (
      record s { words = set_word pt (pt_index v) e s.words },
      map_page-found (table_alloc f) s v phys flags pt walked nonzero,
      write_entry-IsTree sh s pt (pt_index v) e tree one,
      refl,
      λ w.
          find_table-eq w _
          ∙ (table_at-set_word sh s w pt (pt_index v) e tree one ∙ sym (find_table-eq w s)),
      λ w. write_entry-page sh s v e w tree stands ∙ rw (nonzero, present, page) refl,
    )

paging_unmap_page-found :
    (s : Paging) (v : ℕ)
    → let pt = table_at s.words s.pml4_root v in
      paging_unmap_page v s
      ≡ (if pt == 0 then s else record s { words = set_word pt (pt_index v) 0 s.words })
unfolding paging_unmap_page
paging_unmap_page-found s v =
    ap (λ pt. if pt == 0 then s else record s { words = set_word pt (pt_index v) 0 s.words })
      (find_table-eq v s)

-- After `paging_unmap_page` each address of the page translates to 0 and every other address translates as
-- before, whether the table of the address stands or not, and the tables still form the tree.
pub paging_unmap_page-Tree :
    (sh : Shape) (s : Paging) (v : ℕ)
    → IsTree sh s
    → IsTree sh (paging_unmap_page v s)
      × ((w : ℕ)
          → paging_virt_to_phys w (paging_unmap_page v s)
            ≡ (if page_of v == page_of w then 0 else paging_virt_to_phys w s))
unfolding page_present
paging_unmap_page-Tree sh s v tree =
    let pt = table_at s.words s.pml4_root v in
    elim (Bool-cases (pt == 0)) [
      | inl null ↦
          let same : paging_unmap_page v s ≡ s = paging_unmap_page-found s v ∙ rw null refl in
          rw same (
            tree,
            λ w. elim (Bool-cases (page_of v == page_of w)) [
              | inr other ↦ rw other refl
              | inl page ↦
                  let table = table_at-page s.words s.pml4_root v w (ground arith) in
                  rw page (
                    virt_to_phys-eq w s
                    ∙ (ap
                          (λ a.
                            physical a (s.words (table_at s.words s.pml4_root w) (pt_index w)) w)
                          table
                        ∙ rw null refl))
            ],
          )
      | inr found ↦
          let eq : paging_unmap_page v s ≡ record s { words = set_word pt (pt_index v) 0 s.words } =
            paging_unmap_page-found s v ∙ rw found refl in
          let stands = λ (e : pt ≡ 0). absurd (ground arith) in
          let (one, place) = table_at-IsTree sh s v tree stands in
          rw eq (
            write_entry-IsTree sh s pt (pt_index v) 0 tree one,
            λ w. write_entry-page sh s v 0 w tree stands ∙ rw found refl,
          )
    ]
