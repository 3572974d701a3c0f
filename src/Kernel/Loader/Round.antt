-- ===== src/Kernel/Loader/Round.antt =====
-- One round of the loop over the pages of a section.
use mira_os.Base.{
  ℕ, ◌+◌, ◌-◌, ◌*◌, ◌/◌, ◌%◌, ◌^◌, ◌<◌, ◌≤◌, ◌≡◌, ◌≢◌, refl, ap, ◌∙◌, sym, inl, inr, ◌==◌,
  Bool-cases, true, false, some, arith, if◌then◌else◌, ltb, bit_or,
}
use mira_os.Common.Memory.{Memory}
use mira_os.Common.Memory.Copy.{within}
use mira_os.Kernel.Words.{add64}
use mira_os.Kernel.Pmm.{pmm_alloc_page}
use mira_os.Kernel.Pmm.Alloc.{in_use, pmm_alloc_page-some}
use mira_os.Kernel.Pmm.Owners.{pmm_alloc_page-IsBytes}
use mira_os.Arch.Paging.{Paging, address_of, find_table, paging_map_page, paging_virt_to_phys}
use mira_os.Arch.Paging.Tree.{Shape, page_of}
use mira_os.Arch.Paging.Entries.{virt_to_phys-pmm}
use mira_os.Arch.Paging.Mapping.{paging_map_page-Tree}
use mira_os.Kernel.Loader.{Machine, SectDesc, can_fill, fill_page}
use mira_os.Kernel.Loader.Pages.{
  Fits, Kept, Reaches, content, Ready, Loaded, can_fill-Reaches, fill_page_lem,
}

same_page :
    (v j k : ℕ)
    → v % 4096 ≡ 0
    → j % 4096 ≡ 0
    → v + j < 2 ^ 48
    → v + k < 2 ^ 48
    → page_of (v + j) ≡ page_of (v + k)
    → (j ≤ k) × (k < j + 4096)
same_page v j k hv hj lj lk h = (omega arith, omega arith)

other_page :
    (v j k : ℕ)
    → v % 4096 ≡ 0
    → j % 4096 ≡ 0
    → j ≤ k
    → k < j + 4096
    → page_of (v + j) ≡ page_of (v + k)
other_page v j k hv hj low high = omega arith

-- What holds of the file and of the pages loaded so far, after the page `p` was filled for offset `j` and
-- mapped, `t` being the page tables then.
module _ (m : Memory) (file : ℕ) (sd : SectDesc) (s : Machine) (j p : ℕ) (t : Paging) (ram : Memory)
    (kept : (k : ℕ) → k < sd.filesz → s.ram (file + sd.file_off + k) ≡ m (file + sd.file_off + k))
    (marks : (x : ℕ) → in_use t.pmm x ≡ (if p == x then true else in_use s.paging.pmm x))
    (free : in_use s.paging.pmm p ≡ false)
    (filled : (x : ℕ)
      → ram x ≡ (
          if within (p * 4096) 4096 x
          then content s.ram file sd (j + (x - p * 4096))
          else s.ram x)) where
  still_used : (x : ℕ) → in_use s.paging.pmm x ≡ true → in_use t.pmm x ≡ true
  still_used x u = ground (arith, marks x)

  byte_kept : (x : ℕ) → in_use s.paging.pmm (x / 4096) ≡ true → ram x ≡ s.ram x
  byte_kept x u =
      let apart : x / 4096 ≢ p = λ z. absurd (ground (arith, ap (in_use s.paging.pmm) z)) in
      ground (arith, filled x)

  content_kept : (k : ℕ) → content s.ram file sd k ≡ content m file sd k
  content_kept k = elim (Bool-cases (ltb k sd.filesz)) [
    | inl inside ↦ rw inside (kept k (ground arith))
    | inr outside ↦ rw outside refl
  ]

  round-Loaded :
      sd.vaddr % 4096 ≡ 0
      → sd.vaddr + sd.memsz ≤ 2 ^ 48
      → j % 4096 ≡ 0
      → j < sd.memsz
      → Loaded m file sd j s
      → ((w : ℕ)
          → paging_virt_to_phys w t ≡ (
              if page_of (sd.vaddr + j) == page_of w
              then p * 4096 + w % 4096
              else paging_virt_to_phys w s.paging))
      → Loaded m file sd (j + 4096) (record { paging = t; ram = ram })
  round-Loaded aligned low round lt loaded translates k kj km =
      let w = sd.vaddr + k in
      elim (Bool-cases (page_of (sd.vaddr + j) == page_of w)) [
        | inl same ↦
            let (from, to) =
              same_page sd.vaddr j k aligned round (omega arith) (omega arith) (ground arith) in
            let x = p * 4096 + w % 4096 in
            let phys : paging_virt_to_phys w t ≡ x = translates w ∙ rw same refl in
            let here : within (p * 4096) 4096 x ≡ true = ground arith in
            let off : j + (x - p * 4096) ≡ k = omega arith in
            let page : x / 4096 ≡ p = omega arith in
            rw phys (
              filled x ∙ (rw here refl ∙ (ap (content s.ram file sd) off ∙ content_kept k)),
              ap (in_use t.pmm) page ∙ ground (arith, marks p),
            )
        | inr other ↦
            let before : k < j = ground (arith, other_page sd.vaddr j k aligned round) in
            let (was, use_) = loaded k before km in
            let phys : paging_virt_to_phys w t ≡ paging_virt_to_phys w s.paging =
              translates w ∙ rw other refl in
            rw phys (byte_kept _ use_ ∙ was, still_used _ use_)
      ]

-- A page that is mapped for the section takes no other page from the ones that are mapped to themselves.
round-Reaches :
    (file : ℕ) (sd : SectDesc) (s : Paging) (j p : ℕ) (t : Paging)
    → j < sd.memsz
    → Reaches file sd s
    → ((x : ℕ) → in_use t.pmm x ≡ (if p == x then true else in_use s.pmm x))
    → ((w : ℕ)
        → paging_virt_to_phys w t ≡ (
            if page_of (sd.vaddr + j) == page_of w
            then p * 4096 + w % 4096
            else paging_virt_to_phys w s))
    → Reaches file sd t
round-Reaches file sd s j p t lt (bytes, pages) marks translates =
    let keep : (a : ℕ) → Kept sd s a → Kept sd t a = λ a k. (
      (let other : (page_of (sd.vaddr + j) == page_of a) ≡ false = ground (arith, k.1 j lt) in
          translates a ∙ (rw other refl ∙ k.0)),
      k.1,
    ) in
    (
      λ k kt. keep (file + sd.file_off + k) (bytes k kt),
      λ q free. keep (q * 4096) (pages q (ground (arith, marks q, free))),
    )

module _ (sh : Shape) (m : Memory) (depth file : ℕ) (sd : SectDesc) (flags : ℕ)
    (fits : Fits file sd flags) where
  -- One round, where a page is free.
  pub load_round :
      (s : Machine) (j page : ℕ)
      → Ready sh m file sd s
      → Loaded m file sd j s
      → j % 4096 ≡ 0
      → j < sd.memsz
      → (pmm_alloc_page s.paging.pmm).0 ≡ some page
      → let next : Paging = record (s.paging) { pmm = (pmm_alloc_page s.paging.pmm).1 } in
        (r : Paging) × (can_fill file sd j page s.paging ≡ true)
        × (paging_map_page depth (add64 sd.vaddr j) page (bit_or flags 2) next
            ≡ some (add64 sd.vaddr j, r))
        × Ready sh m file sd (record { paging = r; ram = fill_page file sd j page s.ram })
        × Loaded m file sd (j + 4096) (record { paging = r; ram = fill_page file sd j page s.ram })
  unfolding address_of
  load_round s j page (tree, bytes, tables, kept, used, reaches) loaded round lt e =
      let (aligned, low, ends, small) = fits in
      let q = (pmm_alloc_page s.paging.pmm).1 in
      let next : Paging = record (s.paging) { pmm = q } in
      let (p, at, range, unused, below, marks) = pmm_alloc_page-some s.paging.pmm page bytes e in
      let v = add64 sd.vaddr j in
      let here : v ≡ sd.vaddr + j = omega arith in
      let stands = λ (z : find_table v next ≡ 0). tables j lt (
        ap (λ t. find_table t s.paging) (sym here) ∙ (sym (virt_to_phys-pmm v s.paging q).1 ∙ z)) in
      let (r, mapped, tree', pmm', same_tables, translates) =
        paging_map_page-Tree depth sh next v page (bit_or flags 2) tree stands small in
      let filled : (x : ℕ)
          → fill_page file sd j page s.ram x ≡ (
              if within (p * 4096) 4096 x
              then content s.ram file sd (j + (x - p * 4096))
              else s.ram x) =
        λ x.
          ap (λ a. fill_page file sd j a s.ram x) at
          ∙ fill_page_lem file sd j p s.ram x ends
              (λ k kt z. absurd (ground (arith, used k kt, ap (in_use s.paging.pmm) z))) in
      let base : address_of page ≡ p * 4096 = omega (arith, at) in
      let marks' : (x : ℕ) → in_use r.pmm x ≡ (if p == x then true else in_use s.paging.pmm x) =
        λ x. ap (λ c. in_use c x) pmm' ∙ marks x in
      let moves : (w : ℕ)
          → paging_virt_to_phys w r ≡ (
              if page_of (sd.vaddr + j) == page_of w
              then p * 4096 + w % 4096
              else paging_virt_to_phys w s.paging) =
        λ w.
          translates w
          ∙ (ap
                (λ c.
                  if page_of c == page_of w
                  then address_of page + w % 4096
                  else paging_virt_to_phys w next)
                here
              ∙ (ap
                    (λ c.
                      if page_of (sd.vaddr + j) == page_of w
                      then c + w % 4096
                      else paging_virt_to_phys w next)
                    base
                  ∙ ap (λ c. if page_of (sd.vaddr + j) == page_of w then p * 4096 + w % 4096 else c)
                      (virt_to_phys-pmm w s.paging q).0)) in
      let ram' = fill_page file sd j page s.ram in
      let part = λ (k : ℕ) (kt : k < sd.filesz).
        still_used m file sd s j p r ram' kept marks' unused filled _ (used k kt) in
      let fills : can_fill file sd j page s.paging ≡ true =
        ap (λ a. can_fill file sd j a s.paging) at
        ∙ can_fill-Reaches file sd j p s.paging ends reaches unused in
      (
        r,
        fills,
        mapped,
        (
          tree',
          λ i.
              omega (
                arith,
                ap (λ c. c.page_bitmap i) pmm',
                pmm_alloc_page-IsBytes s.paging.pmm bytes i,
              ),
          λ k kt z. tables k kt (sym (same_tables _ ∙ (virt_to_phys-pmm _ s.paging q).1) ∙ z),
          λ k kt.
              byte_kept m file sd s j p r ram' kept marks' unused filled _ (used k kt) ∙ kept k kt,
          part,
          round-Reaches file sd s.paging j p r lt reaches marks' moves,
        ),
        round-Loaded m file sd s j p r ram' kept marks' unused filled aligned low round lt loaded
            moves,
      )
