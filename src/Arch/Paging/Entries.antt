-- ===== src/Arch/Paging/Entries.antt =====
-- The entries of the last level: what one made of a page says, and what writing one does to each page.
use mira_os.Base.{
  ℕ, max, suc, ◌+◌, ◌*◌, ◌/◌, ◌%◌, ◌^◌, ◌<◌, ◌≡◌, ◌≢◌, refl, ap, ◌∙◌, sym, inl, inr, true, ◌==◌,
  if◌then◌else◌, arith, Bool-cases, bit_or, bit_or-above, bit_or_lem,
}
use mira_os.Kernel.Pmm.{Pmm}
use mira_os.Arch.Paging.{
  find_table, Paging, Words, pml4_index, pdpt_index, pd_index, pt_index, page_present,
  page_size_flag, address_of, set_word, present_write, paging_virt_to_phys,
}
use mira_os.Arch.Paging.Tree.{
  page_of, table_at, find_table-eq, indices_eq, Shape, IsTree, table_at-IsTree, table_at-set_word,
  set_word_self, set_word_other, upper_table, LeadsTo,
}

last_digit : (a : ℕ) → (bit_or (bit_or a 1) 2 % 2 ≡ 1)
last_digit a =
    let one = bit_or_lem a 1 in
    let two = bit_or_lem (bit_or a 1) 2 in
    let max_one : max (a % 2) 1 ≡ 1 = ground arith in
    let odd : bit_or a 1 % 2 ≡ 1 = omega (arith, one, max_one) in
    let max_zero : max (bit_or a 1 % 2) 0 ≡ 1 = ground (arith, odd) in omega (arith, two, max_zero)

entry_digits :
    (p flags : ℕ)
    → flags < 2 ^ 12
    → (r : ℕ) × (present_write (bit_or (p * 4096) flags) ≡ p * 2 ^ 12 + r)
      × (r < 2 ^ 12)
      × (r % 2 ≡ 1)
unfolding present_write
entry_digits p flags h =
    let (a, la) = bit_or-above 12 p 0 flags (omega arith) h in
    let (b, lb) = bit_or-above 12 p (bit_or 0 flags) 1 la (omega arith) in
    let (c, lc) = bit_or-above 12 p (bit_or (bit_or 0 flags) 1) 2 lb (omega arith) in
    let start : p * 4096 ≡ p * 2 ^ 12 + 0 = omega arith in
    (
      bit_or (bit_or (bit_or 0 flags) 1) 2,
      ap (λ t. bit_or (bit_or (bit_or t flags) 1) 2) start
          ∙ (ap (λ t. bit_or (bit_or t 1) 2) a ∙ (ap (λ t. bit_or t 2) b ∙ c)),
      lc,
      last_digit (bit_or 0 flags),
    )

-- An entry made from a page and flags keeps the page and is present.
pub entry_lem :
    (phys flags : ℕ)
    → flags < 4096
    → (address_of (present_write (bit_or (address_of phys) flags)) ≡ address_of phys)
      × (page_present (present_write (bit_or (address_of phys) flags)) ≡ true)
unfolding address_of page_present
entry_lem phys flags h =
    let (r, e, lt, odd) = entry_digits (phys / 4096) flags (omega arith) in
    (omega (arith, e), ground (arith, e))

-- What `paging_virt_to_phys` makes of a table and its entry.
abbrev pub physical : ℕ → ℕ → ℕ → ℕ
physical pt e v = if pt == 0 then 0 else if page_present e then address_of e + v % 4096 else 0

pub virt_to_phys-eq :
    (v : ℕ) (s : Paging)
    → let pt = table_at s.words s.pml4_root v in
      paging_virt_to_phys v s ≡ physical pt (s.words pt (pt_index v)) v
unfolding paging_virt_to_phys
virt_to_phys-eq v s = ap (λ t. physical t (s.words t (pt_index v)) v) (find_table-eq v s)

-- Two addresses that use the same entry lie on the same page.
same_entry :
    (sh : Shape) (s : Paging) (v w : ℕ)
    → IsTree sh s
    → table_at s.words s.pml4_root v ≢ 0
    → table_at s.words s.pml4_root w ≡ table_at s.words s.pml4_root v
    → pt_index w ≡ pt_index v
    → page_of v ≡ page_of w
unfolding pml4_index pdpt_index pd_index pt_index
same_entry sh s v w tree h same index =
    let (lv, bv) = table_at-IsTree sh s v tree h in
    let (lw, bw) = table_at-IsTree sh s w tree (λ e. h (sym same ∙ e)) in
    omega (arith, bv, bw, ap sh.base same, index)

pub table_at-page :
    (words : Words) (root v w : ℕ)
    → page_of v ≡ page_of w
    → table_at words root w ≡ table_at words root v
unfolding table_at
table_at-page words root v w h = let (e4, e3, e2, e1) = indices_eq v w h in rw (e4, e3, e2) refl

entry_kept :
    (sh : Shape) (s : Paging) (v e w : ℕ)
    → IsTree sh s
    → table_at s.words s.pml4_root v ≢ 0
    → page_of v ≢ page_of w
    → let pt = table_at s.words s.pml4_root v in
      let t = table_at s.words s.pml4_root w in
      set_word pt (pt_index v) e s.words t (pt_index w) ≡ s.words t (pt_index w)
unfolding set_word
entry_kept sh s v e w tree h ne =
    let pt = table_at s.words s.pml4_root v in
    let t = table_at s.words s.pml4_root w in
    elim (Bool-cases (t == pt)) [
      | inr other ↦ ground arith
      | inl same ↦ elim (Bool-cases (pt_index w == pt_index v)) [
        | inr other ↦ ground arith
        | inl index ↦ absurd (ne (same_entry sh s v w tree h (ground arith) (ground arith)))
      ]
    ]

-- The write of one entry of a table of level 1, as each page sees it.
pub write_entry-page :
    (sh : Shape) (s : Paging) (v e w : ℕ)
    → IsTree sh s
    → table_at s.words s.pml4_root v ≢ 0
    → let pt = table_at s.words s.pml4_root v in
      paging_virt_to_phys w (record s { words = set_word pt (pt_index v) e s.words })
      ≡ (if page_of v == page_of w then physical pt e w else paging_virt_to_phys w s)
write_entry-page sh s v e w tree h =
    let pt = table_at s.words s.pml4_root v in
    let (one, place) = table_at-IsTree sh s v tree h in
    let stays = table_at-set_word sh s w pt (pt_index v) e tree one in
    let new = set_word pt (pt_index v) e s.words in
    let t = table_at s.words s.pml4_root w in
    let eq : paging_virt_to_phys w (record s { words = new }) ≡ physical t (new t (pt_index w)) w =
      virt_to_phys-eq w (record s { words = new })
      ∙ ap (λ a. physical a (new a (pt_index w)) w) stays in
    elim (Bool-cases (page_of v == page_of w)) [
      | inl same ↦
          let page : page_of v ≡ page_of w = ground arith in
          let (e4, e3, e2, e1) = indices_eq v w page in
          let table = table_at-page s.words s.pml4_root v w page in
          let self : new t (pt_index w) ≡ e =
            ap (λ i. new t i) (sym e1)
            ∙ (ap (λ a. new a (pt_index v)) table ∙ set_word_self pt (pt_index v) e s.words) in
          rw same (eq ∙ (ap (λ x. physical t x w) self ∙ ap (λ a. physical a e w) table))
      | inr other ↦
          let kept = entry_kept sh s v e w tree h (ground arith) in
          rw other (eq ∙ (ap (λ x. physical t x w) kept ∙ sym (virt_to_phys-eq w s)))
    ]

leads_kept :
    (sh : Shape) (w w' : Words) (l a j : ℕ)
    → w' a j ≡ w a j
    → LeadsTo sh w l a j
    → LeadsTo sh w' l a j
leads_kept sh w w' l a j e (level, place) =
    (ap (λ x. sh.lvl (address_of x)) e ∙ level, ap (λ x. sh.base (address_of x)) e ∙ place)

-- Writing such an entry keeps the tree.
pub write_entry-IsTree :
    (sh : Shape) (s : Paging) (t i e : ℕ)
    → IsTree sh s
    → sh.lvl t ≡ 1
    → IsTree sh (record s { words = set_word t i e s.words })
write_entry-IsTree sh s t i e (root, zero_base, none_at, four, three, two) one =
    let w = s.words in
    let new = set_word t i e w in
    let kept = λ (l a j : ℕ) (la : sh.lvl a ≡ suc (suc l)).
      set_word_other t i e a j w (upper_table sh a t l la one) in
    (
      root,
      zero_base,
      none_at,
      λ a j la p lt.
          let same = kept 2 a j la in
          leads_kept sh w new 3 a j same (four a j la (ap page_present (sym same) ∙ p) lt),
      λ a j la p lt.
          let same = kept 1 a j la in
          leads_kept sh w new 2 a j same (three a j la (ap page_present (sym same) ∙ p) lt),
      λ a j la p small lt.
          let same = kept 0 a j la in
          leads_kept sh w new 1 a j same
            (two a j la (ap page_present (sym same) ∙ p) (ap page_size_flag (sym same) ∙ small) lt),
    )

-- The allocator's state plays no part in a translation.
pub virt_to_phys-pmm :
    (v : ℕ) (s : Paging) (q : Pmm)
    → (paging_virt_to_phys v (record s { pmm = q }) ≡ paging_virt_to_phys v s)
      × (find_table v (record s { pmm = q }) ≡ find_table v s)
virt_to_phys-pmm v s q = (
  virt_to_phys-eq v (record s { pmm = q }) ∙ sym (virt_to_phys-eq v s),
  find_table-eq v (record s { pmm = q }) ∙ sym (find_table-eq v s),
)
