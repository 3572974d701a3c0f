-- ===== src/Arch/Paging/Tree.antt =====
-- The tables as a tree: the table that a walk without allocation finds, and the invariant that each table
-- stands at one place.
use mira_os.Base.{
  ℕ, suc, ◌+◌, ◌*◌, ◌/◌, ◌%◌, ◌^◌, ◌<◌, ◌≡◌, ◌≢◌, ap, ◌∙◌, inl, inr, true, false, ◌&&◌,
  if◌then◌else◌, arith, some, Bool-cases,
}
use mira_os.Arch.Paging.{
  Paging, Words, TableAlloc, pml4_index, pdpt_index, pd_index, pt_index, page_present,
  page_size_flag, address_of, set_word, level, level_pd, continue, walk, find_table,
}

-- The page number of an address: the processor translates 48 bits.
abbrev pub page_of : ℕ → ℕ
page_of v = v / 2 ^ 12 % 2 ^ 36

-- The table that holds the entry of `v`, read off the words; 0 if there is none.
unfoldable pub table_at : Words → ℕ → ℕ → ℕ
table_at w root v =
    let e4 = w root (pml4_index v) in
    let e3 = w (address_of e4) (pdpt_index v) in
    let e2 = w (address_of e3) (pd_index v) in
    if page_present e4 && (page_present e3 && page_present e2)
    then if page_size_flag e2 then 0 else address_of e2
    else 0

pub find_table-eq : (v : ℕ) (s : Paging) → find_table v s ≡ table_at s.words s.pml4_root v
unfolding find_table walk level level_pd continue table_at
find_table-eq v s = ground arith

-- Where the table stands, no walk allocates.
pub walk-table_at :
    (alloc : TableAlloc) (v : ℕ) (s : Paging)
    → table_at s.words s.pml4_root v ≢ 0
    → walk alloc v true s ≡ some (table_at s.words s.pml4_root v, s)
unfolding walk level level_pd continue table_at
walk-table_at alloc v s h = ground arith

-- The page determines the indices, and the other way round.
pub indices_eq :
    (v w : ℕ)
    → page_of v ≡ page_of w
    → (pml4_index v ≡ pml4_index w)
      × (pdpt_index v ≡ pdpt_index w)
      × (pd_index v ≡ pd_index w)
      × (pt_index v ≡ pt_index w)
unfolding pml4_index pdpt_index pd_index pt_index
indices_eq v w h = (omega arith, omega arith, omega arith, omega arith)

page_of_indices :
    (v : ℕ)
    → page_of v ≡ ((pml4_index v * 512 + pdpt_index v) * 512 + pd_index v) * 512 + pt_index v
unfolding pml4_index pdpt_index pd_index pt_index
page_of_indices v = omega arith

-- Where a table stands: its level, 4 for the root and 0 for what is no table, and the part of the page
-- number that leads to it.
pub record Shape : Type 0 where
  pub lvl : ℕ → ℕ
  pub base : ℕ → ℕ

-- The entry `i` of the table `t` leads to a table of level `l` at its place.
abbrev pub LeadsTo : Shape → Words → ℕ → ℕ → ℕ → Type 0
LeadsTo sh w l t i =
    (sh.lvl (address_of (w t i)) ≡ l) × (sh.base (address_of (w t i)) ≡ sh.base t * 512 + i)

abbrev pub IsTree : Shape → Paging → Type 0
IsTree sh s =
    (sh.lvl s.pml4_root ≡ 4)
    × (sh.base s.pml4_root ≡ 0)
    × (sh.lvl 0 ≡ 0)
    × ((t i : ℕ)
        → sh.lvl t ≡ 4
        → page_present (s.words t i) ≡ true
        → i < 512
        → LeadsTo sh s.words 3 t i)
    × ((t i : ℕ)
        → sh.lvl t ≡ 3
        → page_present (s.words t i) ≡ true
        → i < 512
        → LeadsTo sh s.words 2 t i)
    × ((t i : ℕ)
        → sh.lvl t ≡ 2
        → page_present (s.words t i) ≡ true
        → page_size_flag (s.words t i) ≡ false
        → i < 512
        → LeadsTo sh s.words 1 t i)

abbrev path_tables : Words → ℕ → ℕ → ℕ × ℕ × ℕ
path_tables w root v =
    let pdpt = address_of (w root (pml4_index v)) in
    let pd = address_of (w pdpt (pdpt_index v)) in (pdpt, pd, address_of (w pd (pd_index v)))

table_at-present :
    (w : Words) (root v : ℕ)
    → table_at w root v ≢ 0
    → let (pdpt, pd, pt) = path_tables w root v in
      (page_present (w root (pml4_index v)) ≡ true)
      × (page_present (w pdpt (pdpt_index v)) ≡ true)
      × (page_present (w pd (pd_index v)) ≡ true)
      × (page_size_flag (w pd (pd_index v)) ≡ false)
      × (table_at w root v ≡ pt)
unfolding table_at
table_at-present w root v h = (ground arith, ground arith, ground arith, ground arith, ground arith)

pub table_at-IsTree :
    (sh : Shape) (s : Paging) (v : ℕ)
    → IsTree sh s
    → table_at s.words s.pml4_root v ≢ 0
    → (sh.lvl (table_at s.words s.pml4_root v) ≡ 1)
      × (sh.base (table_at s.words s.pml4_root v)
          ≡ (pml4_index v * 512 + pdpt_index v) * 512 + pd_index v)
unfolding pml4_index pdpt_index pd_index
table_at-IsTree sh s v (root, zero_base, none_at, four, three, two) h =
    let (p4, p3, p2, small, found) = table_at-present s.words s.pml4_root v h in
    let (l3, b3) = four _ _ root p4 (omega arith) in
    let (l2, b2) = three _ _ l3 p3 (omega arith) in
    let (l1, b1) = two _ _ l2 p2 small (omega arith) in
    (ap sh.lvl found ∙ l1, ap sh.base found ∙ omega (arith, b1, b2, b3))

choose : ℕ → ℕ → ℕ → ℕ
choose e4 e3 e2 =
    if page_present e4 && (page_present e3 && page_present e2)
    then if page_size_flag e2 then 0 else address_of e2
    else 0

choose-eq :
    (e4 e3 e2 e3' e2' : ℕ)
    → (page_present e4 ≡ true → e3' ≡ e3)
    → (page_present e4 ≡ true → page_present e3 ≡ true → e2' ≡ e2)
    → choose e4 e3' e2' ≡ choose e4 e3 e2
unfolding choose
choose-eq e4 e3 e2 e3' e2' h3 h2 = elim (Bool-cases (page_present e4)) [
  | inr absent ↦ ground arith
  | inl p4 ↦ elim (Bool-cases (page_present e3)) [
    | inr absent ↦ let same = h3 p4 in ground arith
    | inl p3 ↦ let same = h3 p4 in let same2 = h2 p4 p3 in ground arith
  ]
]

-- Words that agree along the path lead to the same table.
table_at-agree :
    (w w' : Words) (root v : ℕ)
    → (w' root (pml4_index v) ≡ w root (pml4_index v))
    → let (pdpt, pd, pt) = path_tables w root v in
      (page_present (w root (pml4_index v)) ≡ true → w' pdpt (pdpt_index v) ≡ w pdpt (pdpt_index v))
      → (page_present (w root (pml4_index v)) ≡ true
          → page_present (w pdpt (pdpt_index v)) ≡ true
          → w' pd (pd_index v) ≡ w pd (pd_index v))
      → table_at w' root v ≡ table_at w root v
unfolding table_at choose
table_at-agree w w' root v h4 h3 h2 =
    let e4 = w root (pml4_index v) in
    let pdpt = address_of e4 in
    let to : table_at w' root v
        ≡ choose e4 (w' pdpt (pdpt_index v))
            (w' (address_of (w' pdpt (pdpt_index v))) (pd_index v)) =
      ap
        (λ e.
          choose e (w' (address_of e) (pdpt_index v))
            (w' (address_of (w' (address_of e) (pdpt_index v))) (pd_index v)))
        h4 in
    to
    ∙ choose-eq e4 _ _ _ _ h3 (λ p4 p3. ap (λ e. w' (address_of e) (pd_index v)) (h3 p4) ∙ h2 p4 p3)

pub set_word_other : (t i e a j : ℕ) (w : Words) → a ≢ t → set_word t i e w a j ≡ w a j
unfolding set_word
set_word_other t i e a j w h = ground arith

pub set_word_self : (t i e : ℕ) (w : Words) → set_word t i e w t i ≡ e
unfolding set_word
set_word_self t i e w = ground arith

pub upper_table : (sh : Shape) (a t l : ℕ) → sh.lvl a ≡ suc (suc l) → sh.lvl t ≡ 1 → a ≢ t
upper_table sh a t l h one same = omega (arith, h, one, ap sh.lvl same)

-- A write into a table of level 1 changes no walk.
pub table_at-set_word :
    (sh : Shape) (s : Paging) (v t i e : ℕ)
    → IsTree sh s
    → sh.lvl t ≡ 1
    → table_at (set_word t i e s.words) s.pml4_root v ≡ table_at s.words s.pml4_root v
unfolding pml4_index pdpt_index
table_at-set_word sh s v t i e (root, zero_base, none_at, four, three, two) h =
    let w = s.words in
    let i4 = pml4_index v in
    let pdpt = address_of (w s.pml4_root i4) in
    let l3 : page_present (w s.pml4_root i4) ≡ true → sh.lvl pdpt ≡ 3 =
      λ p4. (four _ _ root p4 (omega arith)).0 in
    table_at-agree w (set_word t i e w) s.pml4_root v
      (set_word_other t i e _ _ w (upper_table sh _ t 2 root h))
      (λ p4. set_word_other t i e _ _ w (upper_table sh _ t 1 (l3 p4) h))
      (λ p4 p3.
        set_word_other t i e _ _ w (upper_table sh _ t 0 (three _ _ (l3 p4) p3 (omega arith)).0 h))
