-- ===== src/Kernel/Heap/Growth.antt =====
-- How the heap grows: by areas of one page, so that no request for more than a page is ever served.
use mira_os.Base.{
  ℕ, zero, suc, ◌+◌, ◌*◌, ◌^◌, ◌<◌, ◌≤◌, ◌≡◌, ◌≢◌, ◌⊎◌, refl, ap, ◌∙◌, sym, inl, inr, ◌==◌,
  Bool-cases, Option-cases, true, false, arith, ltb, leb, Option, none, some,
}
use mathlib.Core.Path.{subst}
use mira_os.Common.Memory.{Memory, poke}
use mira_os.Kernel.Words.{add64, sub64}
use mira_os.Kernel.Pmm.{pmm_alloc_page}
use mira_os.Arch.Paging.{Paging, paging_map_page}
use mira_os.Kernel.Heap.{
  block_size, next_block, set_free, find_fit, find_tail, heap_map_more, add_area, kmalloc,
  round_size, Heap,
}

-- The list from `current` on has `n` blocks: their headers stand in rising order below `limit`, and none has
-- room for `size` bytes.
abbrev pub NoRoom : Memory → ℕ → ℕ → ℕ → ℕ → Type 0
NoRoom w limit size current zero = current ≡ 0
NoRoom w limit size current (suc n) =
    (current ≢ 0)
    × (current + 32 ≤ limit)
    × (w current < size)
    × ((w (current + 16) ≡ 0) ⊎ (current + 32 ≤ w (current + 16)))
    × NoRoom w limit size (w (current + 16)) n

find_fit-NoRoom :
    (f : ℕ) (w : Memory) (limit size current n b : ℕ)
    → NoRoom w limit size current n
    → find_fit f current size w ≢ some (some b)
unfolding find_fit block_size next_block
find_fit-NoRoom zero w limit size current n b h e = absurd (ground arith)
find_fit-NoRoom (suc f) w limit size current zero b h e = absurd (ground arith)
find_fit-NoRoom (suc f) w limit size current (suc n) b (null, low, small, behind, rest) e =
    find_fit-NoRoom f w limit size (w (current + 16)) n b rest (ground arith)

find_tail-above :
    (f : ℕ) (w : Memory) (limit size current n tail : ℕ)
    → NoRoom w limit size current n
    → current ≢ 0
    → find_tail f current w ≡ some tail
    → (current ≤ tail) × (tail + 32 ≤ limit)
unfolding find_tail next_block
find_tail-above zero w limit size current n tail h ne e = absurd (ground arith)
find_tail-above (suc f) w limit size current zero tail h ne e = absurd (ne h)
find_tail-above (suc f) w limit size current (suc n) tail (null, low, small, behind, rest) ne e =
    elim (Bool-cases (w (current + 16) == 0)) [
      | inl last ↦ (ground arith, ground arith)
      | inr more ↦
          let next : w (current + 16) ≢ 0 = λ z. absurd (ground (arith, z)) in
          let (above, inside) =
            find_tail-above f w limit size (w (current + 16)) n tail rest next (ground arith) in
          (ground arith, inside)
    ]

module _ (w w' : Memory) (limit size tail : ℕ)
    (kept : (y : ℕ) → y < limit → y ≢ tail + 16 → w' y ≡ w y) (linked : w' (tail + 16) ≡ limit)
    (sized : w' limit ≡ 4064) (ended : w' (limit + 16) ≡ 0) (large : 4064 < size)
    (positive : limit ≢ 0) where
  new-NoRoom : NoRoom w' (limit + 4096) size limit 1
  new-NoRoom = (positive, omega arith, omega (arith, sized), inl ended, ended)

  grown-NoRoom :
      (f current n : ℕ)
      → NoRoom w limit size current n
      → current ≢ 0
      → find_tail f current w ≡ some tail
      → NoRoom w' (limit + 4096) size current (suc n)
  unfolding find_tail next_block
  grown-NoRoom zero current n h ne e = absurd (ground arith)
  grown-NoRoom (suc f) current zero h ne e = absurd (ne h)
  grown-NoRoom (suc f) current (suc zero) (null, low, small, behind, last) ne e =
      let at : tail ≡ current = ground arith in
      let here : w' current ≡ w current =
        kept current (omega arith) (λ z. absurd (omega (arith, z, at))) in
      let next : w' (current + 16) ≡ limit = ap (λ t. w' (t + 16)) (sym at) ∙ linked in
      (ne, omega arith, omega (arith, here), inr (omega (arith, next)), rw next new-NoRoom)
  grown-NoRoom (suc f) current (suc (suc n)) (null, low, small, behind, rest) ne e =
      let there = rest.0 in
      let far : current + 32 ≤ w (current + 16) = elim behind [
        | inl z ↦ absurd (there z)
        | inr far ↦ far
      ] in
      let found : find_tail f (w (current + 16)) w ≡ some tail = ground (arith, there) in
      let (above, inside) =
        find_tail-above f w limit size (w (current + 16)) (suc n) tail rest there found in
      let here : w' current ≡ w current =
        kept current (omega arith) (λ z. absurd (omega (arith, z, above, far))) in
      let next : w' (current + 16) ≡ w (current + 16) =
        kept (current + 16) (omega arith) (λ z. absurd (omega (arith, z, above, far))) in
      (
        ne,
        omega arith,
        omega (arith, here),
        inr (omega (arith, next, far)),
        rw next (grown-NoRoom f (w (current + 16)) (suc n) rest there found),
      )

map_more-stop :
    (depth f needed : ℕ) (h g : Heap)
    → heap_map_more depth f needed h ≡ some g
    → needed ≤ h.heap_mapped
    → g ≡ h
unfolding heap_map_more
map_more-stop depth zero needed h g e le = absurd (ground arith)
map_more-stop depth (suc f) needed h g e le = ground arith

map_more-kept :
    (depth f needed : ℕ) (h g : Heap)
    → heap_map_more depth f needed h ≡ some g
    → needed ≡ h.heap_mapped + 4096
    → needed < 2 ^ 64
    → (g.words ≡ h.words)
      × (g.heap_head ≡ h.heap_head)
      × (g.heap_virt_base ≡ h.heap_virt_base)
      × (g.heap_mapped ≡ needed)
unfolding heap_map_more
map_more-kept depth zero needed h g e at bound = absurd (ground arith)
map_more-kept depth (suc f) needed h g e at bound =
    let next : Paging = record (h.paging) { pmm = (pmm_alloc_page h.paging.pmm).1 } in
    let v = add64 h.heap_virt_base h.heap_mapped in
    let more : ltb h.heap_mapped needed ≡ true = ground arith in
    elim (Option-cases ((pmm_alloc_page h.paging.pmm).0)) [
      | inl none_free ↦ absurd (ground arith)
      | inr (phys, page) ↦ elim (Option-cases (paging_map_page depth v phys 0 next)) [
        | inl panic ↦ absurd (ground arith)
        | inr (r, mapped) ↦
            let grown : Heap = record h { heap_mapped = add64 h.heap_mapped 4096; paging = r.1 } in
            let run : heap_map_more depth (suc f) needed h ≡ heap_map_more depth f needed grown =
              ground arith in
            let all : add64 h.heap_mapped 4096 ≡ needed = omega arith in
            let stop = map_more-stop depth f needed grown g (sym run ∙ e) (omega (arith, all)) in
            (
              ap (λ x. x.words) stop,
              ap (λ x. x.heap_head) stop,
              ap (λ x. x.heap_virt_base) stop,
              ap (λ x. x.heap_mapped) stop ∙ all,
            )
      ]
    ]

-- The words of the new area, when its links are written.
fresh : ℕ → Memory → Memory
fresh area w = poke (set_free area 1 (poke w area 4064)) (area + 16) 0

fresh_parts :
    (area tail : ℕ) (w : Memory)
    → tail + 32 ≤ area
    → let w' = fresh area (poke (poke w (tail + 16) area) (area + 24) tail) in
      ((y : ℕ) → y < area → y ≢ tail + 16 → w' y ≡ w y)
      × (w' (tail + 16) ≡ area)
      × (w' area ≡ 4064)
      × (w' (area + 16) ≡ 0)
unfolding fresh set_free poke
fresh_parts area tail w below = (λ y lt ne. ground arith, ground arith, ground arith, ground arith)

fresh_alone : (area : ℕ) (w : Memory) → (fresh area w area ≡ 4064) × (fresh area w (area + 16) ≡ 0)
unfolding fresh set_free poke
fresh_alone area w = (ground arith, ground arith)

-- The new area, behind a list without room.
add_area-NoRoom :
    (f size n limit : ℕ) (h a : Heap)
    → NoRoom h.words limit size h.heap_head n
    → 4064 < size
    → limit ≢ 0
    → h.heap_virt_base + h.heap_mapped ≡ limit + 4096
    → limit + 4096 < 2 ^ 64
    → add_area f h ≡ some a
    → (k : ℕ) × NoRoom a.words (limit + 4096) size a.heap_head k
      × (a.heap_virt_base ≡ h.heap_virt_base)
      × (a.heap_mapped ≡ h.heap_mapped)
unfolding add_area fresh
add_area-NoRoom f size n limit h a room large positive top bound e =
    let w = h.words in
    let area = sub64 (add64 h.heap_virt_base h.heap_mapped) 4096 in
    let at : area ≡ limit = omega arith in
    elim (Bool-cases (h.heap_head == 0)) [
      | inl empty ↦
          let eq : a ≡ record h { heap_head = area; words = fresh area w } = ground arith in
          let eq' : a ≡ record h { heap_head = limit; words = fresh limit w } =
            eq ∙ ap (λ c. record h { heap_head = c; words = fresh c w }) at in
          let (sized, ended) = fresh_alone limit w in
          (
            1,
            subst (λ (x : Heap). NoRoom x.words (limit + 4096) size x.heap_head 1) (sym eq')
                (positive, omega arith, omega (arith, sized), inl ended, ended),
            ap (λ x. x.heap_virt_base) eq',
            ap (λ x. x.heap_mapped) eq',
          )
      | inr filled ↦ elim (Option-cases (find_tail f h.heap_head w)) [
        | inl stuck ↦ absurd (ground arith)
        | inr (tail, found) ↦
            let head : h.heap_head ≢ 0 = λ z. absurd (ground (arith, z)) in
            let (above, inside) =
              find_tail-above f w limit size h.heap_head n tail room head found in
            let w' = fresh limit (poke (poke w (tail + 16) limit) (limit + 24) tail) in
            let eq : a ≡ record h {
              words = fresh area (poke (poke w (tail + 16) area) (area + 24) tail);
            } =
              ground arith in
            let eq' : a ≡ record h { words = w' } =
              eq
              ∙ ap (λ c. record h { words = fresh c (poke (poke w (tail + 16) c) (c + 24) tail) })
                  at in
            let (kept, linked, sized, ended) = fresh_parts limit tail w inside in
            (
              suc n,
              subst (λ (x : Heap). NoRoom x.words (limit + 4096) size x.heap_head (suc n)) (sym eq')
                  (grown-NoRoom w w' limit size tail kept linked sized ended large positive f
                    h.heap_head n room head found),
              ap (λ x. x.heap_virt_base) eq',
              ap (λ x. x.heap_mapped) eq',
            )
      ]
    ]

round_size-twice : (size : ℕ) → size ≤ 2 ^ 62 → round_size (round_size size) ≡ round_size size
unfolding round_size
round_size-twice size bound = omega arith

round_size-bound :
    (size : ℕ) → size ≤ 2 ^ 62 → (size ≤ round_size size) × (round_size size ≤ 2 ^ 62)
unfolding round_size
round_size-bound size bound = (omega arith, omega arith)

-- What `kmalloc` does when no block fits, by what the growth gives.
growth : ℕ → ℕ → ℕ → Heap → Option Heap
growth depth f size h = elim (heap_map_more depth f (add64 h.heap_mapped 4096) h) [
  | none ↦ none
  | some g ↦ add_area f g
]

kmalloc-growth :
    (depth f size : ℕ) (h : Heap) (o : Option Heap)
    → 1024 < size
    → ((b : ℕ) → find_fit (suc f) h.heap_head (round_size size) h.words ≢ some (some b))
    → growth depth (suc f) size h ≡ o
    → ((a : Heap) → o ≡ some a → kmalloc depth f (round_size size) a ≡ none)
    → kmalloc depth (suc f) size h ≡ none
unfolding kmalloc growth
kmalloc-growth depth f size h o large no_fit e rest =
    let some_size : (size == 0) ≡ false = ground arith in
    let slab : leb size 1024 ≡ false = ground arith in
    elim (Option-cases (find_fit (suc f) h.heap_head (round_size size) h.words)) [
      | inl stuck ↦ rw (some_size, kmalloc) (rw slab (rw stuck refl))
      | inr (fit, found) ↦ elim (Option-cases fit) [
        | inr (b, at) ↦ absurd (no_fit b (found ∙ ap some at))
        | inl at ↦
            let ends = found ∙ ap some at in
            elim (Option-cases (heap_map_more depth (suc f) (add64 h.heap_mapped 4096) h)) [
              | inl panic ↦ rw (some_size, kmalloc) (rw slab (rw ends (rw panic refl)))
              | inr (g, mapped) ↦ elim (Option-cases (add_area (suc f) g)) [
                | inl stuck ↦
                    rw (some_size, kmalloc) (rw slab (rw ends (rw mapped (rw stuck refl))))
                | inr (a, added) ↦
                    let all : o ≡ some a = sym e ∙ (rw (mapped, growth) added) in
                    rw (some_size, kmalloc) (rw slab (rw ends (rw mapped (rw added (rest a all)))))
              ]
            ]
      ]
    ]

-- A request for more than the 4064 bytes of an area, and at most 2 ^ 62, is never served by growth: where the
-- blocks of the list stand in rising order in the mapped part and none has room, `kmalloc` has no result on
-- any fuel under which the addresses stay below 2 ^ 63, since each new area is as small as the ones before.
pub kmalloc-NoRoom :
    (depth f size n : ℕ) (h : Heap)
    → 4064 < size
    → size ≤ 2 ^ 62
    → NoRoom h.words (h.heap_virt_base + h.heap_mapped) (round_size size) h.heap_head n
    → h.heap_virt_base ≢ 0
    → h.heap_virt_base + h.heap_mapped + f * 4096 < 2 ^ 63
    → kmalloc depth f size h ≡ none
unfolding kmalloc growth
kmalloc-NoRoom depth zero size n h large bound room base top = refl
kmalloc-NoRoom depth (suc f) size n h large bound room base top =
    let limit = h.heap_virt_base + h.heap_mapped in
    let all : add64 h.heap_mapped 4096 ≡ h.heap_mapped + 4096 = omega arith in
    kmalloc-growth depth f size h _ (omega arith)
      (λ b. find_fit-NoRoom (suc f) h.words limit (round_size size) h.heap_head n b room) refl
      (λ a e. elim (Option-cases (heap_map_more depth (suc f) (add64 h.heap_mapped 4096) h)) [
        | inl panic ↦ absurd (ground arith)
        | inr (g, mapped) ↦
            let rounded = round_size size in
            let (low, high) = round_size-bound size bound in
            let added : add_area (suc f) g ≡ some a = sym (rw (mapped, growth) refl) ∙ e in
            let (words, head, same, more) =
              map_more-kept depth (suc f) (add64 h.heap_mapped 4096) h g mapped all
                (omega (arith, all)) in
            let room_g : NoRoom g.words limit rounded g.heap_head n =
              subst (λ (m : Memory). NoRoom m limit rounded g.heap_head n) (sym words)
                (subst (λ (c : ℕ). NoRoom h.words limit rounded c n) (sym head) room) in
            let (k, room_a, same', more') =
              add_area-NoRoom (suc f) rounded n limit g a room_g (omega (arith, low)) (omega arith)
                (omega (arith, same, more, all)) (omega arith) added in
            let end : a.heap_virt_base + a.heap_mapped ≡ limit + 4096 =
              omega (arith, same, more, same', more', all) in
            kmalloc-NoRoom depth f rounded k a (omega (arith, low)) high
              (subst (λ (c : ℕ). NoRoom a.words c (round_size rounded) a.heap_head k) (sym end)
                (subst (λ (c : ℕ). NoRoom a.words (limit + 4096) c a.heap_head k)
                  (sym (round_size-twice size bound)) room_a))
              (omega (arith, same, same')) (omega (arith, end))
      ])
