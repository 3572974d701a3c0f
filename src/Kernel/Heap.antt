-- ===== src/Kernel/Heap.antt =====
-- kernel/heap.c: small objects from caches of slabs, larger ones from a list of blocks. The heap's memory is
-- given by its words of 8 bytes, at addresses that are multiples of 8: a header has its size at 0, its flag
-- `free`, an int, in the low half of the word at 8, and its links at 16 and 24. `none` is a panic or a loop
-- that runs out of fuel; `depth` bounds the depth of `paging_map_page`.
pub mod Blocks
pub mod RoundTrip
pub mod Growth
use mira_os.Base.{
  ℕ, zero, suc, ◌+◌, ◌-◌, ◌*◌, ◌/◌, ◌%◌, ◌^◌, Bool, true, false, ◌==◌, ◌&&◌, not, ltb, leb,
  if◌then◌else◌, Option, none, some, List, [], ◌∷◌,
}
use mira_os.Common.Memory.{Memory, poke}
use mira_os.Kernel.Words.{add64, sub64, mul64, add32}
use mira_os.Kernel.Pmm.{pmm_alloc_page}
use mira_os.Arch.Paging.{Paging, paging_map_page, paging_heap_base}

abbrev pub header_size : ℕ
header_size = 32

abbrev pub min_block : ℕ
min_block = 32

abbrev pub slab_max_size : ℕ
slab_max_size = 1024

-- The caches stand in the order of the list `slab_list`; `slab_size` is 4096 and never read.
pub record SlabCache : Type 0 where
  pub object_size : ℕ
  pub free_list : ℕ
  pub objects_per_slab : ℕ
  pub allocated : ℕ

pub record Heap : Type 0 where
  pub words : Memory
  pub heap_head : ℕ
  pub heap_mapped : ℕ
  pub heap_virt_base : ℕ
  pub slab_caches : List SlabCache
  pub paging : Paging

unfoldable pub block_size : Memory → ℕ → ℕ
block_size w b = w b

unfoldable pub is_free : Memory → ℕ → Bool
is_free w b = not (w (b + 8) % 2 ^ 32 == 0)

unfoldable pub next_block : Memory → ℕ → ℕ
next_block w b = w (b + 16)

unfoldable pub prev_block : Memory → ℕ → ℕ
prev_block w b = w (b + 24)

-- A write to the int `free`
unfoldable pub set_free : ℕ → ℕ → Memory → Memory
set_free b v w = poke w (b + 8) (w (b + 8) / 2 ^ 32 * 2 ^ 32 + v)

unfoldable pub slab_cache : ℕ → SlabCache
slab_cache size = record {
  object_size = size;
  free_list = 0;
  objects_per_slab = 4096 / size;
  allocated = 0;
}

unfoldable pub slab_init : List SlabCache
slab_init = slab_cache 32 ∷ slab_cache 64 ∷ slab_cache 128 ∷ slab_cache 256 ∷ slab_cache 512 ∷ []

-- `for (i = 0; i < objects_per_slab - 1; i++)` links the objects of a slab, from index `i`, with the rounds
-- left.
unfoldable pub link_objects : ℕ → ℕ → ℕ → ℕ → Memory → Memory
link_objects zero i ptr size w = w
link_objects (suc n) i ptr size w =
    link_objects n (i + 1) ptr size (poke w (ptr + i * size) (ptr + (i + 1) * size))

-- What stands between the caches and the heap while one cache is worked on.
abbrev pub CacheStep : Type 0
CacheStep = SlabCache → Heap → Option (ℕ × SlabCache × Heap)

-- The pop of the first object.
unfoldable pub slab_pop : SlabCache → Heap → ℕ × SlabCache × Heap
slab_pop c h =
    (c.free_list, record c { free_list = h.words c.free_list; allocated = add32 c.allocated 1 }, h)

-- A result of 0 is the pointer NULL.
unfoldable pub slab_alloc : ℕ → CacheStep
slab_alloc depth c h =
    let next : Paging = record (h.paging) { pmm = (pmm_alloc_page h.paging.pmm).1 } in
    let ptr = add64 h.heap_virt_base h.heap_mapped in
    let size = c.object_size in
    let last = c.objects_per_slab - 1 in
    let linked = poke (link_objects last 0 ptr size h.words) (ptr + last * size) 0 in
    if not (c.free_list == 0) then some (slab_pop c h) else elim ((pmm_alloc_page h.paging.pmm).0) [
      | none ↦ some (0, c, record h { paging = next })
      | some slab ↦ elim (paging_map_page depth ptr slab 0 next) [
        | none ↦ none
        | some r ↦ some (
            slab_pop (record c { free_list = ptr })
              (record h { words = linked; heap_mapped = add64 h.heap_mapped 4096; paging = r.1 }))
      ]
    ]

-- `slab_find_cache`, with what is done to the cache it finds; the outer `some none` is the result NULL.
unfoldable pub in_cache :
    CacheStep → ℕ → List SlabCache → Heap → Option (Option (ℕ × List SlabCache × Heap))
in_cache step size [] h = some none
in_cache step size (c ∷ cs) h =
    let rest = in_cache step size cs h in
    if leb size c.object_size
    then elim (step c h) [ none ↦ none | some r ↦ some (some (r.0, r.1 ∷ cs, r.2)) ]
    else elim rest [
      | none ↦ none
      | some o ↦ elim o [ none ↦ some none | some r ↦ some (some (r.0, c ∷ r.1, r.2)) ]
    ]

unfoldable pub heap_map_more : ℕ → ℕ → ℕ → Heap → Option Heap
heap_map_more depth zero needed h = none
heap_map_more depth (suc f) needed h =
    let next : Paging = record (h.paging) { pmm = (pmm_alloc_page h.paging.pmm).1 } in
    let rest = heap_map_more depth f needed in
    if ltb h.heap_mapped needed
    then elim ((pmm_alloc_page h.paging.pmm).0) [
      | none ↦ none
      | some phys ↦
          elim (paging_map_page depth (add64 h.heap_virt_base h.heap_mapped) phys 0 next) [
            | none ↦ none
            | some r ↦ rest (record h { heap_mapped = add64 h.heap_mapped 4096; paging = r.1 })
          ]
    ]
    else some h

-- A header on a fresh page.
unfoldable pub write_block : ℕ → ℕ → ℕ → Memory → Memory
write_block b next prev w =
    poke (poke (set_free b 1 (poke w b (4096 - header_size))) (b + 16) next) (b + 24) prev

unfoldable pub heap_init : ℕ → ℕ → Heap → Option Heap
heap_init depth f h =
    elim (heap_map_more depth f 4096
      (record h { heap_virt_base = paging_heap_base; heap_mapped = 0 })) [
        | none ↦ none
        | some g ↦ some (record g {
          heap_head = g.heap_virt_base;
          words = write_block g.heap_virt_base 0 0 g.words;
          slab_caches = slab_init;
        })
      ]

-- `if (p) p->prev = v`
unfoldable pub set_prev : ℕ → ℕ → Memory → Memory
set_prev p v w = if p == 0 then w else poke w (p + 24) v

unfoldable pub split_block : ℕ → ℕ → Memory → Memory
split_block b size w =
    let new = b + header_size + size in
    let first = poke w new (block_size w b - size - header_size) in
    let second = poke (set_free new 1 first) (new + 16) (next_block w b) in
    let third = poke second (new + 24) b in
    let fourth = set_prev (next_block third b) new third in
    if ltb (block_size w b) (add64 (add64 size header_size) min_block)
    then w
    else poke (poke fourth (b + 16) new) b size

-- The merge with the next block, then the merge into the previous one.
unfoldable pub merge_next : ℕ → Memory → Memory
merge_next b w =
    let n = next_block w b in
    let grown = poke w b (add64 (block_size w b) (add64 header_size (block_size w n))) in
    let linked = poke grown (b + 16) (next_block grown n) in
    if not (n == 0) && is_free w n then set_prev (next_block linked b) b linked else w

unfoldable pub merge_prev : ℕ → Memory → Memory
merge_prev b w =
    let p = prev_block w b in
    let grown = poke w p (add64 (block_size w p) (add64 header_size (block_size w b))) in
    let linked = poke grown (p + 16) (next_block grown b) in
    if not (p == 0) && is_free w p
    then set_prev (next_block linked b) (prev_block linked b) linked
    else w

unfoldable pub merge_adjacent : ℕ → Memory → Memory
merge_adjacent b w = merge_prev b (merge_next b w)

-- The loop for the first free block that is large enough, on fuel; the inner `none` is the end of the list.
unfoldable pub find_fit : ℕ → ℕ → ℕ → Memory → Option (Option ℕ)
find_fit zero current size w = none
find_fit (suc f) current size w =
    let rest = find_fit f (next_block w current) size w in
    if current == 0
    then some none
    else if is_free w current && leb size (block_size w current)
    then some (some current)
    else rest

unfoldable pub find_tail : ℕ → ℕ → Memory → Option ℕ
find_tail zero tail w = none
find_tail (suc f) tail w =
    let rest = find_tail f (next_block w tail) w in
    if next_block w tail == 0 then some tail else rest

-- `(size + 15) & ~15`
unfoldable pub round_size : ℕ → ℕ
round_size size = add64 size 15 / 16 * 16

-- The new area at the end of the list.
unfoldable pub add_area : ℕ → Heap → Option Heap
add_area f h =
    let area = sub64 (add64 h.heap_virt_base h.heap_mapped) 4096 in
    let fresh =
      λ (w : Memory). poke (set_free area 1 (poke w area (4096 - header_size))) (area + 16) 0 in
    if h.heap_head == 0
    then some (record h { heap_head = area; words = fresh h.words })
    else elim (find_tail f h.heap_head h.words) [
      | none ↦ none
      | some tail ↦
          some (record h { words = fresh (poke (poke h.words (tail + 16) area) (area + 24) tail) })
    ]

unfoldable pub take_block : ℕ → ℕ → Heap → ℕ × Heap
take_block b size h =
    (b + header_size, record h { words = set_free b 0 (split_block b size h.words) })

-- `f` bounds the loops and the calls of `kmalloc` to itself. The result 0 is NULL.
unfoldable pub kmalloc : ℕ → ℕ → ℕ → Heap → Option (ℕ × Heap)
kmalloc depth zero size h = none
kmalloc depth (suc f) size h =
    let rounded = round_size size in
    let again = kmalloc depth f rounded in
    let slab =
      if leb size slab_max_size
      then in_cache (slab_alloc depth) size h.slab_caches h
      else some none in
    if size == 0 then some (0, h) else elim slab [
      | none ↦ none
      | some found ↦ elim found [
        | some r ↦ some (r.0, record (r.2) { slab_caches = r.1 })
        | none ↦ elim (find_fit (suc f) h.heap_head rounded h.words) [
          | none ↦ none
          | some fit ↦ elim fit [
            | some b ↦ some (take_block b rounded h)
            | none ↦ elim (heap_map_more depth (suc f) (add64 h.heap_mapped 4096) h) [
              | none ↦ none
              | some g ↦ elim (add_area (suc f) g) [ none ↦ none | some a ↦ again a ]
            ]
          ]
        ]
      ]
    ]

unfoldable pub kfree : ℕ → Heap → Heap
kfree ptr h =
    let block = sub64 ptr header_size in
    if ptr == 0 then h else record h { words = merge_adjacent block (set_free block 1 h.words) }

-- The loop over bytes from `src` to `dst`, a word at a time, from word `i`, with the words left.
unfoldable pub copy_words : ℕ → ℕ → ℕ → ℕ → Memory → Memory
copy_words zero i dst src w = w
copy_words (suc n) i dst src w =
    copy_words n (i + 1) dst src (poke w (dst + i * 8) (w (src + i * 8)))

-- The last `r` bytes, fewer than 8, of such a loop, over the words `a` and `v`.
unfoldable pub low_bytes : ℕ → ℕ → ℕ → ℕ
low_bytes r a v = a / 2 ^ (8 * r) * 2 ^ (8 * r) + v % 2 ^ (8 * r)

unfoldable pub copy_bytes : ℕ → ℕ → ℕ → Memory → Memory
copy_bytes size dst src w =
    let n = size / 8 in
    let copied = copy_words n 0 dst src w in
    let a = dst + n * 8 in poke copied a (low_bytes (size % 8) (copied a) (copied (src + n * 8)))

-- `block->size` is read again in each round of the copy: a copy over the block's own header is not modelled.
unfoldable pub krealloc : ℕ → ℕ → ℕ → ℕ → Heap → Option (ℕ × Heap)
krealloc depth f ptr size h =
    let block = sub64 ptr header_size in
    if ptr == 0
    then kmalloc depth f size h
    else if size == 0
    then some (0, kfree ptr h)
    else if leb size (block_size h.words block)
    then some (ptr, h)
    else elim (kmalloc depth f size h) [
      | none ↦ none
      | some r ↦
          let moved = copy_bytes (block_size (r.1.words) block) (r.0) ptr (r.1.words) in
          if r.0 == 0 then some (0, r.1) else some (r.0, kfree ptr (record (r.1) { words = moved }))
    ]

unfoldable pub zero_words : ℕ → ℕ → ℕ → Memory → Memory
zero_words zero i dst w = w
zero_words (suc n) i dst w = zero_words n (i + 1) dst (poke w (dst + i * 8) 0)

unfoldable pub kcalloc : ℕ → ℕ → ℕ → ℕ → Heap → Option (ℕ × Heap)
kcalloc depth f nmemb size h =
    let total = mul64 nmemb size in
    elim (kmalloc depth f total h) [
      | none ↦ none
      | some r ↦
          let a = r.0 + total / 8 * 8 in
          let cleared = zero_words (total / 8) 0 (r.0) (r.1.words) in
          if r.0 == 0
          then some (0, r.1)
          else some
              (r.0, record (r.1) { words = poke cleared a (low_bytes (total % 8) (cleared a) 0) })
    ]

-- The loop over the blocks, on fuel.
unfoldable pub sum_used : ℕ → ℕ → Memory → ℕ → Option ℕ
sum_used zero current w used = none
sum_used (suc f) current w used =
    let more = if is_free w current then used else add64 used (block_size w current) in
    let rest = sum_used f (next_block w current) w more in if current == 0 then some used else rest

unfoldable pub heap_used : ℕ → Heap → Option ℕ
heap_used f h = sum_used f h.heap_head h.words 0

unfoldable pub heap_total : Heap → ℕ
heap_total h = h.heap_mapped
