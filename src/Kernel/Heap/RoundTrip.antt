-- ===== src/Kernel/Heap/RoundTrip.antt =====
-- A block taken by `kmalloc` and given back by `kfree`.
use mira_os.Base.{
  ℕ, zero, suc, ◌+◌, ◌%◌, ◌^◌, ◌<◌, ◌≤◌, ◌≡◌, ◌≢◌, ◌⊎◌, refl, ap, ◌∙◌, sym, inl, inr, ◌==◌,
  Bool-cases, true, false, not, arith, if◌then◌else◌, ◌&&◌, ltb, leb, some,
}
use mira_os.Common.Memory.{Memory, poke}
use mira_os.Kernel.Words.{add64, sub64}
use mira_os.Kernel.Heap.{
  block_size, is_free, next_block, set_free, set_prev, split_block, merge_next, merge_prev,
  merge_adjacent, find_fit, take_block, kmalloc, kfree, round_size, slab_max_size, Heap,
}
use mira_os.Kernel.Heap.Blocks.{
  Placed, in_header, merge_next-skip, merge_prev-skip, set_free-twice, merge_next_lem, split_other,
  split_parts,
}

-- The same neighbour, seen in two memories that agree on it.
neighbour :
    (t w : Memory) (a : ℕ)
    → t a ≡ w a
    → t (w a + 8) ≡ w (w a + 8)
    → (w a ≡ 0) ⊎ (w (w a + 8) % 2 ^ 32 ≡ 0)
    → (t a ≡ 0) ⊎ (t (t a + 8) % 2 ^ 32 ≡ 0)
neighbour t w a e f (inl null) = inl (e ∙ null)
neighbour t w a e f (inr busy) =
    inr (ap (λ c. t (c + 8) % 2 ^ 32) e ∙ (ap (λ c. c % 2 ^ 32) f ∙ busy))

split_block-whole :
    (w : Memory) (b size : ℕ) → w b < size + 64 → size < 2 ^ 63 → split_block b size w ≡ w
unfolding split_block block_size
split_block-whole w b size small bound =
    let cond : ltb (w b) (add64 (add64 size 32) 32) ≡ true = ground arith in
    rw (cond, split_block) refl

set_prev_lem :
    (p v : ℕ) (t : Memory) (y : ℕ)
    → set_prev p v t y ≡ (if not (p == 0) && (y == p + 24) then v else t y)
unfolding set_prev poke
set_prev_lem p v t y = ground arith

poke_lem : (t : Memory) (a v y : ℕ) → poke t a v y ≡ (if y == a then v else t y)
unfolding poke
poke_lem t a v y = refl

module _ (w : Memory) (b size : ℕ) (placed : Placed w b) (fit : size ≤ w b) where
  -- The words after the flag was set twice.
  abbrev given : Memory
  given = set_free b 1 (set_free b 0 (split_block b size w))

  whole_back : (x : ℕ) → w b < size + 64 → size < 2 ^ 63 → merge_adjacent b given x ≡ w x
  unfolding merge_adjacent
  whole_back x small bound =
      let (top, flag, behind, before) = placed in
      let whole = split_block-whole w b size small bound in
      let eq : (y : ℕ) → given y ≡ w y =
        λ y. ap (λ s. set_free b 1 (set_free b 0 s) y) whole ∙ set_free-twice b w y flag in
      let next = merge_next-skip b given (
        neighbour given w (b + 16) (eq _) (eq _)
          (elim behind [ inl e ↦ inl e | inr (far, busy, back) ↦ inr busy ])) in
      let prev = merge_prev-skip b given (
        neighbour given w (b + 24) (eq _) (eq _)
          (elim before [ inl e ↦ inl e | inr (near, busy) ↦ inr busy ])) in
      ap (λ t. merge_prev b t x) next ∙ (ap (λ t. t x) prev ∙ eq x)

  merged_words :
      size + 64 ≤ w b
      → ((y : ℕ) → given y ≡ split_block b size w y)
      → (y : ℕ) → in_header (b + 32 + size) y ≡ false
      → set_prev (w (b + 16)) b (poke (poke given b (w b)) (b + 16) (w (b + 16))) y ≡ w y
  merged_words large eq y outside =
      let (top, flag, behind, before) = placed in
      let n = w (b + 16) in
      let one = poke given b (w b) in
      let two = poke one (b + 16) n in
      set_prev_lem n b two y ∙ elim (Bool-cases (not (n == 0) && (y == n + 24))) [
        | inl link ↦ elim behind [
          | inl null ↦ absurd (ground arith)
          | inr (far, busy, back) ↦
              let at : n + 24 ≡ y = ground arith in rw link (sym back ∙ ap w at)
        ]
        | inr other ↦ rw other (
            poke_lem one (b + 16) n y ∙ elim (Bool-cases (y == b + 16)) [
              | inl next ↦ let at : b + 16 ≡ y = ground arith in rw next (ap w at)
              | inr not_next ↦ rw not_next (
                  poke_lem given b (w b) y ∙ elim (Bool-cases (y == b)) [
                    | inl first ↦ let at : b ≡ y = ground arith in rw first (ap w at)
                    | inr not_first ↦
                        let away : (n ≡ 0) ⊎ (y ≢ n + 24) = elim (Bool-cases (n == 0)) [
                          | inl null ↦ inl (ground arith)
                          | inr there ↦ inr (λ e. absurd (ground (arith, e)))
                        ] in
                        rw not_first (
                          eq y
                          ∙ split_other w b size placed large y outside
                              (λ e. absurd (ground (arith, e))) (λ e. absurd (ground (arith, e)))
                              away)
                  ])
            ])
      ]

  split_back :
      (x : ℕ)
      → size + 64 ≤ w b
      → in_header (b + 32 + size) x ≡ false
      → merge_adjacent b given x ≡ w x
  unfolding merge_adjacent
  split_back x large outside =
      let (top, flag, behind, before) = placed in
      let new = b + 32 + size in
      let n = w (b + 16) in
      let s = split_block b size w in
      let (p1, p2, p3, p4, p5) = split_parts w b size placed large in
      let low : (y : ℕ) → y < b + 32 → (n ≡ 0) ⊎ (y ≢ n + 24) = λ y lt. elim behind [
        | inl e ↦ inl e
        | inr (far, busy, back) ↦ inr (λ e. absurd (omega (arith, e, far)))
      ] in
      let flag_kept : s (b + 8) ≡ w (b + 8) =
        split_other w b size placed large (b + 8) (ground arith) (λ e. absurd (omega (arith, e)))
          (λ e. absurd (omega (arith, e))) (low (b + 8) (omega arith)) in
      let eq : (y : ℕ) → given y ≡ s y =
        λ y. set_free-twice b s y (ap (λ c. c % 2 ^ 32) flag_kept ∙ flag) in
      let merged : Memory = set_prev n b (poke (poke given b (w b)) (b + 16) n) in
      let sum : add64 (given b) (add64 32 (given new)) ≡ w b =
        ap (λ c. add64 c (add64 32 (given new))) (eq b ∙ p1)
        ∙ (ap (λ c. add64 size (add64 32 c)) (eq new ∙ p3) ∙ omega arith) in
      let next : merge_next b given ≡ merged =
        merge_next_lem b new n given (eq _ ∙ p2) (λ e. absurd (omega (arith, e)))
          (ap (λ c. c % 2 ^ 32) (eq (new + 8)) ∙ p4) (eq _ ∙ p5) (omega arith)
        ∙ ap (λ c. set_prev n b (poke (poke given b c) (b + 16) n)) sum in
      let words = merged_words large eq in
      let prev = merge_prev-skip b merged (
        neighbour merged w (b + 24) (words _ (ground arith))
          (words _ (elim before [ inl e ↦ ground arith | inr (near, busy) ↦ ground arith ]))
          (elim before [ inl e ↦ inl e | inr (near, busy) ↦ inr busy ])) in
      ap (λ t. merge_prev b t x) next ∙ (ap (λ t. t x) prev ∙ words x outside)

find_fit-some :
    (f current size : ℕ) (w : Memory) (b : ℕ)
    → find_fit f current size w ≡ some (some b)
    → (is_free w b ≡ true) × (size ≤ w b)
unfolding find_fit block_size
find_fit-some zero current size w b h = absurd (ground arith)
find_fit-some (suc f) current size w b h =
    elim (Bool-cases (is_free w current && leb size (w current))) [
      | inl found ↦ (ground arith, ground arith)
      | inr not_found ↦ find_fit-some f (next_block w current) size w b (ground arith)
    ]

kmalloc-found :
    (depth f size : ℕ) (h : Heap) (b : ℕ)
    → slab_max_size < size
    → find_fit (suc f) h.heap_head (round_size size) h.words ≡ some (some b)
    → kmalloc depth (suc f) size h ≡ some (take_block b (round_size size) h)
unfolding kmalloc
kmalloc-found depth f size h b large found =
    let slab : leb size slab_max_size ≡ false = ground arith in
    let some_size : (size == 0) ≡ false = ground arith in
    rw (some_size, kmalloc) (rw slab (rw found refl))

kfree_words :
    (b : ℕ) (h : Heap) (x : ℕ)
    → b + 32 < 2 ^ 64
    → (kfree (b + 32) h).words x ≡ merge_adjacent b (set_free b 1 h.words) x
unfolding kfree
kfree_words b h x bound =
    let null : (b + 32 == 0) ≡ false = ground arith in
    let block : sub64 (b + 32) 32 ≡ b = omega arith in
    rw (null, kfree) (ap (λ c. merge_adjacent c (set_free c 1 h.words) x) block)

taken_block :
    (w : Memory) (b size : ℕ)
    → Placed w b
    → size ≤ w b
    → size < 2 ^ 63
    → (is_free (set_free b 0 (split_block b size w)) b ≡ false)
      × (size ≤ block_size (set_free b 0 (split_block b size w)) b)
unfolding is_free set_free poke block_size
taken_block w b size placed fit bound = (
  ground arith,
  elim (Bool-cases (ltb (w b) (size + 64))) [
    | inl small ↦
        let whole = split_block-whole w b size (ground arith) bound in
        ground (arith, ap (λ s. s b) whole)
    | inr large ↦
        let (p1, p2, p3, p4, p5) = split_parts w b size placed (ground arith) in ground (arith, p1)
  ],
)

round_size-bound :
    (size : ℕ) → size < 2 ^ 62 → (size ≤ round_size size) × (round_size size < 2 ^ 63)
unfolding round_size
round_size-bound size bound = (omega arith, omega arith)

-- A request above 1024 bytes for which the list has a free block gives the first such block, which is then no
-- longer free and holds at least the size that was asked for; `kfree` of the result brings back every word of
-- the heap, but for the header of the part that was cut off, provided that the neighbours of the block are not
-- free and the links of the list are consistent there; requests of 2 ^ 62 bytes and more are left out.
pub kfree-kmalloc :
    (depth f size : ℕ) (h : Heap) (b : ℕ)
    → slab_max_size < size
    → size < 2 ^ 62
    → find_fit (suc f) h.heap_head (round_size size) h.words ≡ some (some b)
    → Placed h.words b
    → (h' : Heap) × (kmalloc depth (suc f) size h ≡ some (b + 32, h'))
      × (is_free h'.words b ≡ false)
      × (size ≤ block_size h'.words b)
      × ((x : ℕ)
          → in_header (b + 32 + round_size size) x ≡ false
          → (kfree (b + 32) h').words x ≡ h.words x)
unfolding take_block
kfree-kmalloc depth f size h b large bound found placed =
    let w = h.words in
    let rounded = round_size size in
    let (free, fit) = find_fit-some (suc f) h.heap_head rounded w b found in
    let (low, high) = round_size-bound size bound in
    let taken = (take_block b rounded h).1 in
    let (busy, holds) = taken_block w b rounded placed fit high in
    (
      taken,
      kmalloc-found depth f size h b large found,
      busy,
      omega (arith, low, holds),
      λ x outside.
          kfree_words b taken x (omega (arith, placed.0))
          ∙ elim (Bool-cases (ltb (w b) (rounded + 64))) [
            | inl small ↦ whole_back w b rounded placed fit x (ground arith) high
            | inr cut ↦ split_back w b rounded placed fit x (ground arith) outside
          ],
    )
