-- ===== src/Kernel/Heap/Blocks.antt =====
-- The blocks of the heap's list: what a split and a merge do to the words of their headers.
use mira_os.Base.{
  ℕ, ◌+◌, ◌-◌, ◌*◌, ◌/◌, ◌%◌, ◌^◌, ◌<◌, ◌≤◌, ◌≡◌, ◌≢◌, ◌⊎◌, refl, ap, ◌∙◌, inl, inr, ◌==◌,
  Bool-cases, Bool, true, false, not, arith, ◌&&◌, ltb, leb,
}
use mira_os.Common.Memory.{Memory, poke}
use mira_os.Kernel.Words.{add64}
use mira_os.Kernel.Heap.{
  block_size, is_free, next_block, prev_block, set_free, set_prev, split_block, merge_next,
  merge_prev,
}

-- The block `b` of the list: it is free, its neighbours are not, and they stand below it and behind it.
abbrev pub Placed : Memory → ℕ → Type 0
Placed w b =
    (b + 32 + w b < 2 ^ 64)
    × (w (b + 8) % 2 ^ 32 ≡ 1)
    × ((w (b + 16) ≡ 0)
        ⊎ ((b + 32 + w b ≤ w (b + 16))
            × (w (w (b + 16) + 8) % 2 ^ 32 ≡ 0)
            × (w (w (b + 16) + 24) ≡ b)))
    × ((w (b + 24) ≡ 0) ⊎ ((w (b + 24) + 32 ≤ b) × (w (w (b + 24) + 8) % 2 ^ 32 ≡ 0)))

-- The header of the block that a split cuts off.
abbrev pub in_header : ℕ → ℕ → Bool
in_header new x = leb new x && ltb x (new + 32)

pub merge_next-skip :
    (b : ℕ) (t : Memory) → (t (b + 16) ≡ 0) ⊎ (t (t (b + 16) + 8) % 2 ^ 32 ≡ 0) → merge_next b t ≡ t
unfolding merge_next is_free next_block
merge_next-skip b t (inl none_there) =
    let cond : (not (next_block t b == 0) && is_free t (next_block t b)) ≡ false = ground arith in
    rw (cond, merge_next) refl
merge_next-skip b t (inr busy) =
    let cond : (not (next_block t b == 0) && is_free t (next_block t b)) ≡ false = ground arith in
    rw (cond, merge_next) refl

pub merge_prev-skip :
    (b : ℕ) (t : Memory) → (t (b + 24) ≡ 0) ⊎ (t (t (b + 24) + 8) % 2 ^ 32 ≡ 0) → merge_prev b t ≡ t
unfolding merge_prev is_free prev_block
merge_prev-skip b t (inl none_there) =
    let cond : (not (prev_block t b == 0) && is_free t (prev_block t b)) ≡ false = ground arith in
    rw (cond, merge_prev) refl
merge_prev-skip b t (inr busy) =
    let cond : (not (prev_block t b == 0) && is_free t (prev_block t b)) ≡ false = ground arith in
    rw (cond, merge_prev) refl

-- Taken and freed again, the flag is as it was.
pub set_free-twice :
    (b : ℕ) (t : Memory) (x : ℕ) → t (b + 8) % 2 ^ 32 ≡ 1 → set_free b 1 (set_free b 0 t) x ≡ t x
unfolding set_free poke
set_free-twice b t x h =
    let same : (t (b + 8) / 2 ^ 32 * 2 ^ 32 + 0) / 2 ^ 32 * 2 ^ 32 + 1 ≡ t (b + 8) = omega arith in
    elim (Bool-cases (x == b + 8)) [
      | inl here ↦ let at : x ≡ b + 8 = ground arith in ground (arith, ap t at)
      | inr there ↦ ground arith
    ]

poke_same : (t : Memory) (a v : ℕ) → poke t a v a ≡ v
unfolding poke
poke_same t a v = ground arith

poke_apart : (t : Memory) (a v x : ℕ) → x ≢ a → poke t a v x ≡ t x
unfolding poke
poke_apart t a v x ne = ground arith

-- A merge with the next block `n`, whose own next is `k`.
pub merge_next_lem :
    (b n k : ℕ) (t : Memory)
    → t (b + 16) ≡ n
    → n ≢ 0
    → t (n + 8) % 2 ^ 32 ≡ 1
    → t (n + 16) ≡ k
    → b + 32 ≤ n
    → merge_next b t ≡ set_prev k b (poke (poke t b (add64 (t b) (add64 32 (t n)))) (b + 16) k)
unfolding is_free next_block block_size merge_next set_prev
merge_next_lem b n k t next null free after far =
    let cond : (not (next_block t b == 0) && is_free t (next_block t b)) ≡ true =
      rw next (ground arith) in
    let grown = poke t b (add64 (t b) (add64 32 (t n))) in
    let inner : next_block grown n ≡ k =
      poke_apart t b _ (n + 16) (λ e. absurd (omega (arith, e))) ∙ after in
    let linked = poke grown (b + 16) k in
    let outer : next_block linked b ≡ k = poke_same grown (b + 16) k in
    rw (cond, merge_next)
      (ap
          (λ c.
            let g = poke t b (add64 (t b) (add64 32 (t c))) in
            let l = poke g (b + 16) (next_block g c) in set_prev (next_block l b) b l)
          next
        ∙ (ap (λ c. let l = poke grown (b + 16) c in set_prev (next_block l b) b l) inner
            ∙ ap (λ c. set_prev c b linked) outer))

-- The words of a block that is split: those of the header that is cut off, before the two links to it.
header_words : Memory → ℕ → ℕ → Memory
header_words w b size =
    let new = b + 32 + size in
    poke (poke (set_free new 1 (poke w new (w b - size - 32))) (new + 16) (w (b + 16))) (new + 24) b

split_lem :
    (w : Memory) (b size : ℕ)
    → w b < 2 ^ 64
    → size + 64 ≤ w b
    → split_block b size w
      ≡ poke
          (poke
            (set_prev (w (b + 16)) (b + 32 + size) (header_words w b size))
            (b + 16)
            (b + 32 + size))
          b
          size
unfolding block_size next_block header_words split_block set_free set_prev
split_lem w b size bound large =
    let new = b + 32 + size in
    let cond : ltb (block_size w b) (add64 (add64 size 32) 32) ≡ false = ground arith in
    let first = poke w new (w b - size - 32) in
    let third = header_words w b size in
    let second = poke (set_free new 1 first) (new + 16) (w (b + 16)) in
    let kept : next_block third b ≡ w (b + 16) =
      poke_apart second (new + 24) b (b + 16) (λ e. absurd (omega (arith, e)))
      ∙ (poke_apart (set_free new 1 first) (new + 16) _ (b + 16) (λ e. absurd (omega (arith, e)))
          ∙ (poke_apart first (new + 8) _ (b + 16) (λ e. absurd (omega (arith, e)))
              ∙ poke_apart w new _ (b + 16) (λ e. absurd (omega (arith, e))))) in
    rw (cond, split_block) (ap (λ c. poke (poke (set_prev c new third) (b + 16) new) b size) kept)

module _ (w : Memory) (b size : ℕ) (placed : Placed w b) (large : size + 64 ≤ w b) where
  pub split_other :
      (x : ℕ)
      → in_header (b + 32 + size) x ≡ false
      → x ≢ b
      → x ≢ b + 16
      → (w (b + 16) ≡ 0) ⊎ (x ≢ w (b + 16) + 24)
      → split_block b size w x ≡ w x
  unfolding header_words set_free set_prev poke
  split_other x outside n1 n2 n3 =
      let eq = split_lem w b size (omega arith) large in ap (λ f. f x) eq ∙ ground arith

  pub split_parts :
      (split_block b size w b ≡ size)
      × (split_block b size w (b + 16) ≡ b + 32 + size)
      × (split_block b size w (b + 32 + size) ≡ w b - size - 32)
      × (split_block b size w (b + 32 + size + 8) % 2 ^ 32 ≡ 1)
      × (split_block b size w (b + 32 + size + 16) ≡ w (b + 16))
  unfolding header_words set_free set_prev poke
  split_parts =
      let (bound, flag, behind, before) = placed in
      let eq = split_lem w b size (omega arith) large in
      (
        ap (λ f. f b) eq ∙ ground arith,
        ap (λ f. f (b + 16)) eq ∙ ground arith,
        ap (λ f. f (b + 32 + size)) eq ∙ ground arith,
        ap (λ f. f (b + 32 + size + 8) % 2 ^ 32) eq ∙ ground arith,
        ap (λ f. f (b + 32 + size + 16)) eq ∙ ground arith,
      )
