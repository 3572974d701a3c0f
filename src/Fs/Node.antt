-- ===== src/Fs/Node.antt =====
-- The nodes of fs/vfs.h and the default operations of fs/vfs.c. A block of memory is the list of its
-- bytes. `none` is a fault: an access outside a block, or through NULL.
pub mod Contents
use mira_os.Base.{
  ℕ, zero, suc, ◌+◌, ◌-◌, ◌%◌, ◌^◌, Bool, true, false, ◌&&◌, not, ◌||◌, ◌==◌, ltb, leb,
  if◌then◌else◌, ℤ, pos, negsuc, Option, none, some, List, [], ◌∷◌, ◌++◌, length, take, drop,
  replicate,
}
use mira_os.Kernel.Words.{add64}

-- The only table of operations in the program.
pub data Ops : Type 0 where
  default_ops : Ops

-- Pointers are numbers, and 0 is NULL. `name` is the text before the terminator, `data` the block that
-- the pointer of that name leads to.
pub record Node : Type 0 where
  pub name : List ℕ
  pub type : ℕ
  pub size : ℕ
  pub content : Option (List ℕ)
  pub ops : Option Ops
  pub parent : ℕ
  pub children : ℕ
  pub next_sibling : ℕ
  pub child_count : ℕ

abbrev pub type_file : ℕ
type_file = 1

abbrev pub type_dir : ℕ
type_dir = 2

-- The results of the calls of `kmalloc` to come, in order: 0 is NULL.
abbrev pub Supply : Type 0
Supply = List ℕ

unfoldable pub kmalloc : Supply → ℕ × Supply
kmalloc [] = (0, [])
kmalloc (p ∷ supply) = (p, supply)

-- `count` bytes of a block from `offset` on
unfoldable pub read_block : List ℕ → ℕ → ℕ → Option (List ℕ)
read_block block offset count =
    if leb (offset + count) (length block) then some (take count (drop offset block)) else none

-- The first `count` bytes of `buf` are copied to `offset`.
pub write_block : List ℕ → ℕ → List ℕ → ℕ → Option (List ℕ)
write_block block offset buf count =
    if leb (offset + count) (length block) && leb count (length buf)
    then some (take offset block ++ (take count buf ++ drop (offset + count) block))
    else none

-- The bytes that are stored in the caller's buffer; their number is the result.
unfoldable pub vfs_default_read : Node → ℕ → ℕ → Option (List ℕ)
vfs_default_read node count offset = elim (node.content) [
  | none ↦ some []
  | some block ↦
      if leb node.size offset
      then some []
      else read_block block offset
          (if ltb node.size (add64 offset count) then node.size - offset else count)
]

-- The new block of `new_size` bytes: zeros, over which the old bytes are copied.
unfoldable pub grow : Node → ℕ → Option (List ℕ)
grow node new_size = elim (node.content) [
  | none ↦ some (replicate new_size 0)
  | some block ↦
      if ltb 0 node.size
      then elim (read_block block 0 node.size) [
        | none ↦ none
        | some old ↦ write_block (replicate new_size 0) 0 old node.size
      ]
      else some (replicate new_size 0)
]

-- `dst[i] = src[i]` for `count` bytes, from `offset` of the node's block.
unfoldable pub store : Node → List ℕ → ℕ → ℕ → Option Node
store node buf count offset = elim (node.content) [
  | none ↦ none
  | some block ↦ elim (write_block block offset buf count) [
    | none ↦ none
    | some block' ↦ some (record node { content = some block' })
  ]
]

-- The copy of `vfs_default_write`, after the block is large enough.
unfoldable pub write_stored : Node → List ℕ → ℕ → ℕ → Supply → Option (ℤ × Node × Supply)
write_stored node buf count offset supply = elim (store node buf count offset) [
  | none ↦ none
  | some node' ↦ some (pos count, node', supply)
]

-- `vfs_default_write` past the end of the file: a new block, and then the copy. `p` is the result of
-- `kmalloc`. The old block goes to `kfree`; what that call writes is not in the state.
unfoldable pub write_grown : Node → List ℕ → ℕ → ℕ → ℕ → Supply → Option (ℤ × Node × Supply)
write_grown node buf count offset p supply =
    let new_size = add64 offset count in
    if p == 0 then some (negsuc 0, node, supply) else elim (grow node new_size) [
      | none ↦ none
      | some block ↦
          write_stored (record node { content = some block; size = new_size }) buf count offset
            supply
    ]

-- The result, the node and what is left of the supply.
unfoldable pub vfs_default_write : Node → List ℕ → ℕ → ℕ → Supply → Option (ℤ × Node × Supply)
vfs_default_write node buf count offset supply =
    if count == 0
    then some (pos 0, node, supply)
    else if ltb node.size (add64 offset count)
    then write_grown node buf count offset (kmalloc supply).0 (kmalloc supply).1
    else write_stored node buf count offset supply
