-- ===== src/Fs/Files.antt =====
-- fs/vfs.c: open, close, read, write and seek. A file descriptor is an index of `open_table`.
pub mod Table
pub mod Transfer
use mira_os.Base.{
  ℕ, zero, suc, ◌+◌, ◌-◌, ◌/◌, ◌%◌, ◌^◌, Bool, true, false, ◌&&◌, not, ◌||◌, ◌==◌, ltb, leb,
  if◌then◌else◌, ℤ, pos, negsuc, Option, none, some, List, [], ◌∷◌, length, take, get_elem?, set,
  replicate,
}
use mira_os.Kernel.Words.{add64}
use mira_os.Fs.Node.{Node, Ops, Supply, type_dir, vfs_default_read, vfs_default_write, default_ops}
use mira_os.Fs.Vfs.{OpenFile, Vfs, max_open, put, vfs_lookup, vfs_create_file}

-- `flags & VFS_O_CREAT`
abbrev pub creates : ℕ → Bool
creates flags = flags / 4 % 2 == 1

-- The first entry from index `i` on that is not used, with the entries that are left to search.
unfoldable pub first_unused : List OpenFile → ℕ → Option ℕ
first_unused [] i = none
first_unused (o ∷ os) i = let rest = first_unused os (i + 1) in if o.used then rest else some i

-- The part of `vfs_open` after the node is found.
unfoldable pub open_node : Vfs → ℕ → Node → ℕ → ℤ × Vfs
open_node s p node flags =
    if node.type == type_dir then (negsuc 0, s) else elim (first_unused s.open_table 0) [
      | none ↦ (negsuc 0, s)
      | some i ↦ (
        pos i,
        record s {
          open_table =
              set s.open_table i (record { used = true; node = p; offset = 0; flags = flags });
        },
      )
    ]

-- What `vfs_open` does with a pointer to a node that may be NULL.
unfoldable pub open_pointer : Vfs → ℕ → ℕ → Option (ℤ × Vfs)
open_pointer s p flags =
    if p == 0
    then some (negsuc 0, s)
    else elim (s.nodes p) [ none ↦ none | some node ↦ some (open_node s p node flags) ]

-- `f` is the fuel for each chain of siblings.
unfoldable pub vfs_open : ℕ → Vfs → List ℕ → ℕ → Option (ℤ × Vfs)
vfs_open f s path flags = elim (vfs_lookup f s (some path)) [
  | none ↦ none
  | some p ↦
      if p == 0 && creates flags
      then elim (vfs_create_file f s path [] 0) [
        | none ↦ none
        | some (_, s') ↦ elim (vfs_lookup f s' (some path)) [
          | none ↦ none
          | some p' ↦ open_pointer s' p' flags
        ]
      ]
      else open_pointer s p flags
]

-- The entry of a descriptor, unless `fd < 0 || fd >= VFS_MAX_OPEN || !open_table[fd].used`.
unfoldable pub entry : Vfs → ℤ → Option (ℕ × OpenFile)
entry s (negsuc n) = none
entry s (pos fd) = elim (get_elem? s.open_table fd) [
  | none ↦ none
  | some o ↦ if leb max_open fd || not o.used then none else some (fd, o)
]

unfoldable pub vfs_close : Vfs → ℤ → ℤ × Vfs
vfs_close s fd = elim (entry s fd) [
  | none ↦ (negsuc 0, s)
  | some (i, o) ↦ (pos 0, record s { open_table = set s.open_table i (record o { used = false }) })
]

-- `node->ops ? node->ops : &default_ops`
abbrev pub operations : Node → Ops
operations node = elim (node.ops) [ none ↦ default_ops | some ops ↦ ops ]

-- `ops->read`
abbrev pub read_of : Ops → Node → ℕ → ℕ → Option (List ℕ)
read_of default_ops = vfs_default_read

-- `ops->write`
abbrev pub write_of : Ops → Node → List ℕ → ℕ → ℕ → Supply → Option (ℤ × Node × Supply)
write_of default_ops = vfs_default_write

-- `open_table[fd].offset += n`, done if `n > 0`
abbrev pub advance : OpenFile → ℤ → OpenFile
advance o (pos n) = if n == 0 then o else record o { offset = add64 o.offset n }
advance o (negsuc n) = o

-- The result, the bytes stored in the buffer, and the state.
unfoldable pub vfs_read : Vfs → ℤ → ℕ → Option (ℤ × List ℕ × Vfs)
vfs_read s fd count = elim (entry s fd) [
  | none ↦ some (negsuc 0, [], s)
  | some (i, o) ↦ elim (s.nodes o.node) [
    | none ↦ none
    | some node ↦ elim (read_of (operations node) node count o.offset) [
      | none ↦ none
      | some got ↦
          let n = pos (length got) in
          some (n, got, record s { open_table = set s.open_table i (advance o n) })
    ]
  ]
]

unfoldable pub vfs_write : Vfs → ℤ → List ℕ → ℕ → Option (ℤ × Vfs)
vfs_write s fd buf count = elim (entry s fd) [
  | none ↦ some (negsuc 0, s)
  | some (i, o) ↦ elim (s.nodes o.node) [
    | none ↦ none
    | some node ↦ elim (write_of (operations node) node buf count o.offset s.supply) [
      | none ↦ none
      | some (n, node', supply) ↦ some (
        n,
        record s {
          nodes = put s.nodes o.node node';
          supply = supply;
          open_table = set s.open_table i (advance o n);
        },
      )
    ]
  ]
]

pub data Whence : Type 0 where
  seek_set seek_cur seek_end other : Whence

-- The constants VFS_SEEK_SET, VFS_SEEK_CUR and VFS_SEEK_END, and every other value.
unfoldable pub whence_of : ℤ → Whence
whence_of (negsuc n) = other
whence_of (pos n) =
    if n == 0 then seek_set else if n == 1 then seek_cur else if n == 2 then seek_end else other

unfoldable pub new_offset : Whence → ℕ → ℕ → ℕ → Option ℕ
new_offset seek_set current size offset = some offset
new_offset seek_cur current size offset = some (add64 current offset)
new_offset seek_end current size offset = some (add64 size offset)
new_offset other current size offset = none

unfoldable pub vfs_lseek : Vfs → ℤ → ℕ → ℤ → Option (ℤ × Vfs)
vfs_lseek s fd offset whence = elim (entry s fd) [
  | none ↦ some (negsuc 0, s)
  | some (i, o) ↦ elim (s.nodes o.node) [
    | none ↦ none
    | some node ↦ elim (new_offset (whence_of whence) o.offset node.size offset) [
      | none ↦ some (negsuc 0, s)
      | some to ↦ some (
          if ltb node.size to
          then (negsuc 0, s)
          else (pos 0, record s { open_table = set s.open_table i (record o { offset = to }) }))
    ]
  ]
]
