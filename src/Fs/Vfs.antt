-- ===== src/Fs/Vfs.antt =====
-- fs/vfs.c: path lookup, files made on demand, and the table of open files. Paths and names are the
-- texts before the terminator. Nodes stand in a store from their addresses; `none` as a result means a
-- fault (an access through NULL or to no node), or a chain of siblings longer than the fuel.
pub mod Path
pub mod Create
pub mod Lookup
use mira_os.Base.{
  ℕ, zero, suc, ◌+◌, ◌-◌, ◌/◌, ◌%◌, ◌^◌, Bool, true, false, ◌&&◌, not, ◌||◌, ◌==◌, ltb, leb,
  if◌then◌else◌, ℤ, pos, negsuc, Option, none, some, List, [], ◌∷◌, length, take, get_elem?, set,
  replicate,
}
use mira_os.Kernel.Words.{add64}
use mira_os.Fs.Node.{
  Node, Ops, Supply, kmalloc, type_file, type_dir, vfs_default_read, vfs_default_write, default_ops,
}

-- An entry of `open_table`
pub record OpenFile : Type 0 where
  pub node : ℕ
  pub offset : ℕ
  pub flags : ℕ
  pub used : Bool

pub record Vfs : Type 0 where
  pub nodes : ℕ → Option Node
  pub root_node : ℕ
  pub open_table : List OpenFile
  pub supply : Supply

abbrev pub max_open : ℕ
max_open = 16

-- `node->… = …` at an address
unfoldable pub put : (ℕ → Option Node) → ℕ → Node → ℕ → Option Node
put nodes p n a = if a == p then some n else nodes a

abbrev mark_unused : OpenFile → OpenFile
mark_unused o = record o { used = false }

unfoldable pub clear_used : List OpenFile → List OpenFile
clear_used [] = []
clear_used (o ∷ os) = mark_unused o ∷ clear_used os

unfoldable pub vfs_init : ℕ → Vfs → Vfs
vfs_init root s = record s { root_node = root; open_table = clear_used s.open_table }

unfoldable pub vfs_root : Vfs → ℕ
vfs_root s = s.root_node

-- The loop of `vfs_find_child` that compares two names
unfoldable pub same_name : List ℕ → List ℕ → Bool
same_name [] [] = true
same_name [] (c ∷ b) = false
same_name (c ∷ a) [] = false
same_name (c ∷ a) (d ∷ b) = let rest = same_name a b in if c == d then rest else false

-- From `child` along the siblings, on fuel. `some 0` is NULL.
unfoldable pub find_child_loop : ℕ → (ℕ → Option Node) → ℕ → List ℕ → Option ℕ
find_child_loop zero nodes child name = none
find_child_loop (suc f) nodes child name =
    let next = λ (n : Node). find_child_loop f nodes n.next_sibling name in
    if child == 0 then some 0 else elim (nodes child) [
      | none ↦ none
      | some n ↦ let rest = next n in if same_name name n.name then some child else rest
    ]

unfoldable pub vfs_find_child : ℕ → (ℕ → Option Node) → ℕ → List ℕ → Option ℕ
vfs_find_child f nodes dir name = elim (nodes dir) [
  | none ↦ none
  | some d ↦ find_child_loop f nodes d.children name
]

-- `while (*p && *p != '/' && i < 63) component[i++] = *p++;`, with the room left in the buffer.
unfoldable pub read_component : ℕ → List ℕ → List ℕ × List ℕ
read_component zero p = ([], p)
read_component (suc room) [] = ([], [])
read_component (suc room) (c ∷ p) =
    let (component, rest) = read_component room p in
    if c == b'/' then ([], c ∷ p) else (c ∷ component, rest)

-- `if (*p == '/') p++;`
unfoldable pub skip_slash : List ℕ → List ℕ
skip_slash [] = []
skip_slash (c ∷ p) = if c == b'/' then p else c ∷ p

-- The next component of a path, and the rest behind one slash.
unfoldable pub next_component : List ℕ → List ℕ × List ℕ
next_component p = ((read_component 63 p).0, skip_slash (read_component 63 p).1)

-- `component[0] == 0`
abbrev pub is_empty : List ℕ → Bool
is_empty [] = true
is_empty (c ∷ p) = false

-- The loop of `vfs_lookup`; a round uses up a character, so the path's length is enough rounds. `f`
-- is the fuel for each directory.
unfoldable pub lookup_loop : ℕ → ℕ → (ℕ → Option Node) → ℕ → List ℕ → Option ℕ
lookup_loop rounds f nodes current [] = some current
lookup_loop zero f nodes current (c ∷ p) = none
lookup_loop (suc rounds) f nodes current (c ∷ p) =
    let (component, rest) = next_component (c ∷ p) in
    let stay = lookup_loop rounds f nodes current rest in
    let enter : Option ℕ = elim (vfs_find_child f nodes current component) [
      | none ↦ none
      | some child ↦
          let found = lookup_loop rounds f nodes child rest in if child == 0 then some 0 else found
    ] in
    if is_empty component then stay else enter

unfoldable pub is_root_path : List ℕ → Bool
is_root_path [] = false
is_root_path (c ∷ []) = c == b'/'
is_root_path (c ∷ d ∷ p) = false

-- The path `none` is the pointer NULL.
unfoldable pub vfs_lookup : ℕ → Vfs → Option (List ℕ) → Option ℕ
vfs_lookup f s none = some 0
vfs_lookup f s (some path) =
    let found = lookup_loop (length path) f s.nodes s.root_node (skip_slash path) in
    if s.root_node == 0 then some 0 else if is_root_path path then some s.root_node else found

-- `vfs_set_name`: at most 63 characters
unfoldable pub vfs_set_name : Node → List ℕ → Node
vfs_set_name node name = record node { name = take 63 name }

-- The node at `child` becomes the first of the children of `parent`.
unfoldable pub vfs_add_child : (ℕ → Option Node) → ℕ → ℕ → Node → Option (ℕ → Option Node)
vfs_add_child nodes parent child c = elim (nodes parent) [
  | none ↦ none
  | some d ↦ some (
      put (put nodes child (record c { parent = parent; next_sibling = d.children })) parent
        (record d { children = child; child_count = d.child_count + 1 }))
]

-- A node filled with zeros
abbrev pub zero_node : Node
zero_node = record {
  name = [];
  type = 0;
  size = 0;
  content = none;
  ops = none;
  parent = 0;
  children = 0;
  next_sibling = 0;
  child_count = 0;
}

-- The node made for the component `buf`, with `rest` of the path to come, and what is left of the
-- supply; `none` if `kmalloc` of the contents returned NULL. `content` holds the `size` bytes at `data`.
unfoldable pub new_node : List ℕ → List ℕ → List ℕ → ℕ → Supply → Option Node × Supply
new_node buf [] content size supply =
    let child = record (vfs_set_name zero_node buf) {
      type = type_file;
      size = size;
      ops = some default_ops;
    } in
    let (p, left) = kmalloc supply in
    if ltb 0 size
    then (if p == 0
        then (none, left)
        else (some (record child { content = some (take size content) }), left))
    else (some child, supply)
new_node buf (c ∷ rest) content size supply =
    (some (record (vfs_set_name zero_node buf) { type = type_dir; ops = some default_ops }), supply)

-- The body of the loop of `vfs_create_file` where no child has the name: `some (0, …)` is `return 0`.
unfoldable pub create_child :
    (ℕ → Option Node)
    → ℕ
    → List ℕ
    → List ℕ
    → List ℕ
    → ℕ
    → Supply
    → Option (ℕ × (ℕ → Option Node) × Supply)
create_child nodes current buf rest content size supply =
    let (p, left) = kmalloc supply in
    let (made, left') = new_node buf rest content size left in
    if p == 0 then some (0, nodes, left) else elim made [
      | none ↦ some (0, nodes, left')
      | some child ↦ elim (vfs_add_child nodes current p child) [
        | none ↦ none
        | some nodes' ↦ some (p, nodes', left')
      ]
    ]

-- The loop of `vfs_create_file`.
unfoldable pub create_loop :
    ℕ
    → ℕ
    → (ℕ → Option Node)
    → ℕ
    → List ℕ
    → List ℕ
    → ℕ
    → Supply
    → Option (ℕ × (ℕ → Option Node) × Supply)
create_loop rounds f nodes current [] content size supply = some (current, nodes, supply)
create_loop zero f nodes current (c ∷ p) content size supply = none
create_loop (suc rounds) f nodes current (c ∷ p) content size supply =
    let (buf, rest) = next_component (c ∷ p) in
    let stay = create_loop rounds f nodes current rest content size supply in
    let make : Option (ℕ × (ℕ → Option Node) × Supply) =
      elim (create_child nodes current buf rest content size supply) [
        | none ↦ none
        | some (q, nodes', left) ↦
            let onward = create_loop rounds f nodes' q rest content size left in
            if q == 0 then some (0, nodes', left) else onward
      ] in
    let enter : Option (ℕ × (ℕ → Option Node) × Supply) =
      elim (vfs_find_child f nodes current buf) [
        | none ↦ none
        | some child ↦
            let found = create_loop rounds f nodes child rest content size supply in
            if child == 0 then make else found
      ] in
    if is_empty buf then stay else enter

-- `data` is the contents given, whose first `size` bytes are read.
unfoldable pub vfs_create_file : ℕ → Vfs → List ℕ → List ℕ → ℕ → Option (ℕ × Vfs)
vfs_create_file f s path content size =
    elim (create_loop (length path) f s.nodes s.root_node (skip_slash path) content size s.supply) [
      | none ↦ none
      | some (p, nodes, supply) ↦ some (p, record s { nodes = nodes; supply = supply })
    ]
