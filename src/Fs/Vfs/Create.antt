-- ===== src/Fs/Vfs/Create.antt =====
-- A file that `vfs_create_file` returns is the one that `vfs_lookup` then finds at its path.
use mira_os.Base.{
  ℕ, zero, suc, ◌+◌, ◌-◌, ◌≤◌, ◌≡◌, ◌≢◌, ◌⊎◌, inl, inr, refl, false, ◌==◌, ltb, Option, none, some,
  List, [], ◌∷◌, arith, ◌∙◌, sym, Bool-cases, Option-cases,
}
use native.Mathlib.Decide.{dec_lt}
use mira_os.Fs.Node.{Node, Supply, kmalloc}
use mira_os.Fs.Vfs.{
  put, same_name, find_child_loop, vfs_find_child, vfs_set_name, vfs_add_child, new_node, zero_node,
  create_child,
}
use mira_os.Fs.Vfs.Path.{
  same_name_self, find_child_loop_more, Keeps, find_child_loop-Keeps, find_child_loop-same,
  find_child_loop_unique,
}

-- The address differs from those to come.
abbrev pub Apart : ℕ → Supply → Type 0
Apart p [] = Unit
Apart p (q ∷ supply) = (p ≢ q) × Apart p supply

-- What `kmalloc` is relied on for: a pointer that it returns, unless NULL, leads to no node, and to no
-- place that it returns later.
abbrev pub Fresh : (ℕ → Option Node) → Supply → Type 0
Fresh nodes [] = Unit
Fresh nodes (p ∷ supply) = ((p ≡ 0) ⊎ ((nodes p ≡ none) × Apart p supply)) × Fresh nodes supply

-- What is found in `nodes` is found in `nodes'`, with `k` more fuel at most.
abbrev pub Stable : ℕ → (ℕ → Option Node) → (ℕ → Option Node) → Type 0
Stable k nodes nodes' =
    (g big dir d : ℕ) (name : List ℕ)
    → d ≢ 0
    → g + k ≤ big
    → vfs_find_child g nodes dir name ≡ some d
    → vfs_find_child big nodes' dir name ≡ some d

find_child_loop_le :
    (k g big : ℕ) (nodes : ℕ → Option Node) (child : ℕ) (name : List ℕ) {r : ℕ}
    → g + k ≡ big
    → find_child_loop g nodes child name ≡ some r
    → find_child_loop big nodes child name ≡ some r
find_child_loop_le zero g big nodes child name e h =
    let same : g ≡ big = omega arith in rw (← same) h
find_child_loop_le (suc k) g big nodes child name e h =
    find_child_loop_le k (suc g) big nodes child name (omega arith)
      (find_child_loop_more g nodes child name h)

pub Stable-self : (k : ℕ) (nodes : ℕ → Option Node) → Stable k nodes nodes
unfolding vfs_find_child
Stable-self k nodes g big dir d name ne le h = elim (Option-cases (nodes dir)) [
  | inl e ↦ absurd (ground arith)
  | inr (n, e) ↦
      ground (arith, find_child_loop_le (big - g) g big nodes n.children name {r = d} (omega arith))
]

-- The store with the node `c` at `p` as the first child of `d` at `cur`
added : (ℕ → Option Node) → ℕ → ℕ → Node → Node → ℕ → Option Node
added nodes cur p c d =
    put (put nodes p (record c { parent = cur; next_sibling = d.children })) cur
      (record d { children = p; child_count = d.child_count + 1 })

-- Adding the node `c` at `p`, where no node is, to a directory in which its name was not found.
module _ (nodes : ℕ → Option Node) (cur p : ℕ) (c d : Node) (at : nodes cur ≡ some d)
    (free : nodes p ≡ none) (ne : p ≢ 0) where
  added-Keeps : Keeps nodes (added nodes cur p c d)
  unfolding added put
  added-Keeps a n e = elim (Bool-cases (a == cur)) [
    | inl same ↦ (
      record d { children = p; child_count = d.child_count + 1 },
      ground arith,
      ground arith,
      ground arith,
    )
    | inr other ↦ (n, ground arith, refl, refl)
  ]

  find-added : (f : ℕ) → vfs_find_child (suc f) (added nodes cur p c d) cur c.name ≡ some p
  unfolding vfs_find_child find_child_loop added put
  find-added f = ground (arith, same_name_self c.name)

  -- The search in the directory that has the new child.
  find-added_ne :
      (f g r : ℕ) (name : List ℕ)
      → find_child_loop f nodes d.children c.name ≡ some 0
      → r ≢ 0
      → find_child_loop g nodes d.children name ≡ some r
      → find_child_loop (suc g) (added nodes cur p c d) p name ≡ some r
  unfolding find_child_loop added put
  find-added_ne f g r name absent nz h = elim (Bool-cases (same_name name c.name)) [
    | inl same ↦
        let h' : find_child_loop g nodes d.children c.name ≡ some r =
          sym (find_child_loop-same g nodes d.children name c.name same) ∙ h in
        absurd (nz (find_child_loop_unique g f nodes d.children c.name h' absent))
    | inr other ↦ ground (
      arith,
      find_child_loop-Keeps g nodes (added nodes cur p c d) d.children name {r = r} added-Keeps h,
    )
  ]

  added-Stable :
      (f : ℕ) → vfs_find_child f nodes cur c.name ≡ some 0 → Stable 1 nodes (added nodes cur p c d)
  unfolding vfs_find_child
  added-Stable f absent g big dir r name nz le h = elim (Option-cases (nodes dir)) [
    | inl e ↦ absurd (ground arith)
    | inr (n, e) ↦ elim (Bool-cases (dir == cur)) [
      | inl same ↦
          let first = find-added_ne f g r name (ground arith) nz (ground arith) in
          let here : (added nodes cur p c d) dir
              ≡ some (record d { children = p; child_count = d.child_count + 1 }) =
            unfold added put in ground arith in
          ground (
            arith,
            here,
            find_child_loop_le (big - suc g) (suc g) big (added nodes cur p c d) p name {r = r}
                (omega arith) first,
          )
      | inr other ↦
          let kept =
            find_child_loop-Keeps g nodes (added nodes cur p c d) n.children name {r = r}
              added-Keeps (ground arith) in
          let here : (added nodes cur p c d) dir ≡ some n = unfold added put in ground arith in
          ground (
            arith,
            here,
            find_child_loop_le (big - g) g big (added nodes cur p c d) n.children name {r = r}
                (omega arith) kept,
          )
    ]
  ]

  added-Fresh :
      (supply : Supply) → Apart p supply → Fresh nodes supply → Fresh (added nodes cur p c d) supply
  unfolding added put
  added-Fresh [] apart fresh = tt
  added-Fresh (q ∷ supply) (other, apart) (inl z, fresh) = (inl z, added-Fresh supply apart fresh)
  added-Fresh (q ∷ supply) (other, apart) (inr (e, later), fresh) =
      (inr (ground arith, later), added-Fresh supply apart fresh)

kmalloc-Fresh :
    (nodes : ℕ → Option Node) (supply : Supply)
    → Fresh nodes supply
    → Fresh nodes (kmalloc supply).1
unfolding kmalloc
kmalloc-Fresh nodes [] h = tt
kmalloc-Fresh nodes (p ∷ supply) h = h.1

new_node-Fresh :
    (nodes : ℕ → Option Node) (buf rest content : List ℕ) (size : ℕ) (supply : Supply)
    → Fresh nodes supply
    → Fresh nodes (new_node buf rest content size supply).1
unfolding new_node
new_node-Fresh nodes buf (c ∷ rest) content size supply h = h
new_node-Fresh nodes buf [] content size supply h = elim (Bool-cases (ltb 0 size)) [
  | inl more ↦ elim (Bool-cases ((kmalloc supply).0 == 0)) [
    | inl e ↦ rw (more, e) (kmalloc-Fresh nodes supply h)
    | inr e ↦ rw (more, e) (kmalloc-Fresh nodes supply h)
  ]
  | inr empty ↦ rw empty h
]

new_node-name :
    (buf rest content : List ℕ) (size : ℕ) (supply : Supply) {c : Node}
    → (new_node buf rest content size supply).0 ≡ some c
    → c.name ≡ (vfs_set_name zero_node buf).name
unfolding new_node
new_node-name buf (x ∷ rest) content size supply h = ground arith
new_node-name buf [] content size supply h = ground arith

create_child-some :
    (nodes : ℕ → Option Node) (cur p : ℕ) (buf rest content : List ℕ) (size : ℕ) (supply : Supply)
    (c d : Node)
    → nodes cur ≡ some d
    → p ≢ 0
    → (new_node buf rest content size supply).0 ≡ some c
    → create_child nodes cur buf rest content size (p ∷ supply)
      ≡ some (p, added nodes cur p c d, (new_node buf rest content size supply).1)
unfolding create_child kmalloc vfs_add_child added
create_child-some nodes cur p buf rest content size supply c d at ne made =
    let e : (p == 0) ≡ false = ground arith in rw (e, made, at)

-- What the making of a child leaves.
pub create_child_lem :
    (f cur q : ℕ) (nodes nodes' : ℕ → Option Node) (buf rest content : List ℕ) (size : ℕ)
    (supply left : Supply)
    → (vfs_set_name zero_node buf).name ≡ buf
    → Fresh nodes supply
    → vfs_find_child f nodes cur buf ≡ some 0
    → create_child nodes cur buf rest content size supply ≡ some (q, nodes', left)
    → q ≢ 0
    → Stable 1 nodes nodes' × (vfs_find_child f nodes' cur buf ≡ some q) × Fresh nodes' left
create_child_lem f cur q nodes nodes' buf rest content size [] left fits fresh absent h ne =
    absurd (unfold create_child kmalloc in ground arith)
create_child_lem zero cur q nodes nodes' buf rest content size (p ∷ supply) left fits fresh absent h
      ne =
    absurd (unfold vfs_find_child find_child_loop in ground arith)
create_child_lem (suc f) cur q nodes nodes' buf rest content size (p ∷ supply) left fits
      (inl z, fresh) absent h ne =
    absurd (unfold create_child kmalloc in ground arith)
create_child_lem (suc f) cur q nodes nodes' buf rest content size (p ∷ supply) left fits
      (inr (free, apart), fresh) absent h ne =
    elim (Option-cases (new_node buf rest content size supply).0) [
      | inl e ↦ absurd (unfold create_child kmalloc in ground arith)
      | inr (c, made) ↦ elim (Option-cases (nodes cur)) [
        | inl e ↦ absurd (unfold vfs_find_child in ground arith)
        | inr (d, at) ↦ elim (dec_lt 0 p) [
          | no z ↦ absurd (unfold create_child kmalloc in ground arith)
          | yes nz ↦
              let named : c.name ≡ buf = new_node-name buf rest content size supply made ∙ fits in
              let absent' : vfs_find_child (suc f) nodes cur c.name ≡ some 0 = rw named absent in
              let p0 : p ≢ 0 = omega arith in
              let run =
                sym h ∙ create_child-some nodes cur p buf rest content size supply c d at p0 made in
              let q_eq : q ≡ p = cc in
              let nodes_eq : nodes' ≡ added nodes cur p c d = cc in
              let left_eq : left ≡ (new_node buf rest content size supply).1 = cc in
              rw (nodes_eq, q_eq, left_eq)
                (
                  added-Stable nodes cur p c d at free p0 (suc f) absent',
                  rw (← named) (find-added nodes cur p c d at free p0 f),
                  new_node-Fresh (added nodes cur p c d) buf rest content size supply
                      (added-Fresh nodes cur p c d at free p0 supply apart fresh),
                )
        ]
      ]
    ]
