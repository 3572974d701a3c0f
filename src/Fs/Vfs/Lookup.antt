-- ===== src/Fs/Vfs/Lookup.antt =====
-- A file that `vfs_create_file` returns is the one that `vfs_lookup` then finds at its path.
use mira_os.Base.{
  ℕ, zero, suc, ◌+◌, ◌≤◌, ◌≡◌, ◌≢◌, inl, inr, refl, true, ◌==◌, Option, some, List, [], ◌∷◌, length,
  arith, Bool-cases, Option-cases,
}
use mira_os.Fs.Node.{Node, Supply}
use mira_os.Fs.Vfs.{
  Vfs, next_component, skip_slash, is_empty, vfs_find_child, zero_node, create_child, create_loop,
  vfs_create_file, lookup_loop, vfs_lookup, is_root_path,
}
use mira_os.Fs.Vfs.Path.{name-vfs_set_name}
use mira_os.Fs.Vfs.Create.{Fresh, Stable, Stable-self, create_child_lem}

-- What the walk along a path by `vfs_create_file` leaves: nothing that could be found is lost, and
-- `vfs_lookup` walks to the same node.
Walked : ℕ → ℕ → (ℕ → Option Node) → (ℕ → Option Node) → ℕ → List ℕ → ℕ → Type 0
Walked rounds f nodes nodes' cur path q =
    Stable rounds nodes nodes'
    × ((big : ℕ) → f + rounds ≤ big → lookup_loop rounds big nodes' cur path ≡ some q)

Stable-trans : (k : ℕ) (a b c : ℕ → Option Node) → Stable 1 a b → Stable k b c → Stable (suc k) a c
Stable-trans k a b c s t g big dir d name ne le h =
    t (g + 1) big dir d name ne (omega arith) (s g (g + 1) dir d name ne (omega arith) h)

Stable-suc : (k : ℕ) (a b : ℕ → Option Node) → Stable k a b → Stable (suc k) a b
Stable-suc k a b s g big dir d name ne le h = s g big dir d name ne (omega arith) h

create_loop_lem :
    (rounds f cur q : ℕ) (nodes nodes' : ℕ → Option Node) (path content : List ℕ) (size : ℕ)
    (supply left : Supply)
    → Fresh nodes supply
    → create_loop rounds f nodes cur path content size supply ≡ some (q, nodes', left)
    → q ≢ 0
    → Walked rounds f nodes nodes' cur path q
unfolding create_loop lookup_loop Walked
create_loop_lem zero f cur q nodes nodes' [] content size supply left fresh h ne =
    let same : nodes ≡ nodes' = cc in
    let at : cur ≡ q = cc in (rw (← same) (Stable-self zero nodes), λ big le. rw at)
create_loop_lem (suc rounds) f cur q nodes nodes' [] content size supply left fresh h ne =
    let same : nodes ≡ nodes' = cc in
    let at : cur ≡ q = cc in (rw (← same) (Stable-self (suc rounds) nodes), λ big le. rw at)
create_loop_lem zero f cur q nodes nodes' (c ∷ p) content size supply left fresh h ne = absurd (cc)
create_loop_lem (suc rounds) f cur q nodes nodes' (c ∷ p) content size supply left fresh h ne =
    let buf = (next_component (c ∷ p)).0 in
    let rest = (next_component (c ∷ p)).1 in
    elim (Bool-cases (is_empty buf)) [
      | inl e ↦
          let (s, l) =
            create_loop_lem rounds f cur q nodes nodes' rest content size supply left fresh
              (ground arith) ne in
          (Stable-suc rounds nodes nodes' s, λ big le. ground (arith, l big (omega arith)))
      | inr e ↦ elim (Option-cases (vfs_find_child f nodes cur buf)) [
        | inl e' ↦ absurd (ground arith)
        | inr (child, e') ↦ elim (Bool-cases (child == 0)) [
          | inr z ↦
              let (s, l) =
                create_loop_lem rounds f child q nodes nodes' rest content size supply left fresh
                  (ground arith) ne in
              (
                Stable-suc rounds nodes nodes' s,
                λ big le. ground (
                  arith,
                  l big (omega arith),
                  s f big cur child buf (ground arith) (omega arith) e',
                ),
              )
          | inl z ↦ elim (Option-cases (create_child nodes cur buf rest content size supply)) [
            | inl e'' ↦ absurd (ground arith)
            | inr ((q1, nodes1, left1), made) ↦ elim (Bool-cases (q1 == 0)) [
              | inl z1 ↦ absurd (ground arith)
              | inr z1 ↦
                  let absent : vfs_find_child f nodes cur buf ≡ some 0 = ground arith in
                  let nz : q1 ≢ 0 = ground arith in
                  let (s1, at1, fresh1) =
                    create_child_lem f cur q1 nodes nodes1 buf rest content size supply left1
                      (name-vfs_set_name zero_node (c ∷ p)) fresh absent made nz in
                  let (s, l) =
                    create_loop_lem rounds f q1 q nodes1 nodes' rest content size left1 left fresh1
                      (ground arith) ne in
                  (
                    Stable-trans rounds nodes nodes1 nodes' s1 s,
                    λ big le.
                        ground
                          (arith, l big (omega arith), s f big cur q1 buf nz (omega arith) at1),
                  )
            ]
          ]
        ]
      ]
    ]

root_path : (path : List ℕ) → is_root_path path ≡ true → skip_slash path ≡ []
unfolding is_root_path skip_slash
root_path [] h = refl
root_path (c ∷ []) h = ground arith
root_path (c ∷ d ∷ p) h = absurd (ground arith)

lookup_loop-nil :
    (rounds f : ℕ) (nodes : ℕ → Option Node) (cur : ℕ)
    → lookup_loop rounds f nodes cur [] ≡ some cur
unfolding lookup_loop
lookup_loop-nil zero f nodes cur = refl
lookup_loop-nil (suc rounds) f nodes cur = refl

-- The end of `vfs_lookup`, from the walk that its loop makes.
vfs_lookup_of_walk :
    (big p : ℕ) (t : Vfs) (path : List ℕ)
    → t.root_node ≢ 0
    → lookup_loop (length path) big t.nodes t.root_node (skip_slash path) ≡ some p
    → vfs_lookup big t (some path) ≡ some p
unfolding vfs_lookup
vfs_lookup_of_walk big p t path root walk = elim (Bool-cases (is_root_path path)) [
  | inl e ↦
      let here = rw (root_path path e) at walk in
      ground (arith, here, lookup_loop-nil (length path) big t.nodes t.root_node)
  | inr e ↦ ground arith
]

-- After `vfs_create_file` has returned a node, be it new or found, `vfs_lookup` of the same path returns
-- this node, given fuel for the siblings that there were and one for each character of the path; the
-- root is there, and `kmalloc` hands out fresh places.
pub vfs_lookup-create_file :
    (f big q : ℕ) (s s' : Vfs) (path content : List ℕ) (size : ℕ)
    → Fresh s.nodes s.supply
    → s.root_node ≢ 0
    → vfs_create_file f s path content size ≡ some (q, s')
    → q ≢ 0
    → f + length path ≤ big
    → vfs_lookup big s' (some path) ≡ some q
unfolding vfs_create_file Walked
vfs_lookup-create_file f big q s s' path content size fresh root h ne le =
    elim (Option-cases
      (create_loop (length path) f s.nodes s.root_node (skip_slash path) content size s.supply)) [
        | inl e ↦ absurd (ground arith)
        | inr ((p, nodes, left), e) ↦
            let same : q ≡ p = ground arith in
            let state : s' ≡ record s { nodes = nodes; supply = left } = cc in
            let (st, l) =
              create_loop_lem (length path) f s.root_node p s.nodes nodes (skip_slash path) content
                size s.supply left fresh e (ground arith) in
            rw (state, same)
              (vfs_lookup_of_walk big p (record s { nodes = nodes; supply = left }) path root
                (l big le))
      ]
