-- ===== src/Fs/Vfs/Path.antt =====
-- Names, and the search along a chain of siblings.
use mira_os.Base.{
  ℕ, zero, suc, ◌≤◌, ◌≡◌, inl, inr, refl, true, Option, some, List, [], ◌∷◌, length, take, arith,
  ap, Option-cases,
}
use mira_os.Fs.Node.{Node}
use mira_os.Fs.Vfs.{same_name, read_component, next_component, find_child_loop, vfs_set_name}

same_name-eq : (a b : List ℕ) → same_name a b ≡ true → a ≡ b
unfolding same_name
same_name-eq [] [] h = refl
same_name-eq [] (y ∷ b) h = absurd (ground arith)
same_name-eq (x ∷ a) [] h = absurd (ground arith)
same_name-eq (x ∷ a) (y ∷ b) h = ground (arith, same_name-eq a b)

pub same_name_self : (a : List ℕ) → same_name a a ≡ true
unfolding same_name
same_name_self [] = refl
same_name_self (x ∷ a) = ground (arith, same_name_self a)

length-read_component : (k : ℕ) (p : List ℕ) → length (read_component k p).0 ≤ k
unfolding read_component
length-read_component zero p = omega arith
length-read_component (suc k) [] = omega arith
length-read_component (suc k) (c ∷ p) = ground (arith, length-read_component k p)

take_of_le : (k : ℕ) (xs : List ℕ) → length xs ≤ k → take k xs ≡ xs
take_of_le zero [] h = refl
take_of_le zero (x ∷ xs) h = absurd (omega arith)
take_of_le (suc k) [] h = refl
take_of_le (suc k) (x ∷ xs) h = ap (λ t. x ∷ t) (take_of_le k xs (omega arith))

-- A component read from a path fits the name of a node whole.
pub name-vfs_set_name :
    (n : Node) (p : List ℕ) → (vfs_set_name n (next_component p).0).name ≡ (next_component p).0
unfolding vfs_set_name next_component
name-vfs_set_name n p = take_of_le 63 _ (length-read_component 63 p)

-- More fuel finds the same child.
pub find_child_loop_more :
    (f : ℕ) (nodes : ℕ → Option Node) (child : ℕ) (name : List ℕ) {r : ℕ}
    → find_child_loop f nodes child name ≡ some r
    → find_child_loop (suc f) nodes child name ≡ some r
unfolding find_child_loop
find_child_loop_more zero nodes child name h = absurd (ground arith)
find_child_loop_more (suc f) nodes child name {r} h = elim (Option-cases (nodes child)) [
  | inl e ↦ ground arith
  | inr (n, e) ↦ ground (arith, find_child_loop_more f nodes n.next_sibling name {r = r})
]

-- Every node of `nodes` has in `nodes'` its name and its next sibling.
abbrev pub Keeps : (ℕ → Option Node) → (ℕ → Option Node) → Type 0
Keeps nodes nodes' =
    (a : ℕ) (n : Node)
    → nodes a ≡ some n
    → (n' : Node) × (nodes' a ≡ some n') × (n'.name ≡ n.name) × (n'.next_sibling ≡ n.next_sibling)

pub find_child_loop-Keeps :
    (f : ℕ) (nodes nodes' : ℕ → Option Node) (child : ℕ) (name : List ℕ) {r : ℕ}
    → Keeps nodes nodes'
    → find_child_loop f nodes child name ≡ some r
    → find_child_loop f nodes' child name ≡ some r
unfolding find_child_loop
find_child_loop-Keeps zero nodes nodes' child name k h = absurd (ground arith)
find_child_loop-Keeps (suc f) nodes nodes' child name {r} k h = elim (Option-cases (nodes child)) [
  | inl e ↦ ground arith
  | inr (n, e) ↦
      let (n', e', same, next) = k child n e in
      ground (arith, find_child_loop-Keeps f nodes nodes' n.next_sibling name {r = r} k)
]

-- Two searches with equal fuel for equal names agree.
pub find_child_loop-same :
    (f : ℕ) (nodes : ℕ → Option Node) (child : ℕ) (a b : List ℕ)
    → same_name a b ≡ true
    → find_child_loop f nodes child a ≡ find_child_loop f nodes child b
find_child_loop-same f nodes child a b h =
    ap (λ t. find_child_loop f nodes child t) (same_name-eq a b h)

-- A search that ends gives one result, whatever the fuel.
pub find_child_loop_unique :
    (f g : ℕ) (nodes : ℕ → Option Node) (child : ℕ) (name : List ℕ) {r t : ℕ}
    → find_child_loop f nodes child name ≡ some r
    → find_child_loop g nodes child name ≡ some t
    → r ≡ t
unfolding find_child_loop
find_child_loop_unique zero g nodes child name h k = absurd (ground arith)
find_child_loop_unique (suc f) zero nodes child name h k = absurd (ground arith)
find_child_loop_unique (suc f) (suc g) nodes child name {r} {t} h k =
    elim (Option-cases (nodes child)) [
      | inl e ↦ ground arith
      | inr (n, e) ↦
          ground (arith, find_child_loop_unique f g nodes n.next_sibling name {r = r} {t = t})
    ]
