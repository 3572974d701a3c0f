-- ===== src/Fs/Files/Table.antt =====
-- The table of open files: which descriptor `vfs_open` gives, and what `vfs_close` leaves.
use mira_os.Base.{
  ℕ, zero, suc, ◌+◌, ◌<◌, ◌≡◌, ◌≢◌, inl, inr, refl, true, false, ℤ, pos, negsuc, none, some, List,
  [], ◌∷◌, length, get_elem?, arith, Bool-cases, Option-cases, get_elem?-set_self, get_elem?-set_ne,
  length-get_elem?,
}
use mira_os.Fs.Node.{Node, type_dir}
use mira_os.Fs.Vfs.{OpenFile, Vfs, max_open}
use mira_os.Fs.Files.{first_unused, open_node, entry, vfs_close, vfs_read, vfs_write, vfs_lseek}

-- The entry at the index is in use.
abbrev pub Used : List OpenFile → ℕ → Type 0
Used os i = (o : OpenFile) × (get_elem? os i ≡ some o) × (o.used ≡ true)

first_unused-some :
    (os : List OpenFile) (k : ℕ) {j : ℕ}
    → first_unused os k ≡ some j
    → (i : ℕ) × (j ≡ k + i)
      × ((o : OpenFile) × (get_elem? os i ≡ some o) × (o.used ≡ false))
      × ((l : ℕ) → l < i → Used os l)
unfolding first_unused
first_unused-some [] k h = absurd (ground arith)
first_unused-some (o ∷ os) k {j} h = elim (Bool-cases o.used) [
  | inl used ↦
      let (i, at, here, before) = first_unused-some os (k + 1) {j = j} (ground arith) in
      (suc i, omega arith, here, below o os i used before)
  | inr unused ↦ (0, ground arith, (o, refl, unused), λ l lt. elim lt [ ])
]
  where
    below :
        (o : OpenFile) (os : List OpenFile) (i : ℕ)
        → o.used ≡ true
        → ((l : ℕ) → l < i → Used os l)
        → (l : ℕ) → l < suc i
        → Used (o ∷ os) l
    below o os i u before zero lt = (o, refl, u)
    below o os i u before (suc l) lt = before l (omega arith)

-- `vfs_open` of a file gives the lowest descriptor that is not in use, whose entry then has the file
-- at offset 0 with the flags given, and leaves every other entry; it fails on a directory.
open_node_lem :
    (s : Vfs) (p : ℕ) (node : Node) (flags fd : ℕ)
    → length s.open_table ≡ max_open
    → (open_node s p node flags).0 ≡ pos fd
    → (node.type ≢ type_dir)
      × (entry s (pos fd) ≡ none)
      × ((l : ℕ) → l < fd → Used s.open_table l)
      × (entry (open_node s p node flags).1 (pos fd)
          ≡ some (fd, record { node = p; offset = 0; flags = flags; used = true }))
      × ((l : ℕ) → l ≢ fd → entry (open_node s p node flags).1 (pos l) ≡ entry s (pos l))
unfolding open_node entry
open_node_lem s p node flags fd size h = elim (Option-cases (first_unused s.open_table 0)) [
  | inl e ↦ absurd (ground arith)
  | inr (j, e) ↦
      let (i, at, (o, here, unused), before) = first_unused-some s.open_table 0 e in
      let lt : i < max_open = omega (arith, length-get_elem? s.open_table i here) in
      let same : fd ≡ i = ground arith in
      let new : OpenFile = record { node = p; offset = 0; flags = flags; used = true } in
      (
        ground arith,
        ground arith,
        rw same before,
        ground (arith, get_elem?-set_self s.open_table i new here),
        λ l ne. ground (arith, get_elem?-set_ne s.open_table i l new),
      )
]

-- After `vfs_close` the descriptor is refused, by `vfs_close` itself too, and every other descriptor
-- has the entry that it had.
pub vfs_close_lem :
    (s s' : Vfs) (fd : ℤ)
    → vfs_close s fd ≡ (pos 0, s')
    → (vfs_close s' fd ≡ (negsuc 0, s'))
      × (s'.nodes ≡ s.nodes)
      × ((other : ℤ) → other ≢ fd → entry s' other ≡ entry s other)
unfolding vfs_close entry
vfs_close_lem s s' (negsuc n) h = absurd (ground arith)
vfs_close_lem s s' (pos fd) h = elim (Option-cases (get_elem? s.open_table fd)) [
  | inl e ↦ absurd (ground arith)
  | inr (o, e) ↦
      let closed : OpenFile = record o { used = false } in
      (
        ground (arith, get_elem?-set_self s.open_table fd closed e),
        ground arith,
        elim [
          | negsuc n ↦ λ ne. refl
          | pos l ↦ λ ne. ground (arith, get_elem?-set_ne s.open_table fd l closed)
        ],
      )
]

-- On a descriptor that is negative, out of range or not in use, the four operations return -1 and
-- change nothing.
pub entry-none :
    (s : Vfs) (fd : ℤ) (buf : List ℕ) (count offset : ℕ) (whence : ℤ)
    → entry s fd ≡ none
    → (vfs_close s fd ≡ (negsuc 0, s))
      × (vfs_read s fd count ≡ some (negsuc 0, [], s))
      × (vfs_write s fd buf count ≡ some (negsuc 0, s))
      × (vfs_lseek s fd offset whence ≡ some (negsuc 0, s))
unfolding vfs_close vfs_read vfs_write vfs_lseek
entry-none s fd buf count offset whence e = (ground arith, ground arith, ground arith, ground arith)
