-- ===== src/Tests/FsTests.antt =====
-- fs/ at concrete inputs.
use mira_os.Base.{
  ℕ, ◌≡◌, inr, refl, true, false, Option, none, some, [], ◌∷◌, replicate, arith, pos, if◌then◌else◌,
  ◌==◌,
}
use mira_os.Fs.Node.{
  Node, kmalloc, vfs_default_read, vfs_default_write, grow, store, write_stored, write_grown,
}
use mira_os.Fs.Vfs.{
  Vfs, put, clear_used, vfs_init, vfs_root, same_name, find_child_loop, vfs_find_child,
  read_component, skip_slash, next_component, lookup_loop, vfs_lookup, vfs_set_name, vfs_add_child,
  new_node, create_child, create_loop, vfs_create_file, zero_node, is_root_path,
}
use mira_os.Fs.Vfs.Lookup.{vfs_lookup-create_file}
use mira_os.Fs.Files.{
  first_unused, open_node, open_pointer, vfs_open, entry, vfs_close, vfs_read, vfs_write, whence_of,
  new_offset, vfs_lseek,
}
use mira_os.Fs.Ramfs.{root_dir, ramfs_init}

abbrev file : Node
file = record zero_node { name = b'a' ∷ []; type = 1 }

-- The root directory at 1, a file at 2, and one file open on the descriptor 0
abbrev start : Vfs
start = record {
  nodes = λ a. if a == 1 then some root_dir else if a == 2 then some file else none;
  root_node = 1;
  open_table =
      record { node = 2; offset = 0; flags = 2; used = true }
      ∷ replicate 15 (record { node = 0; offset = 0; flags = 0; used = false });
  supply = 3 ∷ 4 ∷ [];
}

abbrev state_of : Option (ℕ × Vfs) → Vfs
state_of none = start
state_of (some (p, s)) = s

abbrev created : Vfs
created = state_of (vfs_create_file 4 start (47 ∷ 98 ∷ []) (9 ∷ []) 1)

creates_b : vfs_create_file 4 start (47 ∷ 98 ∷ []) (9 ∷ []) 1 ≡ some (3, created)
unfolding vfs_create_file create_loop create_child new_node next_component read_component skip_slash
    vfs_find_child find_child_loop same_name kmalloc vfs_add_child vfs_set_name put
creates_b = refl

vfs_lookup-create_file_example : vfs_lookup 6 created (some (47 ∷ 98 ∷ [])) ≡ some 3
vfs_lookup-create_file_example =
    vfs_lookup-create_file 4 6 3 start created (47 ∷ 98 ∷ []) (9 ∷ []) 1
      (inr (refl, (omega arith, tt)), (inr (refl, tt), tt)) (omega arith) creates_b (omega arith)
      (omega arith)

abbrev closed : Vfs
closed = (vfs_close start (pos 0)).1

closes : vfs_close start (pos 0) ≡ (pos 0, closed)
unfolding vfs_close entry
closes = refl

free_one : entry start (pos 5) ≡ none
unfolding entry
free_one = refl

opens : (open_node start 2 file 0).0 ≡ pos 1
unfolding open_node first_unused
opens = refl

-- The root after a start, and a path that does not exist
at_start : (vfs_root (vfs_init 1 start) ≡ 1) × (vfs_lookup 4 start (some (47 ∷ 98 ∷ [])) ≡ some 0)
unfolding vfs_root vfs_init clear_used is_root_path vfs_lookup lookup_loop vfs_find_child
    find_child_loop next_component read_component skip_slash vfs_open open_pointer whence_of
    new_offset vfs_default_read vfs_default_write grow store write_stored write_grown ramfs_init
    vfs_lseek vfs_read vfs_write
at_start = (refl, refl)
