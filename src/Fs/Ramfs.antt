-- ===== src/Fs/Ramfs.antt =====
-- fs/backend/ramfs.c: the root directory and its two first files.
use mira_os.Base.{ℕ, [], ◌∷◌, Option, none, some, codes}
use mira_os.Fs.Node.{Node, type_dir}
use mira_os.Fs.Vfs.{Vfs, put, zero_node, vfs_init, vfs_create_file}

abbrev pub root_dir : Node
root_dir = record zero_node { name = b'/' ∷ []; type = type_dir }

-- `root` is the address of `ramfs_root_node`.
unfoldable pub ramfs_init : ℕ → ℕ → Vfs → Option Vfs
ramfs_init f root s =
    let fresh = vfs_init root (record s { nodes = put s.nodes root root_dir }) in
    elim (vfs_create_file f fresh (codes "/readme.txt") (codes "MiraOS ramfs online") 19) [
      | none ↦ none
      | some (_, one) ↦ elim (vfs_create_file f one (codes "/version") (codes "1.0") 3) [
        | none ↦ none
        | some (_, two) ↦ some two
      ]
    ]
