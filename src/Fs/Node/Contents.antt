-- ===== src/Fs/Node/Contents.antt =====
-- `vfs_default_read` and `vfs_default_write` on a node whose block has the node's size.
use mira_os.Base.{
  ℕ, ◌+◌, ◌-◌, ◌≡◌, ◌&&◌, ltb, leb, if◌then◌else◌, Option, none, some, List, [], ◌++◌, length, take,
  drop, get_or,
}
use mira_os.Fs.Node.{Node, vfs_default_read}

-- The bytes of the file.
abbrev pub bytes : Option (List ℕ) → List ℕ
bytes none = []
bytes (some block) = block

-- The block has `size` bytes, and there is no block for an empty file that was never written.
abbrev pub IsValid : Node → Type 0
IsValid n = length (bytes n.content) ≡ n.size

-- `block'` is `block` with the first `count` bytes of `buf` at `offset`.
abbrev pub Written : List ℕ → ℕ → List ℕ → ℕ → List ℕ → Type 0
Written block offset buf count block' =
    (i : ℕ)
    → get_or block' i 0 ≡ (
        if leb offset i && ltb i (offset + count)
        then get_or buf (i - offset) 0
        else get_or block i 0)

written : List ℕ → ℕ → List ℕ → ℕ → List ℕ
written block offset buf count =
    take offset block ++ (take count buf ++ drop (offset + count) block)

-- What a write of `count` bytes of `buf` at `offset` leaves: a valid node that reads back what was
-- written, grown if need be, and the old bytes elsewhere.
abbrev pub WroteTo : Node → ℕ → List ℕ → ℕ → Node → Type 0
WroteTo n offset buf count n' =
    IsValid n'
    × (vfs_default_read n' count offset ≡ some (take count buf))
    × (n'.size ≡ (if ltb n.size (offset + count) then offset + count else n.size))
    × Written (bytes n.content) offset buf count (bytes n'.content)
