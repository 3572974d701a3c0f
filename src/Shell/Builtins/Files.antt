-- ===== src/Shell/Builtins/Files.antt =====
-- The builtins on files: cat, ls, mkdir and touch; and the text of a script. `f` is the fuel for each chain
-- of siblings. A path is at most as long as the arrays for the messages allow.
use mira_os.Base.{
  ℕ, zero, suc, ◌%◌, ◌^◌, ◌==◌, List, [], ◌∷◌, ◌++◌, Option, none, some, ◌>>=◌, take, if◌then◌else◌,
  ℤ, pos, negsuc, codes,
}
use mira_os.Fs.Node.{Node, type_dir}
use mira_os.Fs.Vfs.{vfs_lookup, vfs_create_file}
use mira_os.Fs.Files.{vfs_open, vfs_close, vfs_read}
use mira_os.Shell.Numbers.{int_to_str}
use mira_os.Shell.Exec.{Handler, Done}
use mira_os.Shell.Env.{Env, white, draw_char, shell_print_error}
use mira_os.Shell.Builtins.{operands, draw, to_int}
use mira_os.Shell.Builtins.Names.{fit_line}

-- The text in an array: it ends at the first 0.
unfoldable pub until_zero : List ℕ → List ℕ
until_zero [] = []
until_zero (c ∷ buf) = let rest = until_zero buf in if c == 0 then [] else c ∷ rest

-- `while ((n = vfs_read(fd, buf, 255)) > 0)`, on fuel: a round reads a byte of the file at least.
unfoldable pub cat_loop : ℕ → ℤ → Env → Option Env
unfolding vfs_read until_zero
cat_loop zero fd env = none
cat_loop (suc rounds) fd env = do
  (n, buf, files) ← vfs_read (env.files) fd 255
  let env' = record env { files = files }
  let rest = cat_loop rounds fd (draw (until_zero buf) env')
  elim n [ pos zero ↦ some env' | pos (suc k) ↦ rest | negsuc k ↦ some env' ]

unfoldable pub cat_one : ℕ → ℕ → List ℕ → Env → Option Env
unfolding vfs_open vfs_close cat_loop fit_line draw_char
cat_one f rounds path env = do
  (fd, files) ← vfs_open f (env.files) path 0
  let env' = record env { files = files }
  let missing : Option Env = (do
    line ← fit_line (codes "cat: " ++ path ++ codes ": No such file or directory\n")
    some (draw line env'))
  let found : Option Env = (do
    env'' ← cat_loop rounds fd env'
    some (draw_char b'\n' white (record env'' { files = (vfs_close (env''.files) fd).1 })))
  elim fd [ pos n ↦ found | negsuc n ↦ missing ]

unfoldable pub cat_all : ℕ → ℕ → List (List ℕ) → Env → Option Env
unfolding cat_one
cat_all f rounds [] env = some env
cat_all f rounds (path ∷ args) env = do env' ← cat_one f rounds path env; cat_all f rounds args env'

-- `rounds` is the fuel for the reads of each file.
unfoldable pub builtin_cat : ℕ → ℕ → Handler
unfolding cat_all
builtin_cat f rounds env cmd = do env' ← cat_all f rounds (operands cmd) env; some (pos 0, env')

-- The line for a child: its size is written over the last three characters of the first text. `buf` holds
-- 256 characters.
unfoldable pub ls_line : Node → Option (List ℕ)
unfolding int_to_str
ls_line child = do
  size ← int_to_str (to_int (child.size % 2 ^ 32))
  some (take 20 (codes "drwxr-xr-x 1 root root ") ++ size ++ codes " " ++ child.name ++ codes "\n")

-- From the child at that address along the siblings, on fuel
unfoldable pub ls_children : ℕ → ℕ → Env → Option Env
unfolding ls_line
ls_children zero child env = none
ls_children (suc f) child env = if child == 0 then some env else elim (env.files.nodes child) [
  | none ↦ none
  | some n ↦ do line ← ls_line n; ls_children f (n.next_sibling) (draw line env)
]

-- `dir` is the node at the address that `vfs_lookup` returned, if that is not NULL.
unfoldable pub ls_node : ℕ → List ℕ → Option Node → Env → Done
unfolding ls_children fit_line
ls_node f path dir env =
    let missing : Done = (do
      line ← fit_line (codes "ls: cannot access '" ++ path ++ codes "': No such directory\n")
      some (pos 1, draw line env)) in
    elim dir [
      | none ↦ missing
      | some d ↦
          let listed : Done = (do
            env' ← ls_children f (d.children) (draw (codes "total 0\n") env)
            some (pos 0, env')) in
          if d.type == type_dir then listed else missing
    ]

unfoldable pub ls_path : ℕ → List ℕ → Env → Done
unfolding vfs_lookup ls_node
ls_path f path env = do
  p ← vfs_lookup f (env.files) (some path)
  let found : Done = elim (env.files.nodes p) [ none ↦ none | some d ↦ ls_node f path (some d) env ]
  if p == 0 then ls_node f path none env else found

unfoldable pub builtin_ls : ℕ → Handler
unfolding ls_path
builtin_ls f env cmd = elim (operands cmd) [
  | [] ↦ ls_path f (codes "/") env
  | path ∷ args ↦ ls_path f path env
]

-- `vfs_create_file(args[1], …, 0)`, or the error `missing`
unfoldable pub create_empty : ℕ → List ℕ → Handler
unfolding vfs_create_file shell_print_error
create_empty f missing env cmd = elim (operands cmd) [
  | [] ↦ some (pos 1, shell_print_error missing env)
  | path ∷ args ↦ do
    (node, files) ← vfs_create_file f (env.files) path [] 0
    some (pos 0, record env { files = files })
]

unfoldable pub builtin_mkdir : ℕ → Handler
unfolding create_empty
builtin_mkdir f env cmd = create_empty f (codes "mkdir: missing operand") env cmd

unfoldable pub builtin_touch : ℕ → Handler
unfolding create_empty
builtin_touch f env cmd = create_empty f (codes "touch: missing file operand") env cmd
