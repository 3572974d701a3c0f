-- ===== src/Shell/Builtins/Compare.antt =====
-- The builtins test and [. The code takes the first argument for the operator, and compares the first
-- argument with the second.
use mira_os.Base.{
  ℕ, Bool, true, false, ◌||◌, not, List, ◌∷◌, Option, some, ◌>>=◌, ltb, length, ◌==◌, if◌then◌else◌,
  ℤ, pos, codes, ltb_int, eqb_int,
}
use mira_os.Shell.Numbers.{atoi_simple}
use mira_os.Shell.Tables.{same_text}
use mira_os.Shell.Exec.{Handler}
use mira_os.Shell.Builtins.{operands}

-- `condition ? 0 : 1`
abbrev pub status_of : Bool → ℤ
status_of true = pos 0
status_of false = pos 1

unfoldable pub compare_numbers : (ℤ → ℤ → Bool) → List ℕ → List ℕ → Option ℤ
unfolding atoi_simple
compare_numbers test a b = do x ← atoi_simple a; y ← atoi_simple b; some (status_of (test x y))

-- The chain of conditions, for an operator that stands in `args[1]`, and `args[2]`
unfoldable pub test_status : List ℕ → List ℕ → Option ℤ
unfolding same_text compare_numbers
test_status op arg =
    if same_text op (codes "-z")
    then some (status_of (length arg == 0))
    else if same_text op (codes "-n")
    then some (status_of (ltb 0 (length arg)))
    else if same_text op (codes "=") || same_text op (codes "==")
    then some (status_of (same_text op arg))
    else if same_text op (codes "!=")
    then some (status_of (not (same_text op arg)))
    else if same_text op (codes "-eq")
    then compare_numbers eqb_int op arg
    else if same_text op (codes "-ne")
    then compare_numbers (λ x y. not (eqb_int x y)) op arg
    else if same_text op (codes "-lt")
    then compare_numbers ltb_int op arg
    else if same_text op (codes "-gt")
    then compare_numbers (λ x y. ltb_int y x) op arg
    else some (pos 1)

unfoldable pub builtin_test : Handler
unfolding test_status
builtin_test env cmd = elim (operands cmd) [
  | op ∷ arg ∷ args ↦ do status ← test_status op arg; some (status, env)
  | _ ↦ some (pos 1, env)
]

unfoldable pub builtin_bracket : Handler
unfolding builtin_test
builtin_bracket env cmd = builtin_test env cmd
