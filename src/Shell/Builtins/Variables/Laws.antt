-- ===== src/Shell/Builtins/Variables/Laws.antt =====
-- What the builtins on variables of ui/shell.c leave in the table: set and the expansion of a variable.
use mira_os.Base.{ℕ, ◌≡◌, ◌≢◌, refl, true, List, [], ◌∷◌, ◌++◌, some, arith}
use mira_os.Shell.Numbers.{is_digit}
use mira_os.Shell.Tokens.{is_name, is_letter}
use mira_os.Shell.Env.{Env}
use mira_os.Shell.Builtins.Variables.{split_equals}

-- The characters of a variable's name
abbrev pub AllName : List ℕ → Type 0
AllName [] = Unit
AllName (c ∷ s) = (is_name c ≡ true) × AllName s

name_char : (c : ℕ) → is_name c ≡ true → (c ≢ b'=') × (c ≢ b'{')
unfolding is_name is_letter is_digit
name_char c h = ground arith

pub split_equals-name :
    (name value : List ℕ)
    → AllName name
    → split_equals (name ++ (b'=' ∷ value)) ≡ some (name, value)
unfolding split_equals
split_equals-name [] value h = refl
split_equals-name (c ∷ name) value h =
    let other = name_char c h.0 in ground (arith, split_equals-name name value h.1)
