-- ===== src/Shell/Builtins/Aliases/Laws.antt =====
-- The builtins alias and unalias of ui/shell.c, one after the other.
use mira_os.Base.{ℕ, ◌≡◌, false, List, [], ◌∷◌}
use mira_os.Shell.Tables.{Alias, same_text}
use mira_os.Shell.Env.{Env}

-- No alias has that name.
abbrev pub IsFree : List Alias → List ℕ → Type 0
IsFree [] name = Unit
IsFree (x ∷ aliases) name = (same_text (x.name) name ≡ false) × IsFree aliases name

module _ (name value : List ℕ) where
  abbrev made : Alias
  made = record { name = name; value = value }
