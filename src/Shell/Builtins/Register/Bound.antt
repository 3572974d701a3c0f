-- ===== src/Shell/Builtins/Register/Bound.antt =====
-- The table of the builtin commands of ui/shell.c holds 128, and the calls that fill it are more.
use mira_os.Base.{
  ℕ, zero, suc, ◌+◌, ◌≡◌, refl, sym, ◌∙◌, true, false, List, [], ◌∷◌, ◌++◌, none, length, take, ltb,
  arith, length-append,
}
use mathlib.Core.List.{append_assoc, append-nil}
use mira_os.Shell.Exec.{Builtin, find_builtin}
use mira_os.Shell.Tables.{same_text}
use mira_os.Shell.Builtins.Table.{Calls}
use mira_os.Shell.Builtins.Table.First.{first_entries}
use mira_os.Shell.Builtins.Table.Second.{second_entries}
use mira_os.Shell.Builtins.Table.Late.{late_entries}
use mira_os.Shell.Builtins.Register.{
  max_builtins, shell_register_builtin, register_all, all_entries, shell_register_builtins,
}

-- With room for `room` more, the table takes so many entries and drops the others.
register_all-take :
    (room : ℕ) (builtins entries : List Builtin)
    → length builtins + room ≡ max_builtins
    → register_all builtins entries ≡ builtins ++ take room entries
unfolding register_all shell_register_builtin
register_all-take zero builtins [] h = sym (append-nil builtins)
register_all-take (suc room) builtins [] h = sym (append-nil builtins)
register_all-take zero builtins (b ∷ entries) h =
    let full : ltb (length builtins) max_builtins ≡ false = ground (arith, h) in
    rw (full, shell_register_builtin) (register_all-take zero builtins entries h)
register_all-take (suc room) builtins (b ∷ entries) h =
    let left : ltb (length builtins) max_builtins ≡ true = ground (arith, h) in
    let size : length (builtins ++ (b ∷ [])) + room ≡ max_builtins =
      omega (arith, h, length-append builtins (b ∷ [])) in
    rw (left, shell_register_builtin)
      (register_all-take room (builtins ++ (b ∷ [])) entries size
        ∙ append_assoc builtins (b ∷ []) (take room entries))

taken : (c : Calls) → take max_builtins (all_entries c) ≡ first_entries c ++ second_entries c
unfolding all_entries first_entries second_entries late_entries
taken c = refl

-- Every command of the list has a name that no command of the table has.
abbrev pub AllMissing : List Builtin → List Builtin → Type 0
AllMissing builtins [] = Unit
AllMissing builtins (b ∷ entries) =
    (find_builtin builtins (b.name) ≡ none) × AllMissing builtins entries

late_missing : (c : Calls) → AllMissing (first_entries c ++ second_entries c) (late_entries c)
unfolding first_entries second_entries late_entries find_builtin same_text
late_missing c = ground arith

-- `shell_register_builtins` fills the table with its first 128 commands, in their order, and drops the
-- others: none of those is found.
pub shell_register_builtins_lem :
    (c : Calls)
    → (shell_register_builtins c ≡ first_entries c ++ second_entries c)
      × AllMissing (shell_register_builtins c) (late_entries c)
unfolding shell_register_builtins
shell_register_builtins_lem c =
    let same = register_all-take max_builtins [] (all_entries c) refl ∙ taken c in
    (same, rw same (late_missing c))
