-- ===== src/Shell/Tables.antt =====
-- The tables of ui/shell.c: variables, aliases, functions, builtin commands, history and jobs. A table is
-- the list of its entries in use, and a text the list of its characters; a result `none` stands for a write
-- outside a fixed array, which `ds_strcpy` does with a text that is too long.
pub mod Laws
use mira_os.Base.{
  ℕ, zero, suc, ◌+◌, Bool, true, false, ◌&&◌, ◌||◌, not, List, [], ◌∷◌, ◌++◌, Option, none, some,
  leb, ltb, length, drop, get_or, ◌==◌, if◌then◌else◌, ℤ, pos,
}

-- `ds_strcmp(a, b) == 0`
unfoldable pub same_text : List ℕ → List ℕ → Bool
same_text [] [] = true
same_text [] (y ∷ t) = false
same_text (x ∷ s) [] = false
same_text (x ∷ s) (y ∷ t) = if x == y then same_text s t else false

-- The text fits an array of so many characters.
abbrev pub fits : List ℕ → ℕ → Bool
fits s size = ltb (length s) size

-- `shell_var_t`; the shell sets `type` to VAR_TYPE_STRING and reads it nowhere.
pub record Variable : Type 0 where
  pub name : List ℕ
  pub value : List ℕ
  pub exported : Bool
  pub readonly : Bool

abbrev pub max_vars : ℕ
max_vars = 1024

-- The loop of `shell_set_variable`: the value of the first variable of that name
unfoldable pub replace_value : List Variable → List ℕ → List ℕ → Option (List Variable)
unfolding same_text
replace_value [] name value = none
replace_value (x ∷ vars) name value =
    let rest = replace_value vars name value in
    if same_text (x.name) name
    then some (record x { value = value } ∷ vars)
    else elim rest [ none ↦ none | some vars' ↦ some (x ∷ vars') ]

unfoldable pub append_variable : List Variable → List ℕ → List ℕ → Option (List Variable)
append_variable vars name value =
    if ltb (length vars) max_vars
    then if fits name 64
      then if fits value 256
        then some (
            vars
            ++ (record { name = name; value = value; exported = false; readonly = false } ∷ []))
        else none
      else none
    else some vars

unfoldable pub shell_set_variable : List Variable → List ℕ → List ℕ → Option (List Variable)
unfolding replace_value append_variable
shell_set_variable vars name value = elim (replace_value vars name value) [
  | some vars' ↦ if fits value 256 then some vars' else none
  | none ↦ append_variable vars name value
]

unfoldable pub shell_get_variable : List Variable → List ℕ → List ℕ
unfolding same_text
shell_get_variable [] name = []
shell_get_variable (x ∷ vars) name =
    let rest = shell_get_variable vars name in if same_text (x.name) name then x.value else rest

unfoldable pub shell_export_variable : List Variable → List ℕ → List Variable
unfolding same_text
shell_export_variable [] name = []
shell_export_variable (x ∷ vars) name =
    let rest = shell_export_variable vars name in
    if same_text (x.name) name then record x { exported = true } ∷ vars else x ∷ rest

-- The inner loop of `builtin_unset`
unfoldable pub unset_variable : List Variable → List ℕ → List Variable
unfolding same_text
unset_variable [] name = []
unset_variable (x ∷ vars) name =
    let rest = unset_variable vars name in if same_text (x.name) name then vars else x ∷ rest

-- The outer loop of `builtin_unset`, over the arguments after the command's name
unfoldable pub unset_all : List (List ℕ) → List Variable → List Variable
unfolding unset_variable
unset_all [] vars = vars
unset_all (arg ∷ args) vars = unset_all args (unset_variable vars arg)

-- `shell_alias_t`
pub record Alias : Type 0 where
  pub name : List ℕ
  pub value : List ℕ

unfoldable pub shell_add_alias : List Alias → List ℕ → List ℕ → Option (List Alias)
shell_add_alias aliases name value =
    if ltb (length aliases) 256
    then if fits name 64 && fits value 256
      then some (aliases ++ (record { name = name; value = value } ∷ []))
      else none
    else some aliases

unfoldable pub shell_resolve_alias : List Alias → List ℕ → List ℕ
unfolding same_text
shell_resolve_alias [] name = name
shell_resolve_alias (x ∷ aliases) name =
    let rest = shell_resolve_alias aliases name in if same_text (x.name) name then x.value else rest

abbrev pub max_history : ℕ
max_history = 1024

-- `global_history_index` is the count of the entries, and is left out.
unfoldable pub shell_add_history : List (List ℕ) → List ℕ → List (List ℕ)
shell_add_history history cmd =
    (if leb max_history (length history) then drop 1 history else history) ++ (cmd ∷ [])

unfoldable pub shell_get_history : List (List ℕ) → ℕ → List ℕ
shell_get_history history index = get_or history index []

-- `shell_job_t`
pub record Job : Type 0 where
  pub job_id : ℕ
  pub command : List ℕ
  pub pid : ℕ
  pub running : Bool
  pub stopped : Bool
  pub exit_status : ℤ

unfoldable pub shell_job_add : List Job → Job → List Job
shell_job_add jobs job =
    if ltb (length jobs) 32 then jobs ++ (record job { job_id = length jobs + 1 } ∷ []) else jobs

unfoldable pub shell_job_remove : List Job → ℕ → List Job
shell_job_remove [] id = []
shell_job_remove (x ∷ jobs) id =
    let rest = shell_job_remove jobs id in if x.job_id == id then jobs else x ∷ rest

-- NULL is `none`.
unfoldable pub shell_job_get : List Job → ℕ → Option Job
shell_job_get [] id = none
shell_job_get (x ∷ jobs) id =
    let rest = shell_job_get jobs id in if x.job_id == id then some x else rest

-- A write to the job that `shell_job_get` finds
unfoldable pub modify_job : List Job → ℕ → (Job → Job) → List Job
modify_job [] id f = []
modify_job (x ∷ jobs) id f =
    let rest = modify_job jobs id f in if x.job_id == id then f x ∷ jobs else x ∷ rest

unfoldable pub shell_job_foreground : List Job → ℕ → List Job
unfolding modify_job
shell_job_foreground jobs id =
    modify_job jobs id (λ x. record x { running = true; stopped = false })

unfoldable pub shell_job_background : List Job → ℕ → List Job
unfolding modify_job
shell_job_background jobs id =
    modify_job jobs id (λ x. record x { running = true; stopped = false })

unfoldable pub shell_job_kill : List Job → ℕ → List Job
unfolding modify_job shell_job_remove
shell_job_kill jobs id =
    shell_job_remove (modify_job jobs id (λ x. record x { running = false })) id
