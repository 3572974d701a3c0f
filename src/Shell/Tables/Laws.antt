-- ===== src/Shell/Tables/Laws.antt =====
-- What is looked up in the tables of ui/shell.c after a change.
use mira_os.Base.{
  ℕ, ◌<◌, ◌≤◌, ◌≡◌, inl, inr, refl, sym, ◌∙◌, true, false, List, [], ◌∷◌, ◌++◌, none, some, length,
  drop, get_or, ◌==◌, if◌then◌else◌, arith, Bool-cases, Option-cases, length-drop,
}
use mira_os.Shell.Tables.{
  same_text, Variable, max_vars, replace_value, append_variable, shell_set_variable,
  shell_get_variable, max_history, shell_add_history, shell_get_history,
}

pub same_text_self : (s : List ℕ) → same_text s s ≡ true
unfolding same_text
same_text_self [] = refl
same_text_self (x ∷ s) = ground (arith, same_text_self s)

same_text-eq : (s t : List ℕ) → same_text s t ≡ true → s ≡ t
unfolding same_text
same_text-eq [] [] h = refl
same_text-eq [] (y ∷ t) h = ground arith
same_text-eq (x ∷ s) [] h = ground arith
same_text-eq (x ∷ s) (y ∷ t) h = ground (arith, same_text-eq s t)

same_text-other :
    (a b c : List ℕ) → same_text a b ≡ false → same_text a c ≡ true → same_text b c ≡ false
same_text-other a b c h k = elim (Bool-cases (same_text b c)) [
  | inl e ↦
      let eq = same_text-eq a c k ∙ sym (same_text-eq b c e) in
      ground (arith, rw eq at h, same_text_self b)
  | inr e ↦ e
]

-- One step of the lookup, whose first variable is not of the name `name`
step_other :
    (a name other : List ℕ) (v value u u' : List ℕ)
    → same_text a name ≡ false
    → u' ≡ (if same_text name other then value else u)
    → (if same_text a other then v else u')
      ≡ (if same_text name other then value else (if same_text a other then v else u))
step_other a name other v value u u' h e = elim (Bool-cases (same_text a other)) [
  | inl k ↦ ground (arith, k, same_text-other a name other h k)
  | inr k ↦ ground (arith, k, e)
]

step_same :
    (a name other : List ℕ) (v value u : List ℕ)
    → same_text a name ≡ true
    → (if same_text a other then value else u)
      ≡ (if same_text name other then value else (if same_text a other then v else u))
step_same a name other v value u h = rw (same_text-eq a name h) (ground arith)

replace_value-get :
    (vars vars' : List Variable) (name value other : List ℕ)
    → replace_value vars name value ≡ some vars'
    → shell_get_variable vars' other
      ≡ (if same_text name other then value else shell_get_variable vars other)
unfolding replace_value shell_get_variable
replace_value-get [] vars' name value other h = ground arith
replace_value-get (x ∷ vars) vars' name value other h =
    elim (Bool-cases (same_text (x.name) name)) [
      | inl e ↦
          let eq : record x { value = value } ∷ vars ≡ vars' = ground (arith, e, h) in
          rw (sym eq)
            (step_same (x.name) name other (x.value) value (shell_get_variable vars other) e)
      | inr e ↦ elim (Option-cases (replace_value vars name value)) [
        | inl k ↦ ground (arith, e, h, k)
        | inr (rest, k) ↦
            let eq : x ∷ rest ≡ vars' = ground (arith, e, h, k) in
            rw (sym eq) (
              step_other (x.name) name other (x.value) value _ _ e
                (replace_value-get vars rest name value other k))
      ]
    ]

append_variable-get :
    (vars : List Variable) (x : Variable) (other : List ℕ)
    → replace_value vars (x.name) (x.value) ≡ none
    → shell_get_variable (vars ++ (x ∷ [])) other
      ≡ (if same_text (x.name) other then x.value else shell_get_variable vars other)
unfolding replace_value shell_get_variable
append_variable-get [] x other h = ground arith
append_variable-get (y ∷ vars) x other h = elim (Bool-cases (same_text (y.name) (x.name))) [
  | inl e ↦ ground (arith, e)
  | inr e ↦
      step_other (y.name) (x.name) other (y.value) (x.value) _ _ e
        (append_variable-get vars x other (ground (arith, e)))
]

-- After `shell_set_variable`, with a name and a value that fit their arrays and room for one more variable,
-- `shell_get_variable` returns the new value for that name and what it returned before for each other.
pub shell_get_variable-set :
    (vars : List Variable) (name value : List ℕ)
    → length name < 64
    → length value < 256
    → length vars < max_vars
    → (vars' : List Variable) × (shell_set_variable vars name value ≡ some vars')
      × ((other : List ℕ)
          → shell_get_variable vars' other
            ≡ (if same_text name other then value else shell_get_variable vars other))
unfolding shell_set_variable append_variable
shell_get_variable-set vars name value p q r = elim (Option-cases (replace_value vars name value)) [
  | inl k ↦
      let x : Variable = record {
        name = name;
        value = value;
        exported = false;
        readonly = false;
      } in
      (vars ++ (x ∷ []), ground (arith, k), λ other. append_variable-get vars x other k)
  | inr (vars', k) ↦
      (vars', ground (arith, k), λ other. replace_value-get vars vars' name value other k)
]

get_or-last : (xs : List (List ℕ)) (x : List ℕ) → get_or (xs ++ (x ∷ [])) (length xs) [] ≡ x
get_or-last [] x = refl
get_or-last (y ∷ xs) x = get_or-last xs x

-- The history stays within its array: `shell_add_history` drops the oldest entry when the array is full,
-- and the command is then the last entry.
shell_add_history_lem :
    (history : List (List ℕ)) (cmd : List ℕ)
    → length history ≤ max_history
    → (kept : List (List ℕ)) × (shell_add_history history cmd ≡ kept ++ (cmd ∷ []))
      × (kept ≡ (if length history == max_history then drop 1 history else history))
      × (length kept < max_history)
      × (shell_get_history (shell_add_history history cmd) (length kept) ≡ cmd)
unfolding shell_add_history shell_get_history
shell_add_history_lem history cmd h =
    let kept = if length history == max_history then drop 1 history else history in
    let same : shell_add_history history cmd ≡ kept ++ (cmd ∷ []) = ground (arith, h) in
    (kept, same, refl, ground (arith, h, length-drop 1 history), rw same (get_or-last kept cmd))
