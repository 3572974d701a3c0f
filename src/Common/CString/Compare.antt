-- ===== src/Common/CString/Compare.antt =====
-- `strcmp` against a comparison of lists of bytes.
use mira_os.Base.{
  ℕ, zero, suc, ◌+◌, ◌<◌, ◌≡◌, ◌≢◌, ◌↔◌, refl, List, [], ◌∷◌, length, some, arith, ap, sym, ◌∙◌,
  if◌then◌else◌, ◌==◌, ℤ, pos, ◌-ℤ◌,
}
use mira_os.Common.Memory.{Memory}
use mira_os.Common.CString.{strcmp, char_difference}
use mira_os.Common.CString.Terminated.{IsString}

-- The difference at the first position where two terminated strings part.
compare_strings : List ℕ → List ℕ → ℤ
compare_strings [] [] = char_difference 0 0
compare_strings [] (y ∷ t) = char_difference 0 y
compare_strings (x ∷ s) [] = char_difference x 0
compare_strings (x ∷ s) (y ∷ t) = if x == y then compare_strings s t else char_difference x y

-- `strcmp` of two terminated strings returns the difference of their first unequal characters; a
-- fuel above the first string's length is enough.
strcmp_lem :
    (f a b : ℕ) (m : Memory) (s t : List ℕ)
    → IsString m a s
    → IsString m b t
    → length s < f
    → strcmp f a b m ≡ some (compare_strings s t)
unfolding strcmp compare_strings
strcmp_lem zero a b m s t h k lt = absurd (omega arith)
strcmp_lem (suc f) a b m [] [] h k lt = ground arith
strcmp_lem (suc f) a b m [] (y ∷ t) h k lt = ground arith
strcmp_lem (suc f) a b m (x ∷ s) [] h k lt = ground arith
strcmp_lem (suc f) a b m (x ∷ s) (y ∷ t) h k lt =
    ground (arith, strcmp_lem f (a + 1) (b + 1) m s t h.2 k.2 (omega arith))

-- Equal characters have the difference 0, and no others do.
char_difference_iff : (x y : ℕ) → x < 256 → y < 256 → (char_difference x y ≡ pos 0) ↔ (x ≡ y)
unfolding char_difference ◌-ℤ◌
char_difference_iff x y p q = (λ h. ground arith, λ h. ground arith)

-- The characters of a string in memory: bytes, none of them 0.
abbrev pub Chars : List ℕ → Type 0
Chars [] = Unit
Chars (x ∷ s) = (x < 256) × (x ≢ 0) × Chars s

compare_strings-zero : (s t : List ℕ) → Chars s → Chars t → compare_strings s t ≡ pos 0 → s ≡ t
unfolding compare_strings
compare_strings-zero [] [] p q h = refl
compare_strings-zero [] (y ∷ t) p q h =
    absurd (q.1 (sym ((char_difference_iff 0 y (omega arith) q.0).0 h)))
compare_strings-zero (x ∷ s) [] p q h =
    absurd (p.1 ((char_difference_iff x 0 p.0 (omega arith)).0 h))
compare_strings-zero (x ∷ s) (y ∷ t) p q h =
    ground (arith, compare_strings-zero s t p.2 q.2, (char_difference_iff x y p.0 q.0).0)

compare_strings_self : (s : List ℕ) → compare_strings s s ≡ pos 0
unfolding compare_strings char_difference ◌-ℤ◌
compare_strings_self [] = refl
compare_strings_self (x ∷ s) = ground (arith, compare_strings_self s)

-- `strcmp` of two terminated strings returns 0 exactly when they are equal; a fuel above the first
-- string's length is enough.
strcmp_zero_iff :
    (f a b : ℕ) (m : Memory) (s t : List ℕ)
    → Chars s
    → Chars t
    → IsString m a s
    → IsString m b t
    → length s < f
    → (strcmp f a b m ≡ some (pos 0)) ↔ (s ≡ t)
strcmp_zero_iff f a b m s t p q h k lt =
    let runs = strcmp_lem f a b m s t h k lt in
    (
      λ e. compare_strings-zero s t p q (ground (arith, runs)),
      λ e. runs ∙ ap (λ u. some (compare_strings s u)) (sym e) ∙ ap some (compare_strings_self s),
    )
