-- ===== src/Shell/Numbers/RoundTrip.antt =====
-- What the conversions of ui/shell.c print is what they read.
use mira_os.Base.{
  ℕ, zero, suc, ◌+◌, ◌/◌, ◌%◌, ◌^◌, ◌<◌, ◌≤◌, ◌≡◌, ◌≢◌, refl, true, false, List, [], ◌∷◌, some,
  length, ℤ, pos, negsuc, arith, pos_part, neg_part,
}
use mira_os.Shell.Numbers.{
  int_max, is_digit, skip_blanks, atoi_loop, negated, signed_result, atoi_signed, atoi_simple,
  digits, int_to_str,
}

-- Reading what `digits` prints from 0 is reading on from the value.
atoi_loop-digits :
    (f v : ℕ) (acc : List ℕ)
    → v < 10 ^ f
    → v ≤ int_max
    → atoi_loop (digits f v acc) 0 ≡ atoi_loop acc v
unfolding atoi_loop digits is_digit
atoi_loop-digits zero v acc lt le = ground arith
atoi_loop-digits (suc f) v acc lt le =
    ground (arith, atoi_loop-digits f (v / 10) ((48 + v % 10) ∷ acc) (omega arith) (omega arith))

-- The first character that `digits` prints is a digit.
abbrev DigitFirst : List ℕ → Type 0
DigitFirst [] = suc zero ≤ zero
DigitFirst (c ∷ s) = (48 ≤ c) × (c ≤ 57)

digits-first : (f v : ℕ) (acc : List ℕ) → DigitFirst acc → DigitFirst (digits f v acc)
unfolding digits
digits-first zero v acc h = h
digits-first (suc f) v acc h =
    ground (arith, digits-first f (v / 10) ((48 + v % 10) ∷ acc) (omega arith, omega arith))

digits-some : (f v : ℕ) → v ≢ 0 → DigitFirst (digits (suc f) v [])
unfolding digits
digits-some f v nz =
    ground (arith, digits-first f (v / 10) ((48 + v % 10) ∷ []) (omega arith, omega arith))

length-digits : (f k v : ℕ) (acc : List ℕ) → v < 10 ^ k → length (digits f v acc) ≤ k + length acc
unfolding digits
length-digits zero k v acc h = omega arith
length-digits (suc f) zero v acc h = ground arith
length-digits (suc f) (suc k) v acc h =
    ground (arith, length-digits f k (v / 10) ((48 + v % 10) ∷ acc) (omega arith))

atoi_simple-digits :
    (s : List ℕ) → DigitFirst s → atoi_simple s ≡ signed_result false (atoi_loop s 0)
unfolding atoi_simple atoi_signed skip_blanks
atoi_simple-digits [] h = absurd (omega arith)
atoi_simple-digits (c ∷ s) (a, b) = ground arith

atoi_simple-minus : (s : List ℕ) → atoi_simple (45 ∷ s) ≡ signed_result true (atoi_loop s 0)
unfolding atoi_simple atoi_signed skip_blanks
atoi_simple-minus s = refl

-- Every `int` but the least one is printed, in at most 11 characters, and `atoi_simple` reads the text back
-- as the same number.
atoi_simple-int_to_str :
    (value : ℤ)
    → pos_part value ≤ int_max
    → neg_part value ≤ int_max
    → (s : List ℕ) × (int_to_str value ≡ some s) × (length s ≤ 11) × (atoi_simple s ≡ some value)
unfolding int_to_str atoi_simple atoi_signed skip_blanks signed_result negated atoi_loop is_digit
atoi_simple-int_to_str (pos zero) p q = (48 ∷ [], ground arith, omega arith, ground arith)
atoi_simple-int_to_str (pos (suc n)) p q = (
  digits 12 (suc n) [],
  ground arith,
  ground (arith, length-digits 12 10 (suc n) [] (omega arith)),
  ground (
    arith,
    atoi_simple-digits (digits 12 (suc n) []) (digits-some 11 (suc n) (ground arith)),
    atoi_loop-digits 12 (suc n) [] (omega arith) p,
  ),
)
atoi_simple-int_to_str (negsuc n) p q = (
  45 ∷ digits 12 (suc n) [],
  ground arith,
  ground (arith, length-digits 12 10 (suc n) [] (omega arith)),
  ground (
    arith,
    atoi_simple-minus (digits 12 (suc n) []),
    atoi_loop-digits 12 (suc n) [] (omega arith) q,
  ),
)
