-- ===== src/Shell/Numbers.antt =====
-- The conversions between numbers and text of ui/shell.c. A text is the list of its characters, without
-- the 0 that ends it; a result `none` stands for the overflow of an `int`, which C leaves undefined.
pub mod RoundTrip
use mira_os.Base.{
  ℕ, zero, suc, ◌+◌, ◌-◌, ◌*◌, ◌/◌, ◌%◌, ◌^◌, Bool, true, false, ◌||◌, ◌&&◌, List, [], ◌∷◌, Option,
  none, some, leb, ltb, ◌==◌, if◌then◌else◌, ℤ, pos, negsuc,
}

abbrev pub int_max : ℕ
int_max = 0x7FFF_FFFF

unfoldable pub is_digit : ℕ → Bool
is_digit c = leb 48 c && leb c 57

-- `while (str[i] == ' ' || str[i] == '\t') i++;`
unfoldable pub skip_blanks : List ℕ → List ℕ
skip_blanks [] = []
skip_blanks (c ∷ s) = let rest = skip_blanks s in if (c == 32) || (c == 9) then rest else c ∷ s

-- `while (digit) result = result * 10 + digit;`
unfoldable pub atoi_loop : List ℕ → ℕ → Option ℕ
unfolding is_digit
atoi_loop [] result = some result
atoi_loop (c ∷ s) result =
    let rest = atoi_loop s (result * 10 + (c - 48)) in
    if is_digit c then if leb (result * 10 + (c - 48)) int_max then rest else none else some result

-- `-n`
unfoldable pub negated : ℕ → ℤ
negated zero = pos 0
negated (suc n) = negsuc n

unfoldable pub signed_result : Bool → Option ℕ → Option ℤ
unfolding negated
signed_result minus none = none
signed_result true (some n) = some (negated n)
signed_result false (some n) = some (pos n)

-- The sign, then the digits
unfoldable pub atoi_signed : List ℕ → Option ℤ
unfolding signed_result atoi_loop
atoi_signed [] = some (pos 0)
atoi_signed (c ∷ s) =
    if c == 45
    then signed_result true (atoi_loop s 0)
    else if c == 43
    then signed_result false (atoi_loop s 0)
    else signed_result false (atoi_loop (c ∷ s) 0)

unfoldable pub atoi_simple : List ℕ → Option ℤ
unfolding skip_blanks atoi_signed
atoi_simple str = atoi_signed (skip_blanks str)

-- `while (value > 0) { tmp[i++] = '0' + value % 10; value /= 10; }` and the copy from the end of `tmp`,
-- on fuel, which is the size that `tmp` has for digits
unfoldable pub digits : ℕ → ℕ → List ℕ → List ℕ
digits zero value acc = acc
digits (suc f) value acc =
    let rest = digits f (value / 10) ((48 + value % 10) ∷ acc) in if value == 0 then acc else rest

-- `tmp` holds 12 characters; `-value` overflows for the least `int`.
unfoldable pub int_to_str : ℤ → Option (List ℕ)
unfolding digits
int_to_str (pos n) = some (if n == 0 then 48 ∷ [] else digits 12 n [])
int_to_str (negsuc n) = if leb (suc n) int_max then some (45 ∷ digits 12 (suc n) []) else none

unfoldable pub uint64_to_str : ℕ → List ℕ
unfolding digits
uint64_to_str value = if value == 0 then 48 ∷ [] else digits 20 value []
