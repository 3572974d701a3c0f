-- ===== src/Common/CString.antt =====
-- lib/common/string.c, and the string functions of lib/common/ds.c, over the byte memory of `Memory`.
-- A loop that looks for a terminator runs on fuel: `none` means that the fuel ran out, and a theorem
-- of the children says that a fuel above the string's length is enough. `some 0` is the pointer NULL.
pub mod Terminated
pub mod Compare
pub mod Copying
use mira_os.Base.{
  ℕ, zero, suc, ◌+◌, ◌-◌, ◌%◌, Bool, true, false, ◌&&◌, not, ◌==◌, ltb, if◌then◌else◌, ℤ, pos,
  negsuc, ◌-ℤ◌, Option, none, some,
}
use mira_os.Common.Memory.{Memory, poke}

-- A byte read as the signed `char` of the target.
abbrev pub to_char : ℕ → ℤ
to_char b = if ltb b 128 then pos b else negsuc (255 - b)

-- `(char)c`, as a byte.
abbrev pub low_byte : ℤ → ℕ
low_byte (pos n) = n % 256
low_byte (negsuc n) = 255 - n % 256

abbrev pub is_zero : ℤ → Bool
is_zero (pos n) = n == 0
is_zero (negsuc n) = false

unfoldable pub strlen_loop : ℕ → ℕ → ℕ → Memory → Option ℕ
strlen_loop zero str len m = none
strlen_loop (suc f) str len m =
    let rest = strlen_loop f str (len + 1) m in if m (str + len) == 0 then some len else rest

unfoldable pub strlen : ℕ → ℕ → Memory → Option ℕ
strlen f str m = strlen_loop f str 0 m

-- `*a - *b`
pub char_difference : ℕ → ℕ → ℤ
char_difference x y = to_char x -ℤ to_char y

unfoldable pub strcmp : ℕ → ℕ → ℕ → Memory → Option ℤ
strcmp zero a b m = none
strcmp (suc f) a b m =
    let rest = strcmp f (a + 1) (b + 1) m in
    if not (m a == 0) && not (m b == 0)
    then if m a == m b then rest else some (char_difference (m a) (m b))
    else some (char_difference (m a) (m b))

-- The loop of `strncmp` from index `i`, with the rounds left.
unfoldable pub strncmp_loop : ℕ → ℕ → ℕ → ℕ → Memory → ℤ
strncmp_loop zero i a b m = pos 0
strncmp_loop (suc n) i a b m =
    let rest = strncmp_loop n (i + 1) a b m in
    if m (a + i) == m (b + i)
    then if m (a + i) == 0 then pos 0 else rest
    else char_difference (m (a + i)) (m (b + i))

unfoldable pub strncmp : ℕ → ℕ → ℕ → Memory → ℤ
strncmp a b n m = strncmp_loop n 0 a b m

unfoldable pub strchr : ℕ → ℕ → ℤ → Memory → Option ℕ
strchr zero str c m = none
strchr (suc f) str c m =
    let rest = strchr f (str + 1) c m in
    if m str == 0
    then if is_zero c then some str else some 0
    else if m str == low_byte c
    then some str
    else rest

-- The inner loop of `strstr`: where `n` stops.
unfoldable pub strstr_match : ℕ → ℕ → ℕ → Memory → Option ℕ
strstr_match zero h n m = none
strstr_match (suc f) h n m =
    let rest = strstr_match f (h + 1) (n + 1) m in
    if not (m h == 0) && not (m n == 0) && m h == m n then rest else some n

unfoldable pub strstr_loop : ℕ → ℕ → ℕ → Memory → Option ℕ
strstr_loop zero haystack needle m = none
strstr_loop (suc f) haystack needle m =
    let rest = strstr_loop f (haystack + 1) needle m in
    if m haystack == 0 then some 0 else elim (strstr_match (suc f) haystack needle m) [
      | none ↦ none
      | some n ↦ if m n == 0 then some haystack else rest
    ]

unfoldable pub strstr : ℕ → ℕ → ℕ → Memory → Option ℕ
strstr f haystack needle m =
    let found = strstr_loop f haystack needle m in if m needle == 0 then some haystack else found

-- `while (*src) *dst++ = *src++; *dst = 0;`
unfoldable pub strcpy_loop : ℕ → ℕ → ℕ → Memory → Option Memory
strcpy_loop zero dst src m = none
strcpy_loop (suc f) dst src m =
    let rest = strcpy_loop f (dst + 1) (src + 1) (poke m dst (m src)) in
    if m src == 0 then some (poke m dst 0) else rest

-- The result is the pointer returned, and the memory after the call.
unfoldable pub strcpy : ℕ → ℕ → ℕ → Memory → Option (ℕ × Memory)
strcpy f dst src m = elim (strcpy_loop f dst src m) [ none ↦ none | some m' ↦ some (dst, m') ]

-- `for (; i < n; i++) dst[i] = 0;` with the rounds left.
unfoldable pub strncpy_pad : ℕ → ℕ → ℕ → Memory → Memory
strncpy_pad zero i dst m = m
strncpy_pad (suc n) i dst m = strncpy_pad n (i + 1) dst (poke m (dst + i) 0)

-- `for (i = 0; i < n && src[i]; i++) dst[i] = src[i];` and then the padding.
unfoldable pub strncpy_loop : ℕ → ℕ → ℕ → ℕ → Memory → Memory
strncpy_loop zero i dst src m = m
strncpy_loop (suc n) i dst src m =
    let rest = strncpy_loop n (i + 1) dst src (poke m (dst + i) (m (src + i))) in
    if m (src + i) == 0 then strncpy_pad (suc n) i dst m else rest

unfoldable pub strncpy : ℕ → ℕ → ℕ → Memory → ℕ × Memory
strncpy dst src n m = (dst, strncpy_loop n 0 dst src m)

-- `while (*dst) dst++;`
unfoldable pub string_end : ℕ → ℕ → Memory → Option ℕ
string_end zero dst m = none
string_end (suc f) dst m =
    let rest = string_end f (dst + 1) m in if m dst == 0 then some dst else rest

unfoldable pub strcat : ℕ → ℕ → ℕ → Memory → Option (ℕ × Memory)
strcat f dst src m = elim (string_end f dst m) [
  | none ↦ none
  | some e ↦ elim (strcpy_loop f e src m) [ none ↦ none | some m' ↦ some (dst, m') ]
]

-- `for (i = 0; i < n && src[i]; i++) *dst++ = src[i]; *dst = 0;`, with the rounds left.
unfoldable pub strncat_loop : ℕ → ℕ → ℕ → Memory → Memory
strncat_loop zero dst src m = poke m dst 0
strncat_loop (suc n) dst src m =
    let rest = strncat_loop n (dst + 1) (src + 1) (poke m dst (m src)) in
    if m src == 0 then poke m dst 0 else rest

unfoldable pub strncat : ℕ → ℕ → ℕ → ℕ → Memory → Option (ℕ × Memory)
strncat f dst src n m = elim (string_end f dst m) [
  | none ↦ none
  | some e ↦ some (dst, strncat_loop n e src m)
]

-- lib/common/ds.c repeats four of these functions.
unfoldable pub ds_strlen : ℕ → ℕ → Memory → Option ℕ
ds_strlen f str m = strlen_loop f str 0 m

unfoldable pub ds_strcmp : ℕ → ℕ → ℕ → Memory → Option ℤ
ds_strcmp zero a b m = none
ds_strcmp (suc f) a b m =
    let rest = ds_strcmp f (a + 1) (b + 1) m in
    if not (m a == 0) && not (m b == 0)
    then if m a == m b then rest else some (char_difference (m a) (m b))
    else some (char_difference (m a) (m b))

unfoldable pub ds_strcpy : ℕ → ℕ → ℕ → Memory → Option (ℕ × Memory)
ds_strcpy f dst src m = elim (strcpy_loop f dst src m) [ none ↦ none | some m' ↦ some (dst, m') ]

unfoldable pub ds_strcat : ℕ → ℕ → ℕ → Memory → Option (ℕ × Memory)
ds_strcat f dst src m = elim (string_end f dst m) [
  | none ↦ none
  | some e ↦ elim (strcpy_loop f e src m) [ none ↦ none | some m' ↦ some (dst, m') ]
]
