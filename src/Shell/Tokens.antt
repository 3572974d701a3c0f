-- ===== src/Shell/Tokens.antt =====
-- The tokenizer of ui/shell.c. The input is the list of its characters, without the 0 that ends it; the
-- tokens that `next` links are a list. A result `none` stands for a write outside `buf`, which holds 1024
-- characters. Every allocation succeeds here; a run where `kmalloc` returns NULL is not modelled.
pub mod Words
use mira_os.Base.{
  ℕ, zero, suc, ◌+◌, ◌-◌, Bool, true, false, ◌&&◌, ◌||◌, List, [], ◌∷◌, ◌++◌, Option, none, some,
  leb, ltb, length, drop, take, ◌==◌, if◌then◌else◌,
}
use mira_os.Kernel.Words.{add32, sub32}
use mira_os.Shell.Numbers.{is_digit}

pub data TokenType : Type 0 where
  word string number operator pipe redirect_in redirect_out redirect_append : TokenType
  background semicolon and or lparen rparen eof error : TokenType

-- `token_t`
pub record Token : Type 0 where
  pub type : TokenType
  pub value : List ℕ
  pub line : ℕ
  pub column : ℕ

unfoldable pub is_letter : ℕ → Bool
is_letter c = (leb 97 c && leb c 122) || (leb 65 c && leb c 90)

-- The characters of a variable's name
unfoldable pub is_name : ℕ → Bool
unfolding is_letter is_digit
is_name c = is_letter c || (is_digit c || (c == 95))

-- The first character of a word, and the others: also `.`, `-` and `/`
unfoldable pub is_word_start : ℕ → Bool
unfolding is_letter
is_word_start c = is_letter c || ((c == 95) || (c == 46))

unfoldable pub is_word : ℕ → Bool
unfolding is_name
is_word c = is_name c || ((c == 46) || ((c == 45) || (c == 47)))

-- A loop that copies characters to `buf` while a test holds: what it copies and what is left
unfoldable pub span : (ℕ → Bool) → List ℕ → List ℕ × List ℕ
span test [] = ([], [])
span test (c ∷ s) =
    let (found, rest) = span test s in if test c then (c ∷ found, rest) else ([], c ∷ s)

-- `while (*p && *p != '}' && bi < 1023) buf[bi++] = *p++;`
unfoldable pub span_brace : ℕ → List ℕ → List ℕ × List ℕ
span_brace zero s = ([], s)
span_brace (suc room) [] = ([], [])
span_brace (suc room) (c ∷ s) =
    let (found, rest) = span_brace room s in if c == 125 then ([], c ∷ s) else (c ∷ found, rest)

-- The character that `\c` stands for
abbrev pub unescape : ℕ → ℕ
unescape c = if c == 110 then 10 else if c == 116 then 9 else c

-- The loop over a quoted string, up to the quote
unfoldable pub span_quoted : ℕ → ℕ → List ℕ → List ℕ × List ℕ
span_quoted quote zero s = ([], s)
span_quoted quote (suc room) [] = ([], [])
span_quoted quote (suc room) (c ∷ []) = if c == quote then ([], c ∷ []) else (c ∷ [], [])
span_quoted quote (suc room) (c ∷ d ∷ s) =
    let (found, rest) = span_quoted quote room (if c == 92 then s else d ∷ s) in
    if c == quote then ([], c ∷ d ∷ s) else ((if c == 92 then unescape d else c) ∷ found, rest)

-- `if (*p == c) p++`, and 1 if it was there
unfoldable pub skip_char : ℕ → List ℕ → ℕ × List ℕ
skip_char c [] = (0, [])
skip_char c (x ∷ s) = if x == c then (1, s) else (0, x ∷ s)

-- The first tests: the type of the token and its number of characters
unfoldable pub symbol : ℕ → ℕ → Option (TokenType × ℕ)
symbol c d =
    if (c == 124) && (d == 124)
    then some (or, 2)
    else if (c == 38) && (d == 38)
    then some (and, 2)
    else if (c == 62) && (d == 62)
    then some (redirect_append, 2)
    else if (c == 60) && (d == 60)
    then some (redirect_in, 2)
    else if c == 124
    then some (pipe, 1)
    else if c == 62
    then some (redirect_out, 1)
    else if c == 60
    then some (redirect_in, 1)
    else if c == 38
    then some (background, 1)
    else if c == 59
    then some (semicolon, 1)
    else if c == 40
    then some (lparen, 1)
    else if c == 41
    then some (rparen, 1)
    else none

-- The last tests: the operators, whose characters are counted
unfoldable pub operator_length : ℕ → ℕ → Option ℕ
operator_length c d =
    if c == 61
    then some 1
    else if (c == 43) || ((c == 45) || ((c == 42) || ((c == 47) || (c == 37))))
    then some 1
    else if (c == 33) && (d == 61)
    then some 2
    else none

abbrev pub unexpected : List ℕ
unexpected =
    85 ∷ 110 ∷ 101 ∷ 120 ∷ 112 ∷ 101 ∷ 99 ∷ 116 ∷ 101 ∷ 100 ∷ 32 ∷ 99 ∷ 104 ∷ 97 ∷ 114 ∷ 97 ∷ 99
    ∷ 116 ∷ 101 ∷ 114 ∷ 58 ∷ 32 ∷ []

abbrev pub Scanned : Type 0
Scanned = Option (Token × ℕ × List ℕ)

-- The token that `buf` holds, read up to `column` (`column - bi` is where it starts), with the input left;
-- `buf[bi] = 0` is out of bounds for 1024 characters.
unfoldable pub buffered : TokenType → List ℕ → ℕ → ℕ → List ℕ → Scanned
buffered type buf line column rest =
    if ltb (length buf) 1024
    then some (
      record { type = type; value = buf; line = line; column = sub32 column (length buf) },
      column,
      rest,
    )
    else none

-- A token of the first `n` characters of the input
unfoldable pub fixed : TokenType → ℕ → List ℕ → ℕ → ℕ → Scanned
fixed type n s line column = some (
  record { type = type; value = take n s; line = line; column = column },
  add32 column n,
  drop n s,
)

-- After `$`; `column` is past it.
unfoldable pub scan_variable : List ℕ → ℕ → ℕ → Scanned
unfolding span span_brace skip_char buffered is_name
scan_variable s line column =
    let (braces, t) = skip_char 123 s in
    let (inside, after) = span_brace 1023 t in
    let (closed, left) = skip_char 125 after in
    let (buf, rest) = span is_name s in
    if braces == 1
    then buffered word inside line (add32 column (1 + length inside + closed)) left
    else buffered word buf line (add32 column (length buf)) rest

-- After the opening quote; `column` is past it.
unfoldable pub scan_string : ℕ → List ℕ → ℕ → ℕ → Scanned
unfolding span_quoted skip_char buffered
scan_string quote s line column =
    let (buf, rest) = span_quoted quote 1023 s in
    let (closed, rest') = skip_char quote rest in
    buffered string buf line (add32 column (length buf + closed)) rest'

unfoldable pub scan_span : TokenType → (ℕ → Bool) → List ℕ → ℕ → ℕ → Scanned
unfolding span buffered
scan_span type test s line column =
    let (buf, rest) = span test s in buffered type buf line (add32 column (length buf)) rest

unfoldable pub scan_operator : ℕ → ℕ → List ℕ → ℕ → ℕ → Scanned
unfolding operator_length fixed
scan_operator c d s line column = elim (operator_length c d) [
  | some n ↦ fixed operator n s line column
  | none ↦ some (
    record { type = error; value = unexpected ++ (c ∷ []); line = line; column = column },
    add32 column 1,
    drop 1 s,
  )
]

abbrev pub head_or_zero : List ℕ → ℕ
head_or_zero [] = 0
head_or_zero (c ∷ s) = c

-- One token of an input that starts with a character `c` other than a blank
unfoldable pub scan_token : ℕ → List ℕ → ℕ → ℕ → Scanned
unfolding symbol fixed scan_string scan_variable scan_span scan_operator is_word_start is_word
    is_digit
scan_token c s line column = elim (symbol c (head_or_zero s)) [
  | some (type, n) ↦ fixed type n (c ∷ s) line column
  | none ↦
      if (c == 34) || (c == 39)
      then scan_string c s line (add32 column 1)
      else if c == 36
      then scan_variable s line (add32 column 1)
      else if is_word_start c
      then scan_span word is_word (c ∷ s) line column
      else if is_digit c
      then scan_span number is_digit (c ∷ s) line column
      else scan_operator c (head_or_zero s) (c ∷ s) line column
]

-- One round of the loop of `tokenize`: the token that it links, if any, then `line`, `column` and what is
-- left of the input
unfoldable pub scan_one : ℕ → List ℕ → ℕ → ℕ → Option (List Token × ℕ × ℕ × List ℕ)
unfolding scan_token
scan_one c s line column =
    if c == 10
    then some ([], add32 line 1, 1, s)
    else if (c == 32) || (c == 9)
    then some ([], line, add32 column 1, s)
    else elim (scan_token c s line column) [
      | none ↦ none
      | some (tok, column', rest) ↦ some (tok ∷ [], line, column', rest)
    ]

-- `head` with the tokens before it
unfoldable pub link : List Token → Option (List Token) → Option (List Token)
link found none = none
link found (some tokens) = some (found ++ tokens)

-- The loop of `tokenize`, on fuel
unfoldable pub tokenize_loop : ℕ → List ℕ → ℕ → ℕ → Option (List Token)
unfolding scan_one link
tokenize_loop f [] line column =
    some (record { type = eof; value = []; line = line; column = column } ∷ [])
tokenize_loop zero (c ∷ s) line column = none
tokenize_loop (suc f) (c ∷ s) line column = elim (scan_one c s line column) [
  | none ↦ none
  | some (found, line', column', rest) ↦ link found (tokenize_loop f rest line' column')
]

unfoldable pub tokenize : List ℕ → Option (List Token)
unfolding tokenize_loop
tokenize input = tokenize_loop (length input) input 1 1
