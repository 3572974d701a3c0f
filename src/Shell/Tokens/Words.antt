-- ===== src/Shell/Tokens/Words.antt =====
-- `tokenize` of ui/shell.c on a line of words with a blank after each: the line is read as the words.
use mira_os.Base.{
  ℕ, zero, suc, ◌<◌, ◌≤◌, ◌≡◌, ◌≢◌, refl, ◌∙◌, true, ◌||◌, List, [], ◌∷◌, ◌++◌, none, some, length,
  ◌==◌, if◌then◌else◌, arith, length-append,
}
use mira_os.Kernel.Words.{add32, sub32}
use mira_os.Shell.Numbers.{is_digit}
use mira_os.Shell.Tokens.{
  TokenType, Token, is_letter, is_name, is_word_start, is_word, span, symbol, buffered, scan_span,
  scan_token, scan_one, link, tokenize_loop, tokenize, head_or_zero,
}

abbrev pub AllWord : List ℕ → Type 0
AllWord [] = Unit
AllWord (c ∷ s) = (is_word c ≡ true) × AllWord s

-- A word that the tokenizer reads as one token
abbrev pub IsWord : List ℕ → Type 0
IsWord [] = suc zero ≤ zero
IsWord (c ∷ s) = (is_word_start c ≡ true) × AllWord s × (length s < 1023)

abbrev pub AreWords : List (List ℕ) → Type 0
AreWords [] = Unit
AreWords (w ∷ ws) = IsWord w × AreWords ws

-- The words with a blank after each
abbrev pub unwords : List (List ℕ) → List ℕ
unwords [] = []
unwords (w ∷ ws) = w ++ (32 ∷ unwords ws)

span-word : (s rest : List ℕ) → AllWord s → span is_word (s ++ (32 ∷ rest)) ≡ (s, 32 ∷ rest)
unfolding span is_word is_name is_letter is_digit
span-word [] rest h = refl
span-word (c ∷ s) rest h = rw (h.0, span-word s rest h.1) refl

symbol-word : (c d : ℕ) → is_word_start c ≡ true → symbol c d ≡ none
unfolding symbol is_word_start is_letter
symbol-word c d h = ground arith

is_word_of_start : (c : ℕ) → is_word_start c ≡ true → is_word c ≡ true
unfolding is_word_start is_word is_name is_letter is_digit
is_word_of_start c h = ground arith

other_char :
    (c : ℕ)
    → is_word_start c ≡ true
    → (c ≢ 10) × (c ≢ 32) × (c ≢ 9) × (c ≢ 34) × (c ≢ 39) × (c ≢ 36)
unfolding is_word_start is_letter
other_char c h = ground arith

choose_word :
    {A : Type 0} (c : ℕ) (p q r t u : A)
    → is_word_start c ≡ true
    → (if (c == 34) || (c == 39)
        then p
        else if c == 36
        then q
        else if is_word_start c
        then r
        else if is_digit c
        then t
        else u)
      ≡ r
choose_word c p q r t u h = let k = other_char c h in ground (arith, h)

scan_token-word :
    (c : ℕ) (s : List ℕ) (line column : ℕ)
    → is_word_start c ≡ true
    → scan_token c s line column ≡ scan_span TokenType.word is_word (c ∷ s) line column
unfolding scan_token
scan_token-word c s line column h =
    rw (symbol-word c (head_or_zero s) h, scan_token) (choose_word c _ _ _ _ _ h)

skip_tests :
    {A : Type 0} (c : ℕ) (p q r : A)
    → (c ≢ 10) × (c ≢ 32) × (c ≢ 9)
    → (if c == 10 then p else if (c == 32) || (c == 9) then q else r) ≡ r
skip_tests c p q r h = ground arith

-- The token of a word, whose column is right also where the count of the columns wraps round.
abbrev word_token : List ℕ → ℕ → ℕ → Token
word_token w line column = record {
  type = TokenType.word;
  value = w;
  line = line;
  column = sub32 (add32 column (length w)) (length w);
}

scan_span-word :
    (w rest : List ℕ) (line column : ℕ)
    → AllWord w
    → length w < 1024
    → scan_span TokenType.word is_word (w ++ (32 ∷ rest)) line column
      ≡ some (word_token w line column, add32 column (length w), 32 ∷ rest)
unfolding scan_span buffered
scan_span-word w rest line column h k = rw (span-word w rest h) (ground arith)

-- A round that starts at a word reads it.
scan_one-word :
    (c : ℕ) (s rest : List ℕ) (line column : ℕ)
    → IsWord (c ∷ s)
    → scan_one c (s ++ (32 ∷ rest)) line column
      ≡ some (word_token (c ∷ s) line column ∷ [], line, add32 column (suc (length s)), 32 ∷ rest)
unfolding scan_one
scan_one-word c s rest line column (h, k, l) =
    let other = other_char c h in
    let same =
      scan_token-word c (s ++ (32 ∷ rest)) line column h
      ∙ scan_span-word (c ∷ s) rest line column (is_word_of_start c h, k) (omega arith) in
    skip_tests c _ _ _ (other.0, other.1, other.2) ∙ rw same refl

-- The tokens of a line of words, read from a column on
unfoldable pub word_tokens : List (List ℕ) → ℕ → ℕ → List Token
word_tokens [] line column =
    record { type = TokenType.eof; value = []; line = line; column = column } ∷ []
word_tokens (w ∷ ws) line column =
    word_token w line column ∷ word_tokens ws line (add32 (add32 column (length w)) 1)

tokenize_loop-words :
    (f : ℕ) (ws : List (List ℕ)) (line column : ℕ)
    → AreWords ws
    → length (unwords ws) ≤ f
    → tokenize_loop f (unwords ws) line column ≡ some (word_tokens ws line column)
unfolding tokenize_loop word_tokens scan_one link
tokenize_loop-words f [] line column h k = refl
tokenize_loop-words f ([] ∷ ws) line column h k = absurd (omega arith)
tokenize_loop-words zero ((c ∷ s) ∷ ws) line column h k = absurd (omega arith)
tokenize_loop-words (suc zero) ((c ∷ s) ∷ ws) line column h k =
    absurd (omega (arith, length-append s (32 ∷ unwords ws)))
tokenize_loop-words (suc (suc f)) ((c ∷ s) ∷ ws) line column h k =
    let one = scan_one-word c s (unwords ws) line column h.0 in
    let room = length-append s (32 ∷ unwords ws) in
    let rest =
      tokenize_loop-words f ws line (add32 (add32 column (suc (length s))) 1) h.1 (omega arith) in
    rw (one, tokenize_loop) (rw rest refl)

-- `tokenize` reads a line of words, a blank after each, as the words in their order and the end.
pub tokenize-unwords :
    (ws : List (List ℕ)) → AreWords ws → tokenize (unwords ws) ≡ some (word_tokens ws 1 1)
unfolding tokenize
tokenize-unwords ws h = tokenize_loop-words (length (unwords ws)) ws 1 1 h (omega arith)
