-- ===== src/Shell/Parser/Words.antt =====
-- The parser of ui/shell.c on a line of words: the tree is one command with the words as its arguments.
-- Enough fuel for any list of tokens.
use mira_os.Base.{ℕ, suc, ◌≡◌, refl, false, List, [], ◌∷◌, some, length}
use mira_os.Shell.Tokens.{TokenType, Token, tokenize}
use mira_os.Shell.Tokens.Words.{word_tokens, unwords, AreWords, tokenize-unwords}
use mira_os.Shell.Parser.{
  NodeType, Node, node, nil, cons, ast_create_node, ast_add_child, parse_args, parse_command,
  pipeline_loop, parse_pipeline, parse_expression, sequence_loop, sequence_from, parse_sequence,
  parse_tokens, set_background,
}
use mira_os.Kernel.Words.{add32}

abbrev end_tokens : List (List ℕ) → ℕ → ℕ → List Token
end_tokens [] line column = word_tokens [] line column
end_tokens (w ∷ ws) line column = end_tokens ws line (add32 (add32 column (length w)) 1)

parse_args-words :
    (ws : List (List ℕ)) (line column : ℕ)
    → parse_args (word_tokens ws line column) ≡ (ws, end_tokens ws line column)
unfolding parse_args word_tokens
parse_args-words [] line column = refl
parse_args-words (w ∷ ws) line column =
    rw (parse_args-words ws line (add32 (add32 column (length w)) 1)) refl

end_tokens_eof :
    (ws : List (List ℕ)) (line column : ℕ)
    → (at : ℕ) × (end_tokens ws line column
        ≡ record { type = TokenType.eof; value = []; line = line; column = at } ∷ [])
unfolding word_tokens
end_tokens_eof [] line column = (column, refl)
end_tokens_eof (w ∷ ws) line column = end_tokens_eof ws line (add32 (add32 column (length w)) 1)

-- The tree of one command
abbrev pub command : List (List ℕ) → Node
command args = node NodeType.node_command nil args false

abbrev pub line_of : List (List ℕ) → Node
line_of args =
    node NodeType.node_sequence
      (cons (node NodeType.node_pipeline (cons (command args) nil) [] false) nil) [] false

parse_command-words :
    (w : List ℕ) (ws : List (List ℕ)) (line column : ℕ)
    → parse_command (word_tokens (w ∷ ws) line column)
      ≡ (some (command (w ∷ ws)), end_tokens (w ∷ ws) line column)
unfolding parse_command word_tokens parse_args
parse_command-words w ws line column =
    rw (parse_args-words ws line (add32 (add32 column (length w)) 1)) refl

parse_pipeline-words :
    (f : ℕ) (w : List ℕ) (ws : List (List ℕ)) (line column at : ℕ)
    → end_tokens (w ∷ ws) line column
      ≡ record { type = TokenType.eof; value = []; line = line; column = at } ∷ []
    → parse_pipeline (suc f) (word_tokens (w ∷ ws) line column)
      ≡ some (
        some (node NodeType.node_pipeline (cons (command (w ∷ ws)) nil) [] false),
        record { type = TokenType.eof; value = []; line = line; column = at } ∷ [],
      )
unfolding parse_pipeline pipeline_loop ast_create_node ast_add_child
parse_pipeline-words f w ws line column at e =
    let cmd = parse_command-words w ws line column in rw (cmd, parse_pipeline) (rw cmd (rw e refl))

parse_sequence-words :
    (f : ℕ) (w : List ℕ) (ws : List (List ℕ)) (line column at : ℕ)
    → end_tokens (w ∷ ws) line column
      ≡ record { type = TokenType.eof; value = []; line = line; column = at } ∷ []
    → parse_sequence (suc f) (word_tokens (w ∷ ws) line column)
      ≡ some (
        some (line_of (w ∷ ws)),
        record { type = TokenType.eof; value = []; line = line; column = at } ∷ [],
      )
unfolding parse_sequence sequence_from sequence_loop set_background ast_create_node ast_add_child
    parse_expression word_tokens
parse_sequence-words f w ws line column at e =
    rw (parse_pipeline-words f w ws line column at e, parse_expression) refl

-- A line of words is read and parsed as one command whose arguments are the words, with nothing left but the
-- end.
pub parse_tokens-tokenize :
    (w : List ℕ) (ws : List (List ℕ))
    → AreWords (w ∷ ws)
    → (tokens : List Token) × (last : Token) × (tokenize (unwords (w ∷ ws)) ≡ some tokens)
      × (parse_tokens tokens ≡ some (some (line_of (w ∷ ws)), last ∷ []))
      × (last.type ≡ TokenType.eof)
unfolding word_tokens parse_tokens
parse_tokens-tokenize w ws h =
    let (at, e) = end_tokens_eof (w ∷ ws) 1 1 in
    (
      word_tokens (w ∷ ws) 1 1,
      record { type = TokenType.eof; value = []; line = 1; column = at },
      tokenize-unwords (w ∷ ws) h,
      parse_sequence-words _ w ws 1 1 at e,
      refl,
    )
