-- ===== src/Shell/Parser.antt =====
-- The parser of ui/shell.c. A pointer into the linked tokens is the list of the tokens from there on, [] for
-- NULL; the loops and the recursion run on fuel, and `none` is to run out of it. Every allocation succeeds.
pub mod Words
pub mod Fuel
pub mod Typing
use mira_os.Base.{
  ℕ, zero, suc, ◌+◌, Bool, true, false, List, [], ◌∷◌, ◌++◌, Option, none, some, length,
  if◌then◌else◌,
}
use mira_os.Shell.Tokens.{TokenType, Token}

-- The kinds of node that the parser makes, of `ast_node_type_t`
pub data NodeType : Type 0 where
  node_command node_pipeline node_sequence node_and node_or node_subshell : NodeType

-- `ast_node_t`: the type, the children, and of `data.cmd` the arguments and the flag `background`. The
-- redirections stay 0: the loop of `parse_command` ends at a redirection, before the branches that set
-- them.
mutual
  pub data Node : Type 0 where
    node : NodeType → Nodes → List (List ℕ) → Bool → Node

  pub data Nodes : Type 0 where
    nil : Nodes
    cons : Node → Nodes → Nodes

abbrev pub snoc : Nodes → Node → Nodes
snoc nil child = cons child nil
snoc (cons x children) child = cons x (snoc children child)

unfoldable pub ast_create_node : NodeType → Node
ast_create_node type = node type nil [] false

unfoldable pub ast_add_child : Node → Node → Node
ast_add_child (node type children args background) child =
    node type (snoc children child) args background

abbrev pub is_argument : TokenType → Bool
is_argument TokenType.word = true
is_argument TokenType.string = true
is_argument TokenType.number = true
is_argument _ = false

-- The loop of `parse_command`: it copies the arguments, and every other token ends it.
unfoldable pub parse_args : List Token → List (List ℕ) × List Token
parse_args [] = ([], [])
parse_args (t ∷ tokens) =
    let (args, rest) = parse_args tokens in
    if is_argument (t.type) then (t.value ∷ args, rest) else ([], t ∷ tokens)

abbrev pub is_eof : TokenType → Bool
is_eof TokenType.eof = true
is_eof _ = false

abbrev pub is_pipe : TokenType → Bool
is_pipe TokenType.pipe = true
is_pipe _ = false

abbrev pub is_lparen : TokenType → Bool
is_lparen TokenType.lparen = true
is_lparen _ = false

abbrev pub is_rparen : TokenType → Bool
is_rparen TokenType.rparen = true
is_rparen _ = false

abbrev pub is_background : TokenType → Bool
is_background TokenType.background = true
is_background _ = false

-- A node, or NULL, and the value of `*tokens` afterwards
abbrev pub Parsed : Type 0
Parsed = Option Node × List Token

unfoldable pub parse_command : List Token → Parsed
unfolding parse_args
parse_command [] = (none, [])
parse_command (t ∷ tokens) =
    let (args, rest) = parse_args (t ∷ tokens) in
    if is_eof (t.type) then (none, t ∷ tokens) else (some (node node_command nil args false), rest)

-- The loop of `parse_pipeline`
unfoldable pub pipeline_loop : ℕ → Node → List Token → Option Parsed
unfolding parse_command ast_add_child
pipeline_loop f pipeline [] = some (some pipeline, [])
pipeline_loop zero pipeline (t ∷ tokens) =
    if is_pipe (t.type) then none else some (some pipeline, t ∷ tokens)
pipeline_loop (suc f) pipeline (t ∷ tokens) =
    let (cmd, rest) = parse_command tokens in
    elim (is_pipe (t.type)) [
      | false ↦ some (some pipeline, t ∷ tokens)
      | true ↦ elim cmd [
        | none ↦ some (some pipeline, rest)
        | some child ↦ pipeline_loop f (ast_add_child pipeline child) rest
      ]
    ]

unfoldable pub parse_pipeline : ℕ → List Token → Option Parsed
unfolding pipeline_loop ast_create_node
parse_pipeline f tokens =
    let (cmd, rest) = parse_command tokens in
    elim cmd [
      | none ↦ some (none, rest)
      | some child ↦ pipeline_loop f (ast_add_child (ast_create_node node_pipeline) child) rest
    ]

-- `if (*tokens && (*tokens)->type == TOKEN_RPAREN) *tokens = (*tokens)->next;`
abbrev pub skip_rparen : List Token → List Token
skip_rparen [] = []
skip_rparen (t ∷ tokens) = if is_rparen (t.type) then tokens else t ∷ tokens

-- The subshell around what the parenthesis holds
unfoldable pub parse_subshell : Option Parsed → Option Parsed
unfolding ast_create_node ast_add_child
parse_subshell none = none
parse_subshell (some (none, rest)) = some (some (ast_create_node node_subshell), skip_rparen rest)
parse_subshell (some (some inner, rest)) =
    some (some (ast_add_child (ast_create_node node_subshell) inner), skip_rparen rest)

unfoldable pub parse_expression : ℕ → List Token → Option Parsed
unfolding parse_subshell parse_pipeline
parse_expression f [] = some (none, [])
parse_expression zero (t ∷ tokens) =
    if is_lparen (t.type) then none else parse_pipeline zero (t ∷ tokens)
parse_expression (suc f) (t ∷ tokens) =
    if is_lparen (t.type)
    then parse_subshell (parse_expression f tokens)
    else parse_pipeline (suc f) (t ∷ tokens)

-- The operators between expressions: what `seq` becomes with the next expression
unfoldable pub join : TokenType → Node → Node → Option Node
unfolding ast_create_node ast_add_child
join TokenType.semicolon seq next = some (ast_add_child seq next)
join TokenType.and seq next =
    some (ast_add_child (ast_add_child (ast_create_node node_and) seq) next)
join TokenType.or seq next = some (ast_add_child (ast_add_child (ast_create_node node_or) seq) next)
join _ seq next = none

abbrev pub is_join : TokenType → Bool
is_join TokenType.semicolon = true
is_join TokenType.and = true
is_join TokenType.or = true
is_join _ = false

-- NULL ends the loop.
unfoldable pub join_found : TokenType → Node → Option Node → Option Node
unfolding join
join_found type seq none = none
join_found type seq (some next) = join type seq next

-- The loop of `parse_sequence`
unfoldable pub sequence_loop : ℕ → Node → List Token → Option (Node × List Token)
unfolding parse_expression join_found
sequence_loop f seq [] = some (seq, [])
sequence_loop zero seq (t ∷ tokens) = if is_join (t.type) then none else some (seq, t ∷ tokens)
sequence_loop (suc f) seq (t ∷ tokens) = elim (is_join (t.type)) [
  | false ↦ some (seq, t ∷ tokens)
  | true ↦ elim (parse_expression f tokens) [
    | none ↦ none
    | some (found, rest) ↦ elim (join_found (t.type) seq found) [
      | none ↦ some (seq, rest)
      | some seq' ↦ sequence_loop f seq' rest
    ]
  ]
]

-- `if (*tokens && (*tokens)->type == TOKEN_BACKGROUND) …`
unfoldable pub set_background : Node × List Token → Parsed
set_background (seq, []) = (some seq, [])
set_background (node type children args background, t ∷ tokens) =
    if is_background (t.type)
    then (some (node type children args true), tokens)
    else (some (node type children args background), t ∷ tokens)

unfoldable pub sequence_from : ℕ → Option Parsed → Option Parsed
unfolding sequence_loop set_background
sequence_from f none = none
sequence_from f (some (none, rest)) = some (none, rest)
sequence_from f (some (some expr, rest)) =
    elim (sequence_loop f (ast_add_child (ast_create_node node_sequence) expr) rest) [
      | none ↦ none
      | some found ↦ some (set_background found)
    ]

unfoldable pub parse_sequence : ℕ → List Token → Option Parsed
unfolding sequence_from
parse_sequence f tokens = sequence_from f (parse_expression f tokens)

-- As much fuel as there are tokens
unfoldable pub parse_tokens : List Token → Option Parsed
unfolding parse_sequence
parse_tokens tokens = parse_sequence (length tokens) tokens
