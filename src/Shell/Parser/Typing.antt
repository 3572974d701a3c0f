-- ===== src/Shell/Parser/Typing.antt =====
-- The trees that the parser of ui/shell.c makes: a command has no children, and every other node has trees.
use mira_os.Base.{
  ℕ, zero, suc, ◌≡◌, refl, Bool, true, false, List, [], ◌∷◌, inl, inr, Option, none, some, length,
  Bool-cases,
}
use mathlib.Core.Path.{subst}
use mira_os.Shell.Tokens.{TokenType, Token}
use mira_os.Shell.Parser.{
  NodeType, Node, Nodes, node, nil, cons, snoc, ast_create_node, ast_add_child, parse_args,
  parse_command, pipeline_loop, parse_pipeline, parse_subshell, parse_expression, join, join_found,
  sequence_loop, sequence_from, parse_sequence, parse_tokens, set_background, Parsed, is_pipe,
  is_lparen, is_eof, is_join, is_background,
}

abbrev pub is_command : NodeType → Bool
is_command NodeType.node_command = true
is_command _ = false

mutual
  pub data IsTree : Node → Type 0 where
    leaf :
        (args : List (List ℕ)) (background : Bool)
        → IsTree (node NodeType.node_command nil args background)
    branch : {n : Node} → IsParent n → IsTree n

  pub data IsParent : Node → Type 0 where
    parent :
        {type : NodeType} {children : Nodes} {args : List (List ℕ)} {background : Bool}
        → is_command type ≡ false
        → AreTrees children
        → IsParent (node type children args background)

  pub data AreTrees : Nodes → Type 0 where
    empty : AreTrees nil
    more : {n : Node} {children : Nodes} → IsTree n → AreTrees children → AreTrees (cons n children)

snoc-AreTrees :
    (children : Nodes) (n : Node) → AreTrees children → IsTree n → AreTrees (snoc children n)
snoc-AreTrees nil n h k = more k empty
snoc-AreTrees (cons x children) n (more t h) k = more t (snoc-AreTrees children n h k)

add_child-IsParent : (n child : Node) → IsParent n → IsTree child → IsParent (ast_add_child n child)
unfolding ast_add_child
add_child-IsParent (node type children args background) child (parent e h) k =
    parent e (snoc-AreTrees children child h k)

create-IsParent : (type : NodeType) → is_command type ≡ false → IsParent (ast_create_node type)
unfolding ast_create_node
create-IsParent type e = parent e empty

-- What the parser's functions return holds trees.
abbrev GivesTree : Option Node → Type 0
GivesTree none = Unit
GivesTree (some n) = IsTree n

abbrev GivesParent : Option Node → Type 0
GivesParent none = Unit
GivesParent (some n) = IsParent n

abbrev ParsesParent : Option Parsed → Type 0
ParsesParent none = Unit
ParsesParent (some (n, rest)) = GivesParent n

parse_command-GivesTree : (tokens : List Token) → GivesTree ((parse_command tokens).0)
unfolding parse_command
parse_command-GivesTree [] = tt
parse_command-GivesTree (t ∷ tokens) = elim (Bool-cases (is_eof (t.type))) [
  | inl e ↦ rw e tt
  | inr e ↦ rw e (leaf (parse_args (t ∷ tokens)).0 false)
]

pipeline_step :
    (f : ℕ) (pipeline : Node) (cmd : Option Node) (rest : List Token)
    → IsParent pipeline
    → GivesTree cmd
    → ((n : Node) → IsParent n → ParsesParent (pipeline_loop f n rest))
    → ParsesParent (elim cmd [
      | none ↦ some (some pipeline, rest)
      | some child ↦ pipeline_loop f (ast_add_child pipeline child) rest
    ])
pipeline_step f pipeline none rest h k go = h
pipeline_step f pipeline (some child) rest h k go =
    go (ast_add_child pipeline child) (add_child-IsParent pipeline child h k)

pipeline_loop-ParsesParent :
    (f : ℕ) (pipeline : Node) (tokens : List Token)
    → IsParent pipeline
    → ParsesParent (pipeline_loop f pipeline tokens)
unfolding pipeline_loop
pipeline_loop-ParsesParent zero pipeline [] h = h
pipeline_loop-ParsesParent (suc f) pipeline [] h = h
pipeline_loop-ParsesParent zero pipeline (t ∷ tokens) h = elim (Bool-cases (is_pipe (t.type))) [
  | inl e ↦ rw e tt
  | inr e ↦ rw e h
]
pipeline_loop-ParsesParent (suc f) pipeline (t ∷ tokens) h = elim (Bool-cases (is_pipe (t.type))) [
  | inl e ↦
      rw (e, pipeline_loop)
        (pipeline_step f pipeline (parse_command tokens).0 (parse_command tokens).1 h
          (parse_command-GivesTree tokens)
          (λ n k. pipeline_loop-ParsesParent f n (parse_command tokens).1 k))
  | inr e ↦ rw (e, pipeline_loop) h
]

parse_pipeline-ParsesParent : (f : ℕ) (tokens : List Token) → ParsesParent (parse_pipeline f tokens)
unfolding parse_pipeline
parse_pipeline-ParsesParent f tokens =
    first (parse_command tokens).0 (parse_command tokens).1 (parse_command-GivesTree tokens)
  where
    first :
        (cmd : Option Node) (rest : List Token)
        → GivesTree cmd
        → ParsesParent (elim cmd [
          | none ↦ some (none, rest)
          | some child ↦
              pipeline_loop f (ast_add_child (ast_create_node NodeType.node_pipeline) child) rest
        ])
    first none rest k = tt
    first (some child) rest k =
        pipeline_loop-ParsesParent f (ast_add_child (ast_create_node NodeType.node_pipeline) child)
          rest
          (add_child-IsParent (ast_create_node NodeType.node_pipeline) child
            (create-IsParent NodeType.node_pipeline refl) k)

subshell-ParsesParent : (p : Option Parsed) → ParsesParent p → ParsesParent (parse_subshell p)
unfolding parse_subshell
subshell-ParsesParent none h = tt
subshell-ParsesParent (some (none, rest)) h = create-IsParent NodeType.node_subshell refl
subshell-ParsesParent (some (some inner, rest)) h =
    add_child-IsParent (ast_create_node NodeType.node_subshell) inner
      (create-IsParent NodeType.node_subshell refl) (branch h)

parse_expression-ParsesParent :
    (f : ℕ) (tokens : List Token) → ParsesParent (parse_expression f tokens)
unfolding parse_expression
parse_expression-ParsesParent zero [] = tt
parse_expression-ParsesParent (suc f) [] = tt
parse_expression-ParsesParent zero (t ∷ tokens) = elim (Bool-cases (is_lparen (t.type))) [
  | inl e ↦ rw (e, parse_expression) tt
  | inr e ↦ rw (e, parse_expression) (parse_pipeline-ParsesParent zero (t ∷ tokens))
]
parse_expression-ParsesParent (suc f) (t ∷ tokens) = elim (Bool-cases (is_lparen (t.type))) [
  | inl e ↦
      rw (e, parse_expression)
        (subshell-ParsesParent (parse_expression f tokens) (parse_expression-ParsesParent f tokens))
  | inr e ↦ rw (e, parse_expression) (parse_pipeline-ParsesParent (suc f) (t ∷ tokens))
]

pair-IsParent :
    (type : NodeType) (left right : Node)
    → is_command type ≡ false
    → IsTree left
    → IsTree right
    → IsParent (ast_add_child (ast_add_child (ast_create_node type) left) right)
pair-IsParent type left right e h k =
    add_child-IsParent (ast_add_child (ast_create_node type) left) right
      (add_child-IsParent (ast_create_node type) left (create-IsParent type e) h) k

join-GivesParent :
    (type : TokenType) (seq : Node) (next : Option Node)
    → IsParent seq
    → GivesParent next
    → GivesParent (join_found type seq next)
unfolding join_found join
join-GivesParent type seq none h k = tt
join-GivesParent TokenType.semicolon seq (some next) h k = add_child-IsParent seq next h (branch k)
join-GivesParent TokenType.and seq (some next) h k =
    pair-IsParent NodeType.node_and seq next refl (branch h) (branch k)
join-GivesParent TokenType.or seq (some next) h k =
    pair-IsParent NodeType.node_or seq next refl (branch h) (branch k)
join-GivesParent _ seq (some next) h k = tt

abbrev LoopsParent : Option (Node × List Token) → Type 0
LoopsParent none = Unit
LoopsParent (some (n, rest)) = IsParent n

sequence_step :
    (f : ℕ) (seq : Node) (joined : Option Node) (rest : List Token)
    → IsParent seq
    → GivesParent joined
    → ((n : Node) → IsParent n → LoopsParent (sequence_loop f n rest))
    → LoopsParent (elim joined [ none ↦ some (seq, rest) | some seq' ↦ sequence_loop f seq' rest ])
sequence_step f seq none rest h k go = h
sequence_step f seq (some seq') rest h k go = go seq' k

sequence_next :
    (f : ℕ) (type : TokenType) (seq : Node) (p : Option Parsed)
    → IsParent seq
    → ParsesParent p
    → ((n : Node) (rest : List Token) → IsParent n → LoopsParent (sequence_loop f n rest))
    → LoopsParent (elim p [
      | none ↦ none
      | some (found, rest) ↦ elim (join_found type seq found) [
        | none ↦ some (seq, rest)
        | some seq' ↦ sequence_loop f seq' rest
      ]
    ])
sequence_next f type seq none h k go = tt
sequence_next f type seq (some (found, rest)) h k go =
    sequence_step f seq (join_found type seq found) rest h (join-GivesParent type seq found h k)
      (λ n. go n rest)

sequence_loop-LoopsParent :
    (f : ℕ) (seq : Node) (tokens : List Token)
    → IsParent seq
    → LoopsParent (sequence_loop f seq tokens)
unfolding sequence_loop
sequence_loop-LoopsParent zero seq [] h = h
sequence_loop-LoopsParent (suc f) seq [] h = h
sequence_loop-LoopsParent zero seq (t ∷ tokens) h = elim (Bool-cases (is_join (t.type))) [
  | inl e ↦ rw (e, sequence_loop) tt
  | inr e ↦ rw (e, sequence_loop) h
]
sequence_loop-LoopsParent (suc f) seq (t ∷ tokens) h = elim (Bool-cases (is_join (t.type))) [
  | inl e ↦
      rw (e, sequence_loop)
        (sequence_next f (t.type) seq (parse_expression f tokens) h
          (parse_expression-ParsesParent f tokens)
          (λ n rest k. sequence_loop-LoopsParent f n rest k))
  | inr e ↦ rw (e, sequence_loop) h
]

background-GivesParent :
    (n : Node) (tokens : List Token) → IsParent n → GivesParent (set_background (n, tokens)).0
unfolding set_background
background-GivesParent n [] h = h
background-GivesParent (node type children args background) (t ∷ tokens) (parent e h) =
    elim (Bool-cases (is_background (t.type))) [
      | inl b ↦ rw b (parent e h)
      | inr b ↦ rw b (parent e h)
    ]

looped-ParsesParent :
    (p : Option (Node × List Token))
    → LoopsParent p
    → ParsesParent (elim p [ none ↦ none | some found ↦ some (set_background found) ])
looped-ParsesParent none h = tt
looped-ParsesParent (some (n, tokens)) h = background-GivesParent n tokens h

sequence_from-ParsesParent :
    (f : ℕ) (p : Option Parsed) → ParsesParent p → ParsesParent (sequence_from f p)
unfolding sequence_from
sequence_from-ParsesParent f none h = tt
sequence_from-ParsesParent f (some (none, rest)) h = tt
sequence_from-ParsesParent f (some (some expr, rest)) h =
    let seq = ast_add_child (ast_create_node NodeType.node_sequence) expr in
    looped-ParsesParent (sequence_loop f seq rest) (
      sequence_loop-LoopsParent f seq rest (
        add_child-IsParent (ast_create_node NodeType.node_sequence) expr
          (create-IsParent NodeType.node_sequence refl) (branch h)))

-- The tree that the parser returns, for any tokens, is well formed: its root is not a command, each node that is
-- not a command has well-formed children, and a command has none.
pub parse_tokens-IsParent :
    (tokens rest : List Token) (tree : Node)
    → parse_tokens tokens ≡ some (some tree, rest)
    → IsParent tree
unfolding parse_tokens parse_sequence
parse_tokens-IsParent tokens rest tree h =
    subst (λ (p : Option Parsed). ParsesParent p) h
      (sequence_from-ParsesParent (length tokens) (parse_expression (length tokens) tokens)
        (parse_expression-ParsesParent (length tokens) tokens))
