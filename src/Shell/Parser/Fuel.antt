-- ===== src/Shell/Parser/Fuel.antt =====
-- The parser of ui/shell.c ends: as much fuel as there are tokens is enough.
use mira_os.Base.{
  ℕ, zero, suc, ◌≤◌, ◌≡◌, refl, List, [], ◌∷◌, inl, inr, Option, none, some, length, arith,
  Bool-cases, Option-cases,
}
use mira_os.Shell.Tokens.{Token}
use mira_os.Shell.Parser.{
  NodeType, Node, ast_create_node, ast_add_child, parse_args, parse_command, pipeline_loop,
  parse_pipeline, parse_subshell, parse_expression, join_found, sequence_loop, sequence_from,
  parse_sequence, parse_tokens, set_background, Parsed, is_argument, skip_rparen, is_pipe,
  is_lparen, is_rparen, is_eof, is_join,
}

parse_args-le : (tokens : List Token) → length ((parse_args tokens).1) ≤ length tokens
unfolding parse_args
parse_args-le [] = omega arith
parse_args-le (t ∷ tokens) = elim (Bool-cases (is_argument (t.type))) [
  | inl e ↦ rw e (omega (arith, parse_args-le tokens))
  | inr e ↦ rw e (omega arith)
]

parse_command-le : (tokens : List Token) → length ((parse_command tokens).1) ≤ length tokens
unfolding parse_command
parse_command-le [] = omega arith
parse_command-le (t ∷ tokens) = elim (Bool-cases (is_eof (t.type))) [
  | inl e ↦ rw e (omega arith)
  | inr e ↦ rw e (parse_args-le (t ∷ tokens))
]

-- The parse ends and leaves no more tokens than there were.
abbrev Ends : Option Parsed → List Token → Type 0
Ends result tokens = (p : Parsed) × (result ≡ some p) × (length (p.1) ≤ length tokens)

pipeline_loop-Ends :
    (f : ℕ) (n : Node) (tokens : List Token)
    → length tokens ≤ f
    → Ends (pipeline_loop f n tokens) tokens
unfolding pipeline_loop
pipeline_loop-Ends zero n [] h = ((some n, []), refl, omega arith)
pipeline_loop-Ends (suc f) n [] h = ((some n, []), refl, omega arith)
pipeline_loop-Ends zero n (t ∷ tokens) h = absurd (omega arith)
pipeline_loop-Ends (suc f) n (t ∷ tokens) h = elim (Bool-cases (is_pipe (t.type))) [
  | inr e ↦ ((some n, t ∷ tokens), rw (e, pipeline_loop) refl, omega arith)
  | inl e ↦ elim (Option-cases ((parse_command tokens).0)) [
    | inl c ↦ (
      (some n, (parse_command tokens).1),
      rw (e, pipeline_loop) (rw c refl),
      omega (arith, parse_command-le tokens),
    )
    | inr (child, c) ↦
        let (p, runs, le) =
          pipeline_loop-Ends f (ast_add_child n child) ((parse_command tokens).1)
            (omega (arith, parse_command-le tokens)) in
        (p, rw (e, pipeline_loop) (rw c runs), omega (arith, parse_command-le tokens))
  ]
]

parse_pipeline-Ends :
    (f : ℕ) (tokens : List Token) → length tokens ≤ f → Ends (parse_pipeline f tokens) tokens
unfolding parse_pipeline
parse_pipeline-Ends f tokens h = elim (Option-cases ((parse_command tokens).0)) [
  | inl c ↦ ((none, (parse_command tokens).1), rw (c, parse_pipeline) refl, parse_command-le tokens)
  | inr (child, c) ↦
      let (p, runs, le) =
        pipeline_loop-Ends f (ast_add_child (ast_create_node NodeType.node_pipeline) child)
          ((parse_command tokens).1) (omega (arith, parse_command-le tokens)) in
      (p, rw (c, parse_pipeline) runs, omega (arith, parse_command-le tokens))
]

skip_rparen-le : (tokens : List Token) → length (skip_rparen tokens) ≤ length tokens
skip_rparen-le [] = omega arith
skip_rparen-le (t ∷ tokens) = elim (Bool-cases (is_rparen (t.type))) [
  | inl e ↦ rw e (omega arith)
  | inr e ↦ rw e (omega arith)
]

parse_subshell-Ends :
    (r : Option Parsed) (tokens : List Token) → Ends r tokens → Ends (parse_subshell r) tokens
unfolding parse_subshell
parse_subshell-Ends r tokens ((none, rest), e, le) = (
  (some (ast_create_node NodeType.node_subshell), skip_rparen rest),
  rw e refl,
  omega (arith, skip_rparen-le rest),
)
parse_subshell-Ends r tokens ((some inner, rest), e, le) = (
  (some (ast_add_child (ast_create_node NodeType.node_subshell) inner), skip_rparen rest),
  rw e refl,
  omega (arith, skip_rparen-le rest),
)

parse_expression-Ends :
    (f : ℕ) (tokens : List Token) → length tokens ≤ f → Ends (parse_expression f tokens) tokens
unfolding parse_expression
parse_expression-Ends zero [] h = ((none, []), refl, omega arith)
parse_expression-Ends (suc f) [] h = ((none, []), refl, omega arith)
parse_expression-Ends zero (t ∷ tokens) h = absurd (omega arith)
parse_expression-Ends (suc f) (t ∷ tokens) h = elim (Bool-cases (is_lparen (t.type))) [
  | inl e ↦
      let (p, runs, le) =
        parse_subshell-Ends (parse_expression f tokens) tokens
          (parse_expression-Ends f tokens (omega arith)) in
      (p, rw (e, parse_expression) runs, omega arith)
  | inr e ↦
      let (p, runs, le) = parse_pipeline-Ends (suc f) (t ∷ tokens) h in
      (p, rw (e, parse_expression) runs, le)
]

sequence_loop-some :
    (f : ℕ) (seq : Node) (tokens : List Token)
    → length tokens ≤ f
    → (p : Node × List Token) × (sequence_loop f seq tokens ≡ some p)
unfolding sequence_loop
sequence_loop-some zero seq [] h = ((seq, []), refl)
sequence_loop-some (suc f) seq [] h = ((seq, []), refl)
sequence_loop-some zero seq (t ∷ tokens) h = absurd (omega arith)
sequence_loop-some (suc f) seq (t ∷ tokens) h = elim (Bool-cases (is_join (t.type))) [
  | inr e ↦ ((seq, t ∷ tokens), rw (e, sequence_loop) refl)
  | inl e ↦
      let ((found, rest), runs, le) = parse_expression-Ends f tokens (omega arith) in
      elim (Option-cases (join_found (t.type) seq found)) [
        | inl j ↦ ((seq, rest), rw (e, sequence_loop) (rw runs (rw j refl)))
        | inr (next, j) ↦
            let (p, more) = sequence_loop-some f next rest (omega arith) in
            (p, rw (e, sequence_loop) (rw runs (rw j more)))
      ]
]

sequence_from-some :
    (f : ℕ) (r : Option Parsed) (tokens : List Token)
    → Ends r tokens
    → length tokens ≤ f
    → (p : Parsed) × (sequence_from f r ≡ some p)
unfolding sequence_from
sequence_from-some f r tokens ((none, rest), e, le) h = ((none, rest), rw e refl)
sequence_from-some f r tokens ((some expr, rest), e, le) h =
    let (p, more) =
      sequence_loop-some f (ast_add_child (ast_create_node NodeType.node_sequence) expr) rest
        (omega arith) in
    (set_background p, rw e (rw (more, sequence_from) refl))

-- The parser returns for every list of tokens: the fuel that `parse_tokens` gives is enough.
pub parse_tokens-some : (tokens : List Token) → (p : Parsed) × (parse_tokens tokens ≡ some p)
unfolding parse_tokens parse_sequence
parse_tokens-some tokens =
    let le : length tokens ≤ length tokens = omega arith in
    sequence_from-some (length tokens) (parse_expression (length tokens) tokens) tokens
      (parse_expression-Ends (length tokens) tokens le) le
