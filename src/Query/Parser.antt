-- ===== src/Query/Parser.antt =====
-- crates/wyrd-spec/src/query/parse.rs: the Boolean layers of the parser, and the whole parser. A
-- layer takes the parser of the layer below it; `parse_unary` runs on fuel.
use wyrd_core.Prelude.{
  ℕ, zero, suc, true, false, List, Outcome, ok, err, panic, length, if◌then◌else◌, ltb,
}
use wyrd_core.Prelude.Text.{Text, codes}
use wyrd_core.Query.Syntax.{MetadataQuery, Queries, Tok, Spanned, QueryError, too_complex, Floats}
use wyrd_core.Query.Tokens.{Parser, accept, max_depth, max_query_input_len, expect_tok, expect_eof}
use wyrd_core.Query.Predicates.{parse_predicate}
use wyrd_core.Query.Lexer.{lex}

-- One child stands for itself.
abbrev pub group :
    {F T : Type 0}
    → (Queries F T → MetadataQuery F T)
    → MetadataQuery F T
    → Queries F T
    → MetadataQuery F T
group make child Queries.nil = child
group make child (Queries.cons next more) = make (Queries.cons child (Queries.cons next more))

-- The loop of `parse_or` and `parse_and`: children behind the token `k`.
unfoldable pub chain :
    {F T : Type 0} → Tok F → Parser F (MetadataQuery F T) → ℕ → Parser F (Queries F T)
chain k child zero ts = panic
chain k child (suc fuel) ts = elim (accept k ts) [
  | ok (false, rest) ↦ ok (Queries.nil, rest)
  | ok (true, rest) ↦ elim (child rest) [
    | ok (query, left) ↦ elim (chain k child fuel left) [
      | ok (more, over) ↦ ok (Queries.cons query more, over)
      | err e ↦ err e
      | panic ↦ panic
    ]
    | err e ↦ err e
    | panic ↦ panic
  ]
  | err e ↦ err e
  | panic ↦ panic
]

-- Children with the token `k` between them; each takes a token, so the fuel is enough.
unfoldable pub separated :
    {F T : Type 0}
    → Tok F
    → (Queries F T → MetadataQuery F T)
    → Parser F (MetadataQuery F T)
    → Parser F (MetadataQuery F T)
separated k make child ts = elim (child ts) [
  | ok (first, rest) ↦ elim (chain k child (suc (length rest)) rest) [
    | ok (more, left) ↦ ok (group make first more, left)
    | err e ↦ err e
    | panic ↦ panic
  ]
  | err e ↦ err e
  | panic ↦ panic
]

unfoldable pub parse_and :
    {F T : Type 0} → Parser F (MetadataQuery F T) → Parser F (MetadataQuery F T)
parse_and unary = separated Tok.and MetadataQuery.all_of unary

-- The parser of the layer below stands at the same depth.
unfoldable pub parse_or :
    {F T : Type 0} → ℕ → Parser F (MetadataQuery F T) → Parser F (MetadataQuery F T)
parse_or depth unary ts =
    if ltb max_depth depth
    then err (too_complex "depth" depth max_depth)
    else separated Tok.or MetadataQuery.any_of (parse_and unary) ts

module _ {F : Type 0} (T : Type 0) (floats : Floats F) (end : ℕ) where
  -- Every call inside takes a token first, so the fuel is the number of tokens and one more.
  unfoldable pub parse_unary : ℕ → ℕ → Parser F (MetadataQuery F T)
  parse_unary zero depth ts = panic
  parse_unary (suc fuel) depth ts = elim (accept Tok.not ts) [
    | ok (true, rest) ↦ elim (parse_unary fuel (suc depth) rest) [
      | ok (query, left) ↦ ok (MetadataQuery.negation query, left)
      | err e ↦ err e
      | panic ↦ panic
    ]
    | ok (false, rest) ↦ elim (accept Tok.lparen rest) [
      | ok (true, inner) ↦ elim (parse_or (suc depth) (parse_unary fuel (suc depth)) inner) [
        | ok (query, left) ↦ elim (expect_tok floats end Tok.rparen (codes ")") left) [
          | ok (_, over) ↦ ok (query, over)
          | err e ↦ err e
          | panic ↦ panic
        ]
        | err e ↦ err e
        | panic ↦ panic
      ]
      | ok (false, inner) ↦ parse_predicate T floats end inner
      | err e ↦ err e
      | panic ↦ panic
    ]
    | err e ↦ err e
    | panic ↦ panic
  ]

  -- The tokens of a whole query.
  unfoldable pub parse_tokens : List (Spanned F) → Outcome QueryError (MetadataQuery F T)
  parse_tokens tokens = elim (parse_or 0 (parse_unary (suc (length tokens)) 0) tokens) [
    | ok (query, rest) ↦ elim (expect_eof floats end rest) [
      | ok _ ↦ ok query
      | err e ↦ err e
      | panic ↦ panic
    ]
    | err e ↦ err e
    | panic ↦ panic
  ]

-- `parse_query`.
unfoldable pub parse_query :
    {F : Type 0} (T : Type 0) → Floats F → Text → Outcome QueryError (MetadataQuery F T)
parse_query T floats input =
    if ltb max_query_input_len (length input)
    then err (too_complex "input_length" (length input) max_query_input_len)
    else elim (lex floats input) [
      | ok tokens ↦ parse_tokens T floats (length input) tokens
      | err e ↦ err e
      | panic ↦ panic
    ]
