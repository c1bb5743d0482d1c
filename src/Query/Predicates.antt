-- ===== src/Query/Predicates.antt =====
-- crates/wyrd-spec/src/query/parse.rs: values, operators and predicates of the parser.
use wyrd_core.Prelude.{ℕ, List, [], ◌∷◌, tail, Outcome, ok, err, panic, if◌then◌else◌}
use wyrd_core.Prelude.Text.{codes}
use wyrd_core.Query.Syntax.{Value, Operator, MetadataQuery, Tok, Spanned, QueryError, Floats}
use wyrd_core.Query.Tokens.{
  Parser, ◌>>=◌, ◌>>◌, pure, is_tok, next_is, at_eof, at_token, at_here, expect_tok, parse_field,
  expect_string,
}

module _ {F : Type 0} (T : Type 0) (floats : Floats F) (end : ℕ) where
  unfoldable pub value_of : Tok F → Spanned F → Outcome QueryError (Value F T)
  value_of (Tok.str value) t = ok (Value.string value)
  value_of (Tok.int value) t = ok (Value.int value)
  value_of (Tok.float value) t = ok (Value.float value)
  value_of (Tok.bool value) t = ok (Value.bool value)
  value_of (Tok.duration value) t = ok (Value.duration value)
  value_of _ t = at_token floats end (codes "value") t

  -- The value of the token that was taken.
  unfoldable pub taken_value : Spanned F → Outcome QueryError (Value F T)
  taken_value t = value_of t.tok t

  unfoldable pub parse_value : Parser F (Value F T)
  parse_value [] = at_eof floats end (codes "value")
  parse_value (t ∷ ts) = elim (taken_value t) [
    | ok value ↦ ok (value, ts)
    | err e ↦ err e
    | panic ↦ panic
  ]

  -- The loop of `parse_list`: values behind commas.
  unfoldable pub value_tail : Parser F (List (Value F T))
  value_tail [] = ok ([], [])
  value_tail (c ∷ []) =
      if is_tok Tok.comma c then at_eof floats end (codes "value") else ok ([], c ∷ [])
  value_tail (c ∷ v ∷ rest) =
      let more : Outcome QueryError (List (Value F T) × List (Spanned F)) = elim (taken_value v) [
        | ok value ↦ elim (value_tail rest) [
          | ok (values, left) ↦ ok (value ∷ values, left)
          | err e ↦ err e
          | panic ↦ panic
        ]
        | err e ↦ err e
        | panic ↦ panic
      ] in
      if is_tok Tok.comma c then more else ok ([], c ∷ v ∷ rest)

  unfoldable pub parse_list : Parser F (List (Value F T))
  parse_list = do
    expect_tok floats end Tok.lbracket (codes "[")
    value ← parse_value
    values ← value_tail
    expect_tok floats end Tok.rbracket (codes "]")
    pure (value ∷ values)

  -- `not` behind a field: `not in` or `not exists`.
  unfoldable pub negated_op : Parser F (Operator F T)
  negated_op ts =
      if next_is Tok.is_in ts
      then (do values ← parse_list; pure (Operator.not_in values)) (tail ts)
      else if next_is Tok.exists ts
      then ok (Operator.not_exists, tail ts)
      else at_here floats end (codes "in or exists") ts

  abbrev pub compare_op : (Value F T → Operator F T) → Parser F (Operator F T)
  compare_op op = do value ← parse_value; pure (op value)

  unfoldable pub op_of : Tok F → Spanned F → Parser F (Operator F T)
  op_of Tok.eq t = compare_op Operator.eq
  op_of Tok.ne t = compare_op Operator.ne
  op_of Tok.gt t = compare_op Operator.gt
  op_of Tok.ge t = compare_op Operator.ge
  op_of Tok.lt t = compare_op Operator.lt
  op_of Tok.le t = compare_op Operator.le
  op_of Tok.matches t = do text ← expect_string floats end; pure (Operator.matches text)
  op_of Tok.not_matches t = do text ← expect_string floats end; pure (Operator.not_matches text)
  op_of Tok.is_in t = do values ← parse_list; pure (Operator.is_in values)
  op_of Tok.not t = negated_op
  op_of Tok.exists t = pure Operator.exists
  op_of _ t = λ ts. at_token floats end (codes "operator") t

  unfoldable pub parse_op : Parser F (Operator F T)
  parse_op [] = at_eof floats end (codes "operator")
  parse_op (t ∷ ts) = op_of t.tok t ts

  unfoldable pub parse_predicate : Parser F (MetadataQuery F T)
  parse_predicate = do
    field ← parse_field floats end
    op ← parse_op
    pure (MetadataQuery.predicate (record { field = field; op = op }))
