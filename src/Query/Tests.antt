-- ===== src/Query/Tests.antt =====
-- Runs of the query parser, and the theorems at concrete inputs.
use wyrd_core.Prelude.{◌+◌, ◌++◌, ◌≡◌, ◌↔◌, ◌≤◌, some, ok, refl, [], ◌∷◌, length}
use wyrd_core.Prelude.Int.{pos, parse_i64}
use wyrd_core.Prelude.Text.{Text, codes, text_eq, is_digit, parse_unsigned}
use wyrd_core.Query.Syntax.{Tok, Floats, MetadataQuery, Queries, Value, FieldRef, Operator}
use wyrd_core.Query.Bytes.{unit_factor, duration_of, span}
use wyrd_core.Query.Lexer.{
  lex, lex_from, next_token, string_lit, ident_or_keyword, keyword, number_or_duration, scan_number,
  with_unit, without_unit, one_or_two,
}
use wyrd_core.Query.Tokens.{
  escape_string, accept, expect_tok, expect_eof, parse_field, field_of, named_field, namespaced,
  parse_key_path, key_tail, key_segment, segment_of,
}
use wyrd_core.Query.Predicates.{
  parse_predicate, parse_op, op_of, negated_op, parse_list, parse_value, value_tail, taken_value,
  value_of,
}
use wyrd_core.Query.Parser.{
  parse_query, parse_tokens, parse_or, parse_and, separated, chain, parse_unary,
}
use wyrd_core.Query.Validate.{validate, parse, predicate_count, depth, has_empty_group}
use wyrd_core.Query.Parses.{Sound, Guarded, parse_query-Sound, parse-Guarded, parse-eq-ok_iff}
use wyrd_core.Query.Positions.{Positioned, lex-Positioned}
use wyrd_core.Query.Literals.{string_lit-escape_string}

-- Floats that are kept as their texts.
abbrev text_floats : Floats Text
text_floats = record { parse_f64 = λ s. some s; show_f64 = λ s. s }

abbrev Q : Type 0
Q = MetadataQuery Text Unit

abbrev label_query : Q
label_query =
    MetadataQuery.predicate (record { field = FieldRef.label (codes "env"); op = Operator.exists })

abbrev label_text : Text
label_text = codes "labels.env exists"

-- `or` binds weaker than `and`.
abbrev mixed_text : Text
mixed_text = codes "a = 1 or labels.env exists AND not b in [5s]"

abbrev mixed_query : Q
mixed_query = MetadataQuery.any_of (
    Queries.cons
      (MetadataQuery.predicate
        (record { field = FieldRef.reserved (codes "a"); op = Operator.eq (Value.int (pos 1)) }))
      (Queries.cons
        (MetadataQuery.all_of (
          Queries.cons label_query (
            Queries.cons
              (MetadataQuery.negation (
                MetadataQuery.predicate (record {
                  field = FieldRef.reserved (codes "b");
                  op = Operator.is_in (Value.duration (pos 5_000_000_000) ∷ []);
                })))
              Queries.nil)))
        Queries.nil))

parse_mixed : parse {F = Text} Unit text_floats mixed_text ≡ ok mixed_query
unfolding parse parse_query lex lex_from next_token ident_or_keyword keyword number_or_duration
    scan_number with_unit without_unit unit_factor duration_of one_or_two span parse_tokens parse_or
    parse_and separated chain parse_unary accept expect_tok expect_eof parse_predicate parse_field
    field_of named_field namespaced parse_key_path key_tail key_segment segment_of parse_op op_of
    negated_op parse_list parse_value value_tail taken_value value_of validate has_empty_group
    predicate_count depth text_eq is_digit parse_i64 parse_unsigned
parse_mixed = refl

parse_query-Sound_example : Sound (parse_query Unit text_floats mixed_text)
parse_query-Sound_example = parse_query-Sound Unit text_floats mixed_text

parse-Guarded_example : Guarded (parse Unit text_floats mixed_text)
parse-Guarded_example = parse-Guarded Unit text_floats mixed_text

parse-eq-ok_iff_example : (parse Unit text_floats mixed_text ≡ ok mixed_query) ↔ (
    (parse_query Unit text_floats mixed_text ≡ ok mixed_query)
    × (predicate_count mixed_query ≤ 64)
    × (depth mixed_query ≤ 8))
parse-eq-ok_iff_example = parse-eq-ok_iff Unit text_floats mixed_text mixed_query

lex-Positioned_example : Positioned 0 (length mixed_text) (lex text_floats mixed_text)
lex-Positioned_example = lex-Positioned Text text_floats mixed_text

string_lit-escape_string_example :
    string_lit {F = Text} 4 (escape_string (codes "say \"hi\"\n") ++ (b'"' ∷ codes " and")) 5 []
    ≡ ok (
      Tok.str (codes "say \"hi\"\n"),
      codes " and",
      5 + length (escape_string (codes "say \"hi\"\n")) + 1,
    )
string_lit-escape_string_example =
    string_lit-escape_string Text 4 (codes "say \"hi\"\n") (codes " and") 5 []
