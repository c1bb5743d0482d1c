-- ===== src/Query/Tokens.antt =====
-- crates/wyrd-spec/src/query/parse.rs: tokens and keys of the parser. Its state is the list of
-- tokens that are left; `end` is the length of the input, which errors at the end report.
use wyrd_core.Prelude.{
  ℕ, Bool, true, false, ◌&&◌, ◌||◌, List, [], ◌∷◌, ◌++◌, tail, Outcome, ok, err, panic,
  if◌then◌else◌, ◌==◌,
}
use wyrd_core.Prelude.Int.{show_i64}
use wyrd_core.Prelude.Text.{Text, codes, text_eq}
use wyrd_core.Query.Syntax.{FieldRef, Tok, Spanned, QueryError, invalid_syntax, Floats}

abbrev pub max_depth : ℕ
max_depth = 8

abbrev pub max_query_input_len : ℕ
max_query_input_len = 4096

abbrev pub escape_char : ℕ → Text
escape_char c =
    if c == b'"'
    then codes "\\\""
    else if c == b'\\'
    then codes "\\\\"
    else if c == 10
    then codes "\\n"
    else if c == 9
    then codes "\\t"
    else if c == 13
    then codes "\\r"
    else c ∷ []

unfoldable pub escape_string : Text → Text
escape_string [] = []
escape_string (c ∷ s) = escape_char c ++ escape_string s

-- A parser takes the tokens that are left and gives them back with its result.
abbrev pub Parser : Type 0 → Type 0 → Type 0
Parser F A = List (Spanned F) → Outcome QueryError (A × List (Spanned F))

infixl 5 ◌>>=◌ ◌>>◌
abbrev pub ◌>>=◌ : {F A B : Type 0} → Parser F A → (A → Parser F B) → Parser F B
◌>>=◌ p f ts = elim (p ts) [ ok (a, rest) ↦ f a rest | err e ↦ err e | panic ↦ panic ]

abbrev pub ◌>>◌ : {F A B : Type 0} → Parser F A → Parser F B → Parser F B
p >> q = p >>= λ _. q

abbrev pub pure : {F A : Type 0} → A → Parser F A
pure a ts = ok (a, ts)

-- The constructor of a token.
abbrev pub tag : {F : Type 0} → Tok F → ℕ
tag Tok.lparen = 0
tag Tok.rparen = 1
tag Tok.lbracket = 2
tag Tok.rbracket = 3
tag Tok.comma = 4
tag Tok.dot = 5
tag Tok.eq = 6
tag Tok.ne = 7
tag Tok.gt = 8
tag Tok.ge = 9
tag Tok.lt = 10
tag Tok.le = 11
tag Tok.matches = 12
tag Tok.not_matches = 13
tag Tok.and = 14
tag Tok.or = 15
tag Tok.not = 16
tag Tok.is_in = 17
tag Tok.exists = 18
tag (Tok.ident _) = 19
tag (Tok.str _) = 20
tag (Tok.int _) = 21
tag (Tok.float _) = 22
tag (Tok.duration _) = 23
tag (Tok.bool _) = 24

-- `matches!(tok, …)` of a token with no payload.
abbrev pub is_tok : {F : Type 0} → Tok F → Spanned F → Bool
is_tok k t = tag t.tok == tag k

-- `peek().is_some_and(…)`.
abbrev pub next_is : {F : Type 0} → Tok F → List (Spanned F) → Bool
next_is k [] = false
next_is k (t ∷ ts) = is_tok k t

-- `Parser::matches`: the token is taken if it fits.
unfoldable pub accept : {F : Type 0} → Tok F → Parser F Bool
accept k [] = ok (false, [])
accept k (t ∷ ts) = if is_tok k t then ok (true, ts) else ok (false, t ∷ ts)

abbrev pub is_namespace : Text → Bool
is_namespace name =
    text_eq name (codes "labels")
    || text_eq name (codes "annotations")
    || text_eq name (codes "attributes")

-- The field of a key in a namespace; the source has no fourth case.
unfoldable pub namespaced : Text → Text → Outcome QueryError FieldRef
namespaced name key =
    if text_eq name (codes "labels")
    then ok (FieldRef.label key)
    else if text_eq name (codes "annotations")
    then ok (FieldRef.annotation key)
    else if text_eq name (codes "attributes")
    then ok (FieldRef.attribute key)
    else panic

module _ {F : Type 0} (floats : Floats F) (end : ℕ) where
  unfoldable pub token_name : Tok F → Text
  token_name Tok.lparen = codes "("
  token_name Tok.rparen = codes ")"
  token_name Tok.lbracket = codes "["
  token_name Tok.rbracket = codes "]"
  token_name Tok.comma = codes ","
  token_name Tok.dot = codes "."
  token_name Tok.eq = codes "="
  token_name Tok.ne = codes "!="
  token_name Tok.gt = codes ">"
  token_name Tok.ge = codes ">="
  token_name Tok.lt = codes "<"
  token_name Tok.le = codes "<="
  token_name Tok.matches = codes "=~"
  token_name Tok.not_matches = codes "!~"
  token_name Tok.and = codes "and"
  token_name Tok.or = codes "or"
  token_name Tok.not = codes "not"
  token_name Tok.is_in = codes "in"
  token_name Tok.exists = codes "exists"
  token_name (Tok.ident value) = value
  token_name (Tok.str value) = codes "\"" ++ (escape_string value ++ codes "\"")
  token_name (Tok.int value) = show_i64 value
  token_name (Tok.float value) = floats.show_f64 value
  token_name (Tok.duration value) = show_i64 value ++ codes "ns"
  token_name (Tok.bool true) = codes "true"
  token_name (Tok.bool false) = codes "false"

  -- `syntax_at_eof`.
  abbrev pub at_eof : {A : Type 0} → Text → Outcome QueryError A
  at_eof expected = err (invalid_syntax end expected (codes "<eof>"))

  -- A syntax error at a token.
  abbrev pub at_token : {A : Type 0} → Text → Spanned F → Outcome QueryError A
  at_token expected t = err (invalid_syntax t.offset expected (token_name t.tok))

  -- `error_here`.
  abbrev pub at_here : {A : Type 0} → Text → List (Spanned F) → Outcome QueryError A
  at_here expected [] = at_eof expected
  at_here expected (t ∷ ts) = at_token expected t

  -- `expect_tok`, whose error names the token by its text.
  unfoldable pub expect_tok : Tok F → Text → Parser F (Unit {0})
  expect_tok k expected [] = at_eof expected
  expect_tok k expected (t ∷ ts) = if is_tok k t then ok (tt, ts) else at_token expected t

  -- `expect_eof`.
  unfoldable pub expect_eof : List (Spanned F) → Outcome QueryError (Unit {0})
  expect_eof [] = ok tt
  expect_eof (t ∷ ts) = at_token (codes "EOF") t

  unfoldable pub segment_of : Tok F → Spanned F → Outcome QueryError Text
  segment_of (Tok.ident value) t = ok value
  segment_of (Tok.str value) t = ok value
  segment_of Tok.and t = ok (codes "and")
  segment_of Tok.or t = ok (codes "or")
  segment_of Tok.not t = ok (codes "not")
  segment_of Tok.is_in t = ok (codes "in")
  segment_of Tok.exists t = ok (codes "exists")
  segment_of (Tok.bool true) t = ok (codes "true")
  segment_of (Tok.bool false) t = ok (codes "false")
  segment_of _ t = at_token (codes "key segment") t

  -- `parse_key_segment`, of the token that was taken.
  unfoldable pub key_segment : Spanned F → Outcome QueryError Text
  key_segment t = segment_of t.tok t

  -- The loop of `parse_key_path`: segments behind dots, joined by dots.
  unfoldable pub key_tail : Text → Parser F Text
  key_tail key [] = ok (key, [])
  key_tail key (d ∷ []) =
      if is_tok Tok.dot d then at_eof (codes "key segment") else ok (key, d ∷ [])
  key_tail key (d ∷ s ∷ rest) =
      let more : Outcome QueryError (Text × List (Spanned F)) = elim (key_segment s) [
        | ok segment ↦ key_tail (key ++ (b'.' ∷ segment)) rest
        | err e ↦ err e
        | panic ↦ panic
      ] in
      if is_tok Tok.dot d then more else ok (key, d ∷ s ∷ rest)

  unfoldable pub parse_key_path : Parser F Text
  parse_key_path [] = at_eof (codes "key segment")
  parse_key_path (t ∷ ts) = elim (key_segment t) [
    | ok segment ↦ key_tail segment ts
    | err e ↦ err e
    | panic ↦ panic
  ]

  -- The field that an identifier starts.
  unfoldable pub named_field : Text → Parser F FieldRef
  named_field name ts =
      if is_namespace name && next_is Tok.dot ts
      then elim (parse_key_path (tail ts)) [
        | ok (key, rest) ↦ elim (namespaced name key) [
          | ok field ↦ ok (field, rest)
          | err e ↦ err e
          | panic ↦ panic
        ]
        | err e ↦ err e
        | panic ↦ panic
      ]
      else if next_is Tok.dot ts
      then at_here (codes "operator") ts
      else ok (FieldRef.reserved name, ts)

  unfoldable pub field_of : Tok F → Spanned F → Parser F FieldRef
  field_of (Tok.ident name) t ts = named_field name ts
  field_of _ t ts = at_token (codes "field") t

  unfoldable pub parse_field : Parser F FieldRef
  parse_field [] = at_eof (codes "field")
  parse_field (t ∷ ts) = field_of t.tok t ts

  unfoldable pub string_of : Tok F → Spanned F → Outcome QueryError Text
  string_of (Tok.str value) t = ok value
  string_of _ t = at_token (codes "string") t

  unfoldable pub expect_string : Parser F Text
  expect_string [] = at_eof (codes "string")
  expect_string (t ∷ ts) = elim (string_of t.tok t) [
    | ok value ↦ ok (value, ts)
    | err e ↦ err e
    | panic ↦ panic
  ]
