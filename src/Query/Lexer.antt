-- ===== src/Query/Lexer.antt =====
-- crates/wyrd-spec/src/query/parse.rs: the lexer. The input is its list of UTF-8 bytes; the state
-- `pos` is kept with the bytes behind it. A string literal is copied byte by byte: no byte of a
-- character above ASCII is a quote or a backslash.
use wyrd_core.Prelude.{
  ℕ, zero, suc, ◌+◌, Bool, true, false, not, ◌&&◌, ◌||◌, none, some, List, [], ◌∷◌, ◌++◌, map,
  Outcome, ok, err, panic, ◌>>=◌, ok_or, length, if◌then◌else◌, ◌==◌,
}
use wyrd_core.Prelude.Int.{parse_i64, is_negative}
use wyrd_core.Prelude.Text.{Text, codes, text_eq, is_digit}
use wyrd_core.Query.Syntax.{Tok, Spanned, QueryError, invalid_syntax, Floats}
use wyrd_core.Query.Bytes.{
  is_space, is_alpha, is_ident_char, span, char_from, head_is, head_digit, rest_of, until_space,
  unescape, to_lower, unit_factor, Lexed, duration_of, fraction,
}

module _ {F : Type 0} where
  -- `string_lit`, behind the opening quote at `start`.
  unfoldable pub string_lit : ℕ → Text → ℕ → Text → Lexed F
  string_lit start [] at out = err (invalid_syntax start (codes "\"") (codes "<eof>"))
  string_lit start (b ∷ []) at out =
      if b == b'"'
      then ok (Tok.str out, [], at + 1)
      else if b == b'\\'
      then err (invalid_syntax (at + 1) (codes "escape") (codes "<eof>"))
      else err (invalid_syntax start (codes "\"") (codes "<eof>"))
  string_lit start (b ∷ e ∷ s) at out =
      let plain = string_lit start (e ∷ s) (at + 1) (out ++ b ∷ []) in
      let escaped : Lexed F = elim (unescape e) [
        | some c ↦ string_lit start s (at + 2) (out ++ c ∷ [])
        | none ↦ err (invalid_syntax (at + 1) (codes "\" \\ n t r") (char_from e))
      ] in
      if b == b'"' then ok (Tok.str out, e ∷ s, at + 1) else if b == b'\\' then escaped else plain

  -- The keywords, in any letter case.
  unfoldable pub keyword : Text → Tok F
  keyword raw =
      let lower = map to_lower raw in
      if text_eq lower (codes "and")
      then Tok.and
      else if text_eq lower (codes "or")
      then Tok.or
      else if text_eq lower (codes "not")
      then Tok.not
      else if text_eq lower (codes "in")
      then Tok.is_in
      else if text_eq lower (codes "exists")
      then Tok.exists
      else if text_eq lower (codes "true")
      then Tok.bool true
      else if text_eq lower (codes "false")
      then Tok.bool false
      else Tok.ident raw

  -- `ident_or_keyword`, from its first byte.
  unfoldable pub ident_or_keyword : ℕ → Text → ℕ → Lexed F
  ident_or_keyword b s at =
      let (run, rest) = span is_ident_char s in ok (keyword (b ∷ run), rest, at + 1 + length run)

  -- The text `number` with a unit behind it.
  unfoldable pub with_unit : ℕ → Bool → Text → Text → Text → Lexed F
  with_unit start is_float number unit rest =
      let shown = number ++ unit in
      let unit_at = start + length number in
      if is_float
      then err (invalid_syntax start (codes "integer duration") shown)
      else (ok_or (invalid_syntax start (codes "integer") number) (parse_i64 number)
          >>= λ magnitude.
              if is_negative magnitude
              then err (invalid_syntax start (codes "positive duration") shown)
              else (ok_or (invalid_syntax unit_at (codes "duration unit") unit) (unit_factor unit)
                  >>= λ factor. duration_of magnitude factor start shown >>= λ nanos.
                      ok (Tok.duration nanos, rest, start + length shown)))

  -- The number with no unit.
  unfoldable pub without_unit : Floats F → ℕ → Bool → Text → Text → Lexed F
  without_unit floats start is_float number rest =
      if not is_float && head_is b'-' rest
      then err (invalid_syntax start (codes "quoted timestamp") (number ++ until_space rest))
      else if is_float
      then (ok_or (invalid_syntax start (codes "float") number) (floats.parse_f64 number) >>= λ v.
          ok (Tok.float v, rest, start + length number))
      else (ok_or (invalid_syntax start (codes "integer") number) (parse_i64 number) >>= λ v.
          ok (Tok.int v, rest, start + length number))

  -- The digits of `number_or_duration`, behind the sign, and what follows them.
  unfoldable pub scan_number : Floats F → ℕ → Text → Text → Lexed F
  scan_number floats start sign body =
      let (digits, behind) = span is_digit body in
      let (is_float, more, tail) = fraction behind in
      let (unit, rest) = span is_alpha tail in
      let number = sign ++ (digits ++ more) in
      if not (text_eq unit [])
      then with_unit start is_float number unit rest
      else without_unit floats start is_float number tail

  -- `number_or_duration`, at `start`.
  unfoldable pub number_or_duration : Floats F → Text → ℕ → Lexed F
  number_or_duration floats s start =
      if not (head_is b'-' s)
      then scan_number floats start [] s
      else if head_digit (rest_of s)
      then scan_number floats start (b'-' ∷ []) (rest_of s)
      else err (invalid_syntax start (codes "digit") (codes "-"))

  -- A token of two bytes if `second` follows, else of one.
  unfoldable pub one_or_two : ℕ → Text → ℕ → Tok F → Tok F → Lexed F
  one_or_two second s at two one =
      if head_is second s then ok (two, rest_of s, at + 2) else ok (one, s, at + 1)

  -- The token that starts with `b`.
  unfoldable pub next_token : Floats F → ℕ → Text → ℕ → Lexed F
  next_token floats b s at =
      if b == b'('
      then ok (Tok.lparen, s, at + 1)
      else if b == b')'
      then ok (Tok.rparen, s, at + 1)
      else if b == b'['
      then ok (Tok.lbracket, s, at + 1)
      else if b == b']'
      then ok (Tok.rbracket, s, at + 1)
      else if b == b','
      then ok (Tok.comma, s, at + 1)
      else if b == b'.'
      then ok (Tok.dot, s, at + 1)
      else if b == b'='
      then one_or_two b'~' s at Tok.matches Tok.eq
      else if b == b'!' && head_is b'=' s
      then ok (Tok.ne, rest_of s, at + 2)
      else if b == b'!' && head_is b'~' s
      then ok (Tok.not_matches, rest_of s, at + 2)
      else if b == b'>'
      then one_or_two b'=' s at Tok.ge Tok.gt
      else if b == b'<'
      then one_or_two b'=' s at Tok.le Tok.lt
      else if b == b'"'
      then string_lit at s (at + 1) []
      else if b == b'-' || is_digit b
      then number_or_duration floats (b ∷ s) at
      else if is_alpha b || b == b'_'
      then ident_or_keyword b s at
      else err (invalid_syntax at (codes "token") (char_from b))

  -- The loop of `lex`; every token takes a byte, so the fuel is the number of bytes and one more.
  unfoldable pub lex_from : ℕ → Floats F → Text → ℕ → Outcome QueryError (List (Spanned F))
  lex_from zero floats s at = panic
  lex_from (suc fuel) floats s at =
      let (blank, rest) = span is_space s in
      let start = at + length blank in
      elim rest [
        | [] ↦ ok []
        | b ∷ behind ↦ next_token floats b behind start >>= λ (tok, rest', at').
            lex_from fuel floats rest' at' >>= λ tokens.
            ok (record { tok = tok; offset = start } ∷ tokens)
      ]

  unfoldable pub lex : Floats F → Text → Outcome QueryError (List (Spanned F))
  lex floats input = lex_from (suc (length input)) floats input 0
