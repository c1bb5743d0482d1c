-- ===== src/Query/Bytes.antt =====
-- crates/wyrd-spec/src/query/parse.rs: the bytes that the lexer reads, and the units of durations.
use wyrd_core.Prelude.{
  ℕ, ◌+◌, ◌*◌, ◌/◌, ◌%◌, Bool, true, false, ◌&&◌, ◌||◌, Option, none, some, [], ◌∷◌, map, Outcome,
  ok, err, any, if◌then◌else◌, ltb, leb, ◌==◌,
}
use wyrd_core.Prelude.Int.{ℤ, pos, negsuc, i64_limit}
use wyrd_core.Prelude.Text.{Text, codes, text_eq, starts_with, is_digit}
use wyrd_core.Query.Syntax.{Tok, QueryError, invalid_syntax}

abbrev pub is_space : ℕ → Bool
is_space c = c == 32 || c == 9 || c == 10 || c == 12 || c == 13

abbrev pub is_alpha : ℕ → Bool
is_alpha c = (leb b'A' c && leb c b'Z') || (leb b'a' c && leb c b'z')

abbrev pub is_ident_char : ℕ → Bool
is_ident_char c = is_alpha c || is_digit c || c == b'_' || c == b'/' || c == b'-'

-- The longest prefix of bytes that pass a test, and what follows.
unfoldable pub span : (ℕ → Bool) → Text → Text × Text
span p [] = ([], [])
span p (c ∷ s) = let (run, rest) = span p s in if p c then (c ∷ run, rest) else ([], c ∷ s)

-- `char::from(byte).to_string()`, in UTF-8.
abbrev pub char_from : ℕ → Text
char_from b = if ltb b 128 then b ∷ [] else (192 + b / 64) ∷ (128 + b % 64) ∷ []

abbrev pub head_is : ℕ → Text → Bool
head_is c [] = false
head_is c (b ∷ s) = b == c

abbrev pub head_digit : Text → Bool
head_digit [] = false
head_digit (b ∷ s) = is_digit b

abbrev pub rest_of : Text → Text
rest_of [] = []
rest_of (b ∷ s) = s

-- A white-space character of Unicode at the head, by its bytes.
abbrev space_ahead : Text → Bool
space_ahead s =
    head_is 32 s
    || head_is 9 s
    || head_is 10 s
    || head_is 11 s
    || head_is 12 s
    || head_is 13 s
    || any (λ w. starts_with s w)
        ((0xc2 ∷ 0x85 ∷ [])
          ∷ (0xc2 ∷ 0xa0 ∷ [])
          ∷ (0xe1 ∷ 0x9a ∷ 0x80 ∷ [])
          ∷ (0xe2 ∷ 0x80 ∷ 0xa8 ∷ [])
          ∷ (0xe2 ∷ 0x80 ∷ 0xa9 ∷ [])
          ∷ (0xe2 ∷ 0x80 ∷ 0xaf ∷ [])
          ∷ (0xe2 ∷ 0x81 ∷ 0x9f ∷ [])
          ∷ (0xe3 ∷ 0x80 ∷ 0x80 ∷ [])
          ∷ map (λ k. 0xe2 ∷ 0x80 ∷ k ∷ [])
              (0x80 ∷ 0x81 ∷ 0x82 ∷ 0x83 ∷ 0x84 ∷ 0x85 ∷ 0x86 ∷ 0x87 ∷ 0x88 ∷ 0x89 ∷ 0x8a ∷ []))

-- What stands before the next white space.
unfoldable pub until_space : Text → Text
until_space [] = []
until_space (c ∷ s) = let more = until_space s in if space_ahead (c ∷ s) then [] else c ∷ more

abbrev pub unescape : ℕ → Option ℕ
unescape e =
    if e == b'"'
    then some b'"'
    else if e == b'\\'
    then some b'\\'
    else if e == b'n'
    then some 10
    else if e == b't'
    then some 9
    else if e == b'r'
    then some 13
    else none

abbrev pub to_lower : ℕ → ℕ
to_lower c = if leb b'A' c && leb c b'Z' then c + 32 else c

-- The nanoseconds of a duration unit.
unfoldable pub unit_factor : Text → Option ℕ
unit_factor unit =
    if text_eq unit (codes "ns")
    then some 1
    else if text_eq unit (codes "us")
    then some 1_000
    else if text_eq unit (codes "ms")
    then some 1_000_000
    else if text_eq unit (codes "s")
    then some 1_000_000_000
    else if text_eq unit (codes "m")
    then some 60_000_000_000
    else if text_eq unit (codes "h")
    then some 3_600_000_000_000
    else none

-- A token, the bytes behind it and their position.
abbrev pub Lexed : Type 0 → Type 0
Lexed F = Outcome QueryError (Tok F × Text × ℕ)

-- `checked_mul` of a magnitude that is not negative.
unfoldable pub duration_of : ℤ → ℕ → ℕ → Text → Outcome QueryError ℤ
duration_of (pos n) factor start shown =
    if ltb (n * factor) i64_limit
    then ok (pos (n * factor))
    else err (invalid_syntax start (codes "duration within i64 nanos") shown)
duration_of (negsuc n) factor start shown =
    err (invalid_syntax start (codes "positive duration") shown)

-- The fraction behind the digits: a dot and at least one digit.
abbrev pub fraction : Text → Bool × Text × Text
fraction s =
    if head_is b'.' s && head_digit (rest_of s)
    then (let (run, rest) = span is_digit (rest_of s) in (true, b'.' ∷ run, rest))
    else (false, [], s)
