-- ===== src/Query/Syntax.antt =====
-- crates/wyrd-spec/src/query/{ast,value,parse}.rs: queries, values, tokens and errors.
-- `F` is the type of `f64` values and `T` that of timestamps, which the parser never makes.
use Prim.Native.String.{String}
use wyrd_core.Prelude.{ℕ, Bool, List, Option}
use wyrd_core.Prelude.Int.{ℤ}
use wyrd_core.Prelude.Text.{Text}

pub data Value (F T : Type 0) : Type 0 where
  string : Text → Value F T
  int : ℤ → Value F T
  float : F → Value F T
  bool : Bool → Value F T
  duration : ℤ → Value F T
  timestamp : T → Value F T

pub data FieldRef : Type 0 where
  label annotation attribute reserved : Text → FieldRef

pub data Operator (F T : Type 0) : Type 0 where
  eq ne gt ge lt le : Value F T → Operator F T
  matches not_matches : Text → Operator F T
  is_in not_in : List (Value F T) → Operator F T
  exists not_exists : Operator F T

pub record Predicate (F T : Type 0) : Type 0 where
  pub field : FieldRef
  pub op : Operator F T

-- The vector inside a group is a type of its own.
mutual
  pub data MetadataQuery (F T : Type 0) : Type 0 where
    all_of : Queries F T → MetadataQuery F T
    any_of : Queries F T → MetadataQuery F T
    negation : MetadataQuery F T → MetadataQuery F T
    predicate : Predicate F T → MetadataQuery F T

  pub data Queries (F T : Type 0) : Type 0 where
    nil : Queries F T
    cons : MetadataQuery F T → Queries F T → Queries F T

pub data Tok (F : Type 0) : Type 0 where
  lparen rparen lbracket rbracket comma dot : Tok F
  eq ne gt ge lt le matches not_matches : Tok F
  and or not is_in exists : Tok F
  ident str : Text → Tok F
  int : ℤ → Tok F
  float : F → Tok F
  duration : ℤ → Tok F
  bool : Bool → Tok F

pub record Spanned (F : Type 0) : Type 0 where
  pub tok : Tok F
  pub offset : ℕ

-- What a caller can read of a `WyrdError`; the message for people is left out. `too_complex` has
-- the cap, the actual value and the limit, `invalid_syntax` the offset, what was expected and what
-- was found.
pub data QueryError : Type 0 where
  too_complex : String → ℕ → ℕ → QueryError
  invalid_syntax : ℕ → Text → Text → QueryError
  empty_group : QueryError

-- `str::parse::<f64>` and `Display` of `f64`, which belong to the standard library.
pub record Floats (F : Type 0) : Type 0 where
  pub parse_f64 : Text → Option F
  pub show_f64 : F → Text
