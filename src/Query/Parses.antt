-- ===== src/Query/Parses.antt =====
-- crates/wyrd-spec/src/query/{parse,ast}.rs: what a caller of the parser may count on.
use wyrd_core.Prelude.{
  ℕ, suc, ◌≤◌, ◌≡◌, false, List, [], ◌∷◌, Outcome, ok, err, panic, length, refl, arith, IsSafe, ◌↔◌,
  subst, ◌>>=◌, >>=-eq-ok,
}
use wyrd_core.Prelude.Text.{Text}
use wyrd_core.Query.Syntax.{Spanned, QueryError, MetadataQuery, Floats}
use wyrd_core.Query.Lexer.{lex}
use wyrd_core.Query.Tokens.{expect_eof}
use wyrd_core.Query.Parser.{parse_tokens, parse_query, parse_unary}
use wyrd_core.Query.Validate.{has_empty_group, predicate_count, depth, validate, parse}
use wyrd_core.Query.Spends.{Spends}
use wyrd_core.Query.Layers.{Filled, parse_or-Works, parse_unary-Works}
use wyrd_core.Query.Positions.{Positioned, lex-Positioned}

-- Not a panic, and a query has no empty group.
abbrev pub Sound : {F T : Type 0} → Outcome QueryError (MetadataQuery F T) → Type 0
Sound (ok query) = Filled query
Sound (err e) = Unit
Sound panic = ⊥

-- The guardrails of a query.
pub record WithinCaps {F T : Type 0} (query : MetadataQuery F T) : Type 0 where
  pub filled : has_empty_group query ≡ false
  pub few : predicate_count query ≤ 64
  pub shallow : depth query ≤ 8

-- Not a panic; a query keeps to the guardrails.
abbrev pub Guarded : {F T : Type 0} → Outcome QueryError (MetadataQuery F T) → Type 0
Guarded (ok query) = WithinCaps query
Guarded (err e) = Unit
Guarded panic = ⊥

module _ {F : Type 0} (T : Type 0) (floats : Floats F) where
  end-Sound :
      (end n : ℕ) (m : Outcome QueryError (MetadataQuery F T × List (Spanned F)))
      → Spends Filled n m
      → Sound (elim m [
        | ok (query, rest) ↦ elim (expect_eof floats end rest) [
          | ok _ ↦ ok query
          | err e ↦ err e
          | panic ↦ panic
        ]
        | err e ↦ err e
        | panic ↦ panic
      ])
  unfolding expect_eof
  end-Sound end n (ok (query, [])) (h, b) = h
  end-Sound end n (ok (query, t ∷ rest)) h = tt
  end-Sound end n (err e) h = tt
  end-Sound end n panic h = absurd h

  parse_tokens-Sound :
      (end : ℕ) (tokens : List (Spanned F)) → Sound (parse_tokens T floats end tokens)
  unfolding parse_tokens
  parse_tokens-Sound end tokens = end-Sound end (length tokens) _ (
      parse_or-Works 0 (length tokens) (parse_unary T floats end (suc (length tokens)) 0)
        (parse_unary-Works T floats end (suc (length tokens)) 0 (length tokens) (omega arith))
        tokens (omega arith))

  lexed-Sound :
      (end : ℕ) (n : ℕ) (m : Outcome QueryError (List (Spanned F)))
      → Positioned 0 n m
      → Sound
          (elim m [ ok tokens ↦ parse_tokens T floats end tokens | err e ↦ err e | panic ↦ panic ])
  lexed-Sound end n (ok tokens) h = parse_tokens-Sound end tokens
  lexed-Sound end n (err e) h = tt
  lexed-Sound end n panic h = absurd h

  -- The parser never panics and its fuel never runs out, and the query that it returns has no empty
  -- group.
  pub parse_query-Sound : (input : Text) → Sound (parse_query T floats input)
  unfolding parse_query
  parse_query-Sound input = ground (
    arith,
    lexed-Sound (length input) (length input) (lex floats input) (lex-Positioned F floats input),
  )

  validate-WithinCaps : (query : MetadataQuery F T) → validate query ≡ ok tt → WithinCaps query
  unfolding validate
  validate-WithinCaps query h = record {
    filled = ground (arith, h);
    few = ground (arith, h);
    shallow = ground (arith, h);
  }

  validated :
      (query : MetadataQuery F T) (v : Outcome QueryError (Unit {0}))
      → validate query ≡ v
      → IsSafe v
      → Guarded (v >>= λ _. ok query)
  validated query (ok u) eq h = validate-WithinCaps query eq
  validated query (err e) eq h = tt
  validated query panic eq h = absurd h

  validate-IsSafe : (query : MetadataQuery F T) → IsSafe (validate query)
  unfolding validate
  validate-IsSafe query = ground arith

  -- Validation passes exactly when no group is empty, there are at most 64 predicates and the depth
  -- is at most 8.
  validate-eq-ok_iff : (query : MetadataQuery F T) → (validate query ≡ ok tt) ↔ WithinCaps query
  unfolding validate
  validate-eq-ok_iff query =
      (validate-WithinCaps query, λ h. ground (arith, h.filled, h.few, h.shallow))

  Guarded-Sound :
      (m : Outcome QueryError (MetadataQuery F T))
      → Sound m
      → Guarded (m >>= λ query. validate query >>= λ _. ok query)
  Guarded-Sound (ok query) h = validated query (validate query) refl (validate-IsSafe query)
  Guarded-Sound (err e) h = tt
  Guarded-Sound panic h = absurd h

  -- `MetadataQuery::parse` never panics, and a query that it returns keeps to the guardrails: no
  -- empty group, at most 64 predicates, depth at most 8.
  pub parse-Guarded : (input : Text) → Guarded (parse T floats input)
  unfolding parse
  parse-Guarded input = Guarded-Sound (parse_query T floats input) (parse_query-Sound input)

  -- `MetadataQuery::parse` returns a query exactly when the parser returns it and it has at most 64
  -- predicates and depth at most 8; the check for empty groups never fails on a parsed query.
  pub parse-eq-ok_iff :
      (input : Text) (query : MetadataQuery F T)
      → (parse T floats input ≡ ok query) ↔ (
          (parse_query T floats input ≡ ok query)
          × (predicate_count query ≤ 64)
          × (depth query ≤ 8))
  unfolding parse
  parse-eq-ok_iff input query = (
    (λ h.
        let (q, parsed, more) = >>=-eq-ok (parse_query T floats input) _ h in
        let (u, passed, same) = >>=-eq-ok (validate q) _ more in
        let eq : q ≡ query = cc in
        let caps = subst WithinCaps eq (validate-WithinCaps q passed) in
        (cc, caps.few, caps.shallow)),
    (λ (parsed, few, shallow).
        let valid = (validate-eq-ok_iff query).1 (record {
          filled = subst Sound parsed (parse_query-Sound input);
          few = few;
          shallow = shallow;
        }) in
        rw (parsed, valid)),
  )
