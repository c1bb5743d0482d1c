-- ===== src/Query/Layers.antt =====
-- crates/wyrd-spec/src/query/parse.rs: how the Boolean layers of the parser use their tokens.
use wyrd_core.Prelude.{ℕ, zero, suc, ◌<◌, ◌≡◌, false, ◌||◌, List, length, refl, arith, ◌≤◌}
use wyrd_core.Prelude.Text.{codes}
use wyrd_core.Query.Syntax.{MetadataQuery, Queries, Tok, Spanned, Floats}
use wyrd_core.Query.Tokens.{Parser, expect_tok}
use wyrd_core.Query.Validate.{has_empty_group, any_empty_group, is_empty}
use wyrd_core.Query.Spends.{Spends, Spends-then, Spends-accept}
use wyrd_core.Query.Fields.{expect_tok-Spends}
use wyrd_core.Query.Progress.{parse_predicate-Spends}
use wyrd_core.Query.Parser.{group, chain, separated, parse_and, parse_or, parse_unary}

-- No group in the query is empty.
abbrev pub Filled : {F T : Type 0} → MetadataQuery F T → Type 0
Filled query = has_empty_group query ≡ false

abbrev pub AllFilled : {F T : Type 0} → Queries F T → Type 0
AllFilled queries = any_empty_group queries ≡ false

-- The parser takes a token of every list of at most `n` tokens, and its query is filled.
abbrev pub Works : {F T : Type 0} → ℕ → Parser F (MetadataQuery F T) → Type 0
Works {F} n p = (ts : List (Spanned F)) → length ts ≤ n → Spends Filled (length ts) (p ts)

module _ {F T : Type 0} where
  AllFilled-cons :
      (query : MetadataQuery F T) (more : Queries F T)
      → Filled query
      → AllFilled more
      → AllFilled (Queries.cons query more)
  unfolding any_empty_group
  AllFilled-cons query more h hs = ground (arith, h, hs)

  chain-Spends :
      (k : Tok F) (n : ℕ) (child : Parser F (MetadataQuery F T))
      → Works n child
      → (fuel : ℕ) (ts : List (Spanned F)) → length ts < fuel
      → length ts ≤ suc n
      → Spends AllFilled (suc (length ts)) (chain k child fuel ts)
  unfolding chain
  chain-Spends k n child works zero ts h b = absurd (omega arith)
  chain-Spends k n child works (suc fuel) ts h b =
      Spends-accept AllFilled (suc (length ts)) k _ _ ts
        (λ rest cut.
          Spends-then _ _ (child rest) _ (works rest (omega arith)) (λ query left filled b1.
            Spends-then _ _ (chain k child fuel left) _
              (chain-Spends k n child works fuel left (omega arith) (omega arith))
              (λ more over filled' b2. (AllFilled-cons query more filled filled', omega arith))))
        (unfold any_empty_group in refl, omega arith)

  group-Filled :
      (make : Queries F T → MetadataQuery F T)
      → ((q : Queries F T) → has_empty_group (make q) ≡ (is_empty q || any_empty_group q))
      → (child : MetadataQuery F T) (more : Queries F T) → Filled child
      → AllFilled more
      → Filled (group make child more)
  group-Filled make law child Queries.nil h hs = h
  group-Filled make law child (Queries.cons next more) h hs = ground (
    arith,
    law (Queries.cons child (Queries.cons next more)),
    AllFilled-cons child (Queries.cons next more) h hs,
  )

  separated-Works :
      (k : Tok F) (make : Queries F T → MetadataQuery F T) (n : ℕ)
      (child : Parser F (MetadataQuery F T))
      → ((q : Queries F T) → has_empty_group (make q) ≡ (is_empty q || any_empty_group q))
      → Works n child
      → Works n (separated k make child)
  unfolding separated
  separated-Works k make n child law works ts h =
      Spends-then _ _ (child ts) _ (works ts h) (λ first rest filled b1.
        Spends-then _ _ (chain k child (suc (length rest)) rest) _
          (chain-Spends k n child works (suc (length rest)) rest (omega arith) (omega arith))
          (λ more left filled' b2. (group-Filled make law first more filled filled', omega arith)))

  pub parse_or-Works :
      (d n : ℕ) (unary : Parser F (MetadataQuery F T)) → Works n unary → Works n (parse_or d unary)
  unfolding parse_or parse_and
  parse_or-Works d n unary works ts h =
      let layers =
        separated-Works Tok.or MetadataQuery.any_of n (separated Tok.and MetadataQuery.all_of unary)
          (λ q. unfold has_empty_group in refl)
          (separated-Works Tok.and MetadataQuery.all_of n unary
            (λ q. unfold has_empty_group in refl) works)
          ts h in
      ground (arith, layers)

module _ {F : Type 0} (T : Type 0) (floats : Floats F) (end : ℕ) where
  pub parse_unary-Works : (fuel d n : ℕ) → n < fuel → Works n (parse_unary T floats end fuel d)
  unfolding parse_unary
  parse_unary-Works zero d n h ts b = absurd (omega arith)
  parse_unary-Works (suc fuel) d n h ts b =
      Spends-accept Filled (length ts) Tok.not _ _ ts
        (λ rest cut.
          Spends-then _ _ (parse_unary T floats end fuel (suc d) rest) _
            (parse_unary-Works fuel (suc d) (length rest) (omega arith) rest (omega arith))
            (λ query left filled b1. (unfold has_empty_group in filled, omega arith)))
        (Spends-accept Filled (length ts) Tok.lparen _ _ ts
          (λ inner cut.
            Spends-then _ _ (parse_or (suc d) (parse_unary T floats end fuel (suc d)) inner) _
              (parse_or-Works (suc d) (length inner) (parse_unary T floats end fuel (suc d))
                (parse_unary-Works fuel (suc d) (length inner) (omega arith)) inner (omega arith))
              (λ query left filled b1.
                Spends-then _ _ (expect_tok floats end Tok.rparen (codes ")") left) _
                  (expect_tok-Spends floats end Tok.rparen (codes ")") left)
                  (λ _ over _ b2. (filled, omega arith))))
          (parse_predicate-Spends T floats end ts))
