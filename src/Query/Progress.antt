-- ===== src/Query/Progress.antt =====
-- crates/wyrd-spec/src/query/parse.rs: how the parsers of values, operators and predicates use
-- their tokens.
use wyrd_core.Prelude.{
  ℕ, suc, ◌≡◌, false, List, [], ◌∷◌, tail, ok, err, panic, length, Bool-cases, refl, arith, IsSafe,
  ◌≤◌, inl, inr,
}
use wyrd_core.Prelude.Text.{codes}
use wyrd_core.Query.Syntax.{Value, Operator, Tok, Spanned, Floats}
use wyrd_core.Query.Tokens.{is_tok, expect_tok, parse_field, expect_string}
use wyrd_core.Query.Validate.{has_empty_group}
use wyrd_core.Query.Predicates.{
  compare_op, taken_value, parse_value, value_tail, parse_list, negated_op, parse_op,
  parse_predicate, value_of, op_of,
}
use wyrd_core.Query.Spends.{Spends, Any, Progresses, Spends-then, Spends-mono, Spends-one}
use wyrd_core.Query.Fields.{
  shorter, at_here-Spends, expect_tok-Spends, expect_string-Spends, parse_field-Spends,
}

module _ {F : Type 0} (T : Type 0) (floats : Floats F) (end : ℕ) where
  value_of-IsSafe : (k : Tok F) (t : Spanned F) → IsSafe (value_of T floats end k t)
  unfolding value_of
  value_of-IsSafe (Tok.int value) t = tt
  value_of-IsSafe _ t = tt

  pub parse_value-Spends : Progresses Any (parse_value T floats end)
  unfolding parse_value taken_value
  parse_value-Spends [] = tt
  parse_value-Spends (t ∷ ts) =
      Spends-one _ _ (taken_value T floats end t) (λ value. ok (value, ts))
        (value_of-IsSafe t.tok t) (λ value. (tt, omega arith))

  pub value_tail-Spends :
      (ts : List (Spanned F)) → Spends Any (suc (length ts)) (value_tail T floats end ts)
  unfolding value_tail
  value_tail-Spends [] = (tt, omega arith)
  value_tail-Spends (c ∷ []) = ground arith
  value_tail-Spends (c ∷ v ∷ rest) =
      let more =
        Spends-one Any (suc (length (c ∷ v ∷ rest))) (taken_value T floats end v)
          (λ value. elim (value_tail T floats end rest) [
            | ok (values, left) ↦ ok (value ∷ values, left)
            | err e ↦ err e
            | panic ↦ panic
          ])
          (unfold taken_value in value_of-IsSafe v.tok v)
          (λ value.
            Spends-then _ _ (value_tail T floats end rest)
              (λ values left. ok (value ∷ values, left)) (value_tail-Spends rest)
              (λ values left _ bound. (tt, omega arith))) in
      elim (Bool-cases (is_tok Tok.comma c)) [
        | inl h ↦ ground (arith, more, h)
        | inr h ↦ ground (arith, h)
      ]

  parse_list-Spends : Progresses Any (parse_list T floats end)
  unfolding parse_list
  parse_list-Spends ts =
      Spends-then _ _ (expect_tok floats end Tok.lbracket (codes "[") ts) _
        (expect_tok-Spends floats end Tok.lbracket (codes "[") ts)
        (λ _ ts1 _ b1.
          Spends-then _ _ (parse_value T floats end ts1) _ (parse_value-Spends ts1)
            (λ value ts2 _ b2.
              Spends-then _ _ (value_tail T floats end ts2) _ (value_tail-Spends ts2)
                (λ values ts3 _ b3.
                  Spends-then _ _ (expect_tok floats end Tok.rbracket (codes "]") ts3) _
                    (expect_tok-Spends floats end Tok.rbracket (codes "]") ts3)
                    (λ _ ts4 _ b4. (tt, omega arith)))))

  length-tail : (ts : List (Spanned F)) → length (tail ts) ≤ length ts
  length-tail [] = omega arith
  length-tail (t ∷ ts) = omega arith

  negated_op-Spends :
      (ts : List (Spanned F)) → Spends Any (suc (length ts)) (negated_op T floats end ts)
  unfolding negated_op
  negated_op-Spends ts =
      let list =
        Spends-then Any (suc (length ts)) (parse_list T floats end (tail ts))
          (λ values rest. ok (Operator.not_in values, rest)) (parse_list-Spends (tail ts))
          (λ values rest _ bound. (tt, shorter floats end ts (length rest) bound)) in
      let here =
        at_here-Spends floats end (Any {A = Operator F T}) (suc (length ts)) (codes "in or exists")
          ts in
      ground (arith, list, here, length-tail ts)

  compare_op-Spends : (op : Value F T → Operator F T) → Progresses Any (compare_op T floats end op)
  compare_op-Spends op ts =
      Spends-then _ _ (parse_value T floats end ts) _ (parse_value-Spends ts)
        (λ value rest _ bound. (tt, omega arith))

  op_of-Spends :
      (k : Tok F) (t : Spanned F) (ts : List (Spanned F))
      → Spends Any (suc (length ts)) (op_of T floats end k t ts)
  unfolding op_of
  op_of-Spends Tok.eq t ts = Spends-mono _ _ (omega arith) (compare_op-Spends Operator.eq ts)
  op_of-Spends Tok.ne t ts = Spends-mono _ _ (omega arith) (compare_op-Spends Operator.ne ts)
  op_of-Spends Tok.gt t ts = Spends-mono _ _ (omega arith) (compare_op-Spends Operator.gt ts)
  op_of-Spends Tok.ge t ts = Spends-mono _ _ (omega arith) (compare_op-Spends Operator.ge ts)
  op_of-Spends Tok.lt t ts = Spends-mono _ _ (omega arith) (compare_op-Spends Operator.lt ts)
  op_of-Spends Tok.le t ts = Spends-mono _ _ (omega arith) (compare_op-Spends Operator.le ts)
  op_of-Spends Tok.matches t ts =
      Spends-then _ _ (expect_string floats end ts) _ (expect_string-Spends floats end ts)
        (λ text rest _ bound. (tt, omega arith))
  op_of-Spends Tok.not_matches t ts =
      Spends-then _ _ (expect_string floats end ts) _ (expect_string-Spends floats end ts)
        (λ text rest _ bound. (tt, omega arith))
  op_of-Spends Tok.is_in t ts =
      Spends-then _ _ (parse_list T floats end ts) _ (parse_list-Spends ts)
        (λ values rest _ bound. (tt, omega arith))
  op_of-Spends Tok.not t ts = negated_op-Spends ts
  op_of-Spends Tok.exists t ts = (tt, omega arith)
  op_of-Spends _ t ts = tt

  parse_op-Spends : Progresses Any (parse_op T floats end)
  unfolding parse_op
  parse_op-Spends [] = tt
  parse_op-Spends (t ∷ ts) = op_of-Spends t.tok t ts

  -- The parser of a predicate.
  pub parse_predicate-Spends :
      Progresses (λ query. has_empty_group query ≡ false) (parse_predicate T floats end)
  unfolding parse_predicate
  parse_predicate-Spends ts =
      Spends-then _ _ (parse_field floats end ts) _ (parse_field-Spends floats end ts)
        (λ field ts1 _ b1.
          Spends-then _ _ (parse_op T floats end ts1) _ (parse_op-Spends ts1)
            (λ op ts2 _ b2. (unfold has_empty_group in refl, omega arith)))
