-- ===== src/Query/Fields.antt =====
-- crates/wyrd-spec/src/query/parse.rs: how the parsers of keys and fields use their tokens.
use wyrd_core.Prelude.{
  ℕ, suc, ◌<◌, ◌≡◌, true, false, List, [], ◌∷◌, ◌++◌, tail, ok, err, panic, length, Bool-cases,
  arith, IsSafe, inl, inr,
}
use wyrd_core.Prelude.Text.{Text, codes}
use wyrd_core.Query.Syntax.{FieldRef, Tok, Spanned, Floats}
use wyrd_core.Query.Tokens.{
  next_is, is_tok, expect_tok, key_segment, key_tail, parse_key_path, named_field, parse_field,
  namespaced, expect_string, is_namespace, at_here, segment_of, field_of, string_of,
}
use wyrd_core.Query.Spends.{Spends, Any, Progresses, Spends-then, Spends-mono, Spends-one}

namespaced-IsSafe : (name key : Text) → is_namespace name ≡ true → IsSafe (namespaced name key)
unfolding namespaced
namespaced-IsSafe name key h = ground (arith, h)

module _ {F : Type 0} (floats : Floats F) (end : ℕ) where
  segment_of-IsSafe : (k : Tok F) (t : Spanned F) → IsSafe (segment_of floats end k t)
  unfolding segment_of
  segment_of-IsSafe (Tok.ident value) t = tt
  segment_of-IsSafe (Tok.bool true) t = tt
  segment_of-IsSafe (Tok.bool false) t = tt
  segment_of-IsSafe _ t = tt

  string_of-IsSafe : (k : Tok F) (t : Spanned F) → IsSafe (string_of floats end k t)
  unfolding string_of
  string_of-IsSafe (Tok.str value) t = tt
  string_of-IsSafe _ t = tt

  pub expect_tok-Spends :
      (k : Tok F) (e : Text) (ts : List (Spanned F))
      → Spends Any (length ts) (expect_tok floats end k e ts)
  unfolding expect_tok
  expect_tok-Spends k e [] = tt
  expect_tok-Spends k e (t ∷ ts) = ground arith

  pub expect_string-Spends : Progresses Any (expect_string floats end)
  unfolding expect_string
  expect_string-Spends [] = tt
  expect_string-Spends (t ∷ ts) =
      Spends-one _ _ (string_of floats end t.tok t) (λ value. ok (value, ts))
        (string_of-IsSafe t.tok t) (λ value. (tt, omega arith))

  key_tail-Spends :
      (key : Text) (ts : List (Spanned F))
      → Spends Any (suc (length ts)) (key_tail floats end key ts)
  unfolding key_tail
  key_tail-Spends key [] = (tt, omega arith)
  key_tail-Spends key (d ∷ []) = ground arith
  key_tail-Spends key (d ∷ s ∷ rest) =
      let more : Spends Any (suc (length (d ∷ s ∷ rest))) (elim (key_segment floats end s) [
        | ok segment ↦ key_tail floats end (key ++ (b'.' ∷ segment)) rest
        | err e ↦ err e
        | panic ↦ panic
      ]) =
        Spends-one _ _ (key_segment floats end s)
          (λ segment. key_tail floats end (key ++ (b'.' ∷ segment)) rest)
          (unfold key_segment in segment_of-IsSafe s.tok s)
          (λ segment.
            Spends-mono _ _ (omega arith) (key_tail-Spends (key ++ (b'.' ∷ segment)) rest)) in
      elim (Bool-cases (is_tok Tok.dot d)) [
        | inl h ↦ ground (arith, more, h)
        | inr h ↦ ground (arith, h)
      ]

  parse_key_path-Spends : Progresses Any (parse_key_path floats end)
  unfolding parse_key_path
  parse_key_path-Spends [] = tt
  parse_key_path-Spends (t ∷ ts) =
      Spends-one _ _ (key_segment floats end t) (λ segment. key_tail floats end segment ts)
        (unfold key_segment in segment_of-IsSafe t.tok t) (λ segment. key_tail-Spends segment ts)

  pub shorter : (ts : List (Spanned F)) (n : ℕ) → n < length (tail ts) → n < suc (length ts)
  shorter [] n h = omega arith
  shorter (t ∷ ts) n h = omega arith

  pub at_here-Spends :
      {A : Type 0} (P : A → Type 0) (n : ℕ) (e : Text) (ts : List (Spanned F))
      → Spends {F = F} P n (at_here floats end e ts)
  at_here-Spends P n e [] = tt
  at_here-Spends P n e (t ∷ ts) = tt

  key_field-Spends :
      (name : Text) (ts : List (Spanned F))
      → is_namespace name ≡ true
      → Spends Any (suc (length ts)) (elim (parse_key_path floats end (tail ts)) [
        | ok (key, rest) ↦ elim (namespaced name key) [
          | ok field ↦ ok (field, rest)
          | err e ↦ err e
          | panic ↦ panic
        ]
        | err e ↦ err e
        | panic ↦ panic
      ])
  key_field-Spends name ts h =
      Spends-then _ _ (parse_key_path floats end (tail ts))
        (λ key rest. elim (namespaced name key) [
          | ok field ↦ ok (field, rest)
          | err e ↦ err e
          | panic ↦ panic
        ])
        (parse_key_path-Spends (tail ts))
        (λ key rest _ bound.
          Spends-one _ _ (namespaced name key) (λ field. ok (field, rest))
            (namespaced-IsSafe name key h) (λ field. (tt, shorter ts (length rest) bound)))

  named_field-Spends :
      (name : Text) (ts : List (Spanned F))
      → Spends Any (suc (length ts)) (named_field floats end name ts)
  unfolding named_field
  named_field-Spends name ts = elim (Bool-cases (is_namespace name)) [
    | inl h ↦ elim (Bool-cases (next_is Tok.dot ts)) [
      | inl d ↦ ground (arith, h, d, key_field-Spends name ts h)
      | inr d ↦ ground (arith, h, d)
    ]
    | inr h ↦ elim (Bool-cases (next_is Tok.dot ts)) [
      | inl d ↦
          ground (
            arith,
            h,
            d,
            at_here-Spends (Any {A = FieldRef}) (suc (length ts)) (codes "operator") ts,
          )
      | inr d ↦ ground (arith, h, d)
    ]
  ]

  field_of-Spends :
      (k : Tok F) (t : Spanned F) (ts : List (Spanned F))
      → Spends Any (suc (length ts)) (field_of floats end k t ts)
  unfolding field_of
  field_of-Spends (Tok.ident name) t ts = named_field-Spends name ts
  field_of-Spends _ t ts = tt

  pub parse_field-Spends : Progresses Any (parse_field floats end)
  unfolding parse_field
  parse_field-Spends [] = tt
  parse_field-Spends (t ∷ ts) = field_of-Spends t.tok t ts
