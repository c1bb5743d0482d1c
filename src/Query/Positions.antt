-- ===== src/Query/Positions.antt =====
-- crates/wyrd-spec/src/query/parse.rs: the tokens of an input and their offsets.
use wyrd_core.Prelude.{
  ℕ, zero, suc, ◌+◌, ◌<◌, ◌≤◌, ◌≡◌, Bool, true, false, ◌&&◌, ◌||◌, List, [], ◌∷◌, Outcome, ok, err,
  panic, length, if◌then◌else◌, ◌==◌, refl, subst, arith, ◌>>=◌,
}
use wyrd_core.Prelude.Text.{Text, is_digit}
use wyrd_core.Query.Syntax.{Tok, Spanned, QueryError, Floats}
use wyrd_core.Query.Bytes.{Lexed, span, head_is, rest_of, is_space, is_alpha}
use wyrd_core.Query.Lexer.{string_lit, one_or_two, next_token, lex_from, lex}
use wyrd_core.Query.Spans.{
  Consumes, Consumes-mono, length-span, string_lit-Consumes, ident-Consumes, number-Consumes,
}

-- Offsets that ascend from `lo` on and stay below `hi`.
abbrev pub Ascending : {F : Type 0} → ℕ → ℕ → List (Spanned F) → Type 0
Ascending lo hi [] = Unit
Ascending lo hi (t ∷ ts) = (lo ≤ t.offset) × (t.offset < hi) × Ascending (suc t.offset) hi ts

-- Not a panic; tokens have ascending offsets.
abbrev pub Positioned : {F : Type 0} → ℕ → ℕ → Outcome QueryError (List (Spanned F)) → Type 0
Positioned lo hi (ok tokens) = Ascending lo hi tokens
Positioned lo hi (err e) = Unit
Positioned lo hi panic = ⊥

module _ (F : Type 0) where
  Consumes-if :
      (k e : ℕ) (x y : Lexed F) (b : Bool)
      → (b ≡ true → Consumes k e x)
      → Consumes k e y
      → Consumes k e (if b then x else y)
  Consumes-if k e x y true h g = h refl
  Consumes-if k e x y false h g = g

  one_or_two-Consumes :
      (c : ℕ) (s : Text) (at : ℕ) (two one : Tok F)
      → Consumes (length s) (at + suc (length s)) (one_or_two c s at two one)
  unfolding one_or_two
  one_or_two-Consumes c [] at two one = ground arith
  one_or_two-Consumes c (b ∷ s) at two one = ground arith

  bang-Consumes :
      (c : ℕ) (s : Text) (at : ℕ) (k : Tok F)
      → head_is c s ≡ true
      → Consumes (length s) (at + suc (length s)) (ok (k, rest_of s, at + 2))
  bang-Consumes c [] at k h = ground arith
  bang-Consumes c (b ∷ s) at k h = (omega arith, omega arith)

  next_token-Consumes :
      (floats : Floats F) (b : ℕ) (s : Text) (at : ℕ)
      → Consumes (length s) (at + suc (length s)) (next_token floats b s at)
  unfolding next_token
  next_token-Consumes floats b s at =
      let one : (length s ≤ length s) × (at + 1 + length s ≡ at + suc (length s)) =
        (omega arith, omega arith) in
      Consumes-if _ _ _ _ (b == b'(') (λ _. one)
        (Consumes-if _ _ _ _ (b == b')') (λ _. one)
          (Consumes-if _ _ _ _ (b == b'[') (λ _. one)
            (Consumes-if _ _ _ _ (b == b']') (λ _. one)
              (Consumes-if _ _ _ _ (b == b',') (λ _. one)
                (Consumes-if _ _ _ _ (b == b'.') (λ _. one)
                  (Consumes-if _ _ _ _ (b == b'=')
                    (λ _. one_or_two-Consumes b'~' s at Tok.matches Tok.eq)
                    (Consumes-if _ _ _ _ (b == b'!' && head_is b'=' s)
                      (λ h. bang-Consumes b'=' s at Tok.ne (ground (arith, h)))
                      (Consumes-if _ _ _ _ (b == b'!' && head_is b'~' s)
                        (λ h. bang-Consumes b'~' s at Tok.not_matches (ground (arith, h)))
                        (Consumes-if _ _ _ _ (b == b'>')
                          (λ _. one_or_two-Consumes b'=' s at Tok.ge Tok.gt)
                          (Consumes-if _ _ _ _ (b == b'<')
                            (λ _. one_or_two-Consumes b'=' s at Tok.le Tok.lt)
                            (Consumes-if _ _ _ _ (b == b'"')
                              (λ _.
                                Consumes-mono (string_lit at s (at + 1) []) (omega arith)
                                  (omega arith) (string_lit-Consumes F at s (at + 1) []))
                              (Consumes-if _ _ _ _ (b == b'-' || is_digit b)
                                (λ h. number-Consumes F floats b s at h)
                                (Consumes-if _ _ _ _ (is_alpha b || b == b'_')
                                  (λ _. ident-Consumes F b s at) tt)))))))))))))

  Ascending-weaken :
      (lo lo' hi : ℕ) (ts : List (Spanned F)) → lo ≤ lo' → Ascending lo' hi ts → Ascending lo hi ts
  Ascending-weaken lo lo' hi [] h a = tt
  Ascending-weaken lo lo' hi (t ∷ ts) h (l, b, more) = (omega arith, b, more)

  cons-Positioned :
      (tok : Tok F) (start lo at hi : ℕ) (m : Outcome QueryError (List (Spanned F)))
      → lo ≤ start
      → start < at
      → start < hi
      → Positioned at hi m
      → Positioned lo hi (m >>= λ tokens. ok (record { tok = tok; offset = start } ∷ tokens))
  cons-Positioned tok start lo at hi (ok tokens) h a b more =
      (h, b, Ascending-weaken (suc start) at hi tokens a more)
  cons-Positioned tok start lo at hi (err e) h a b more = tt
  cons-Positioned tok start lo at hi panic h a b more = absurd more

  token-Positioned :
      (start lo k hi : ℕ) (m : Lexed F) (next : Text → ℕ → Outcome QueryError (List (Spanned F)))
      → start + suc k ≡ hi
      → lo ≤ start
      → Consumes k (start + suc k) m
      → ((rest : Text) (at : ℕ) → length rest ≤ k → Positioned at (at + length rest) (next rest at))
      → Positioned lo hi (
          m >>= λ (tok, rest, at).
          next rest at >>= λ tokens. ok (record { tok = tok; offset = start } ∷ tokens))
  token-Positioned start lo k hi (ok (tok, rest, at)) next end h (b, e) ih =
      cons-Positioned tok start lo at hi (next rest at) h (omega arith) (omega arith)
        (subst (λ n. Positioned at n (next rest at)) (omega arith) (ih rest at b))
  token-Positioned start lo k hi (err x) next end h c ih = tt
  token-Positioned start lo k hi panic next end h c ih = absurd c

  lex_step-Positioned :
      (floats : Floats F) (fuel : ℕ)
      → ((s : Text) (at : ℕ)
          → length s < fuel
          → Positioned at (at + length s) (lex_from fuel floats s at))
      → (rest : Text) (start lo hi : ℕ) → length rest ≤ fuel
      → start + length rest ≡ hi
      → lo ≤ start
      → Positioned lo hi (elim rest [
        | [] ↦ ok []
        | b ∷ behind ↦ next_token floats b behind start >>= λ (tok, rest', at').
            lex_from fuel floats rest' at' >>= λ tokens.
            ok (record { tok = tok; offset = start } ∷ tokens)
      ])
  lex_step-Positioned floats fuel ih [] start lo hi h e l = tt
  lex_step-Positioned floats fuel ih (b ∷ behind) start lo hi h e l =
      token-Positioned start lo (length behind) hi (next_token floats b behind start)
        (lex_from fuel floats) e l (next_token-Consumes floats b behind start)
        (λ rest' at' bound. ih rest' at' (omega arith))

  lex_from-Positioned :
      (floats : Floats F) (fuel : ℕ) (s : Text) (at : ℕ)
      → length s < fuel
      → Positioned at (at + length s) (lex_from fuel floats s at)
  unfolding lex_from
  lex_from-Positioned floats zero s at h = absurd (omega arith)
  lex_from-Positioned floats (suc fuel) s at h =
      let cut = length-span is_space s in
      lex_step-Positioned floats fuel (lex_from-Positioned floats fuel) (span is_space s).1
        (at + length (span is_space s).0) at (at + length s) (omega (arith, cut))
        (omega (arith, cut)) (omega arith)

  -- The offsets of the tokens of an input ascend and stay inside the input.
  pub lex-Positioned : (floats : Floats F) (s : Text) → Positioned 0 (length s) (lex floats s)
  unfolding lex
  lex-Positioned floats s =
      subst (λ n. Positioned 0 n (lex_from (suc (length s)) floats s 0)) (omega arith)
        (lex_from-Positioned floats (suc (length s)) s 0 (omega arith))
