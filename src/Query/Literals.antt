-- ===== src/Query/Literals.antt =====
-- crates/wyrd-spec/src/query/parse.rs: string literals, written by `escape_string` and read by
-- `string_lit`.
use wyrd_core.Prelude.{
  ℕ, ◌+◌, ◌≡◌, false, none, some, List, [], ◌∷◌, ◌++◌, ok, err, length, ◌==◌, Bool-cases, refl, ap,
  subst, sym, arith, inl, inr, length-append, append_assoc, append-nil,
}
use wyrd_core.Prelude.Text.{Text, codes}
use wyrd_core.Query.Syntax.{Tok, invalid_syntax}
use wyrd_core.Query.Bytes.{unescape, char_from}
use wyrd_core.Query.Lexer.{string_lit}
use wyrd_core.Query.Tokens.{escape_char, escape_string}

-- A list with something behind it is not empty.
append-cons :
    {A : Type 0} (xs : List A) (y : A) (ys : List A)
    → (d : A) × (s : List A) × ((xs ++ (y ∷ ys)) ≡ d ∷ s)
append-cons [] y ys = (y, ys, refl)
append-cons (x ∷ xs) y ys = (x, xs ++ (y ∷ ys), refl)

module _ (F : Type 0) (start : ℕ) where
  -- A byte that stands for itself.
  string_lit-plain :
      (c d : ℕ) (s : Text) (at : ℕ) (out : Text)
      → (c == b'"') ≡ false
      → (c == b'\\') ≡ false
      → string_lit {F = F} start (c ∷ d ∷ s) at out
        ≡ string_lit start (d ∷ s) (at + 1) (out ++ c ∷ [])
  unfolding string_lit
  string_lit-plain c d s at out h g = ground (arith, h, g)

  string_lit-escape :
      (e c : ℕ) (s : Text) (at : ℕ) (out : Text)
      → unescape e ≡ some c
      → string_lit {F = F} start (b'\\' ∷ e ∷ s) at out
        ≡ string_lit start s (at + 2) (out ++ c ∷ [])
  unfolding string_lit
  string_lit-escape e c s at out h =
      ap
        (λ o. elim o [
          | some c' ↦ string_lit {F = F} start s (at + 2) (out ++ c' ∷ [])
          | none ↦ err (invalid_syntax (at + 1) (codes "\" \\ n t r") (char_from e))
        ])
        h

  string_lit-close :
      (rest : Text) (at : ℕ) (out : Text)
      → string_lit {F = F} start (b'"' ∷ rest) at out ≡ ok (Tok.str out, rest, at + 1)
  unfolding string_lit
  string_lit-close [] at out = refl
  string_lit-close (c ∷ s) at out = refl

  escape_char-string_lit :
      (c d : ℕ) (s : Text) (at : ℕ) (out : Text)
      → string_lit {F = F} start (escape_char c ++ (d ∷ s)) at out
        ≡ string_lit start (d ∷ s) (at + length (escape_char c)) (out ++ c ∷ [])
  escape_char-string_lit c d s at out = elim (Bool-cases (c == b'"')) [
    | inl h ↦ ground (arith, h, string_lit-escape b'"' b'"' (d ∷ s) at out refl)
    | inr h ↦ elim (Bool-cases (c == b'\\')) [
      | inl g ↦ ground (arith, h, g, string_lit-escape b'\\' b'\\' (d ∷ s) at out refl)
      | inr g ↦ ground (
        arith,
        h,
        g,
        string_lit-plain c d s at out h g,
        string_lit-escape b'n' 10 (d ∷ s) at out refl,
        string_lit-escape b't' 9 (d ∷ s) at out refl,
        string_lit-escape b'r' 13 (d ∷ s) at out refl,
      )
    ]
  ]

  -- The literal that `escape_string` writes is read back, with the position behind it.
  pub string_lit-escape_string :
      (v rest : Text) (at : ℕ) (out : Text)
      → string_lit {F = F} start (escape_string v ++ (b'"' ∷ rest)) at out
        ≡ ok (Tok.str (out ++ v), rest, at + length (escape_string v) + 1)
  unfolding escape_string
  string_lit-escape_string [] rest at out =
      let end : at + 1 ≡ at + 0 + 1 = omega arith in
      let blank = append-nil out in let close = string_lit-close rest at out in cc
  string_lit-escape_string (c ∷ v) rest at out =
      let (d, s, split) = append-cons (escape_string v) b'"' rest in
      let assoc = append_assoc (escape_char c) (escape_string v) (b'"' ∷ rest) in
      let read =
        subst
          (λ t.
            string_lit {F = F} start (escape_char c ++ t) at out
            ≡ string_lit start t (at + length (escape_char c)) (out ++ c ∷ []))
          (sym split) (escape_char-string_lit c d s at out) in
      let more = string_lit-escape_string v rest (at + length (escape_char c)) (out ++ c ∷ []) in
      let joined = append_assoc out (c ∷ []) v in
      let end : at + length (escape_char c) + length (escape_string v) + 1
          ≡ at + length (escape_char c ++ escape_string v) + 1 =
        omega (arith, length-append (escape_char c) (escape_string v)) in
      cc
