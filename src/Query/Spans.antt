-- ===== src/Query/Spans.antt =====
-- crates/wyrd-spec/src/query/parse.rs: the bytes that a token takes, and its position.
use wyrd_core.Prelude.{
  ℕ, suc, ◌+◌, ◌≤◌, ◌≡◌, Bool, true, false, not, ◌||◌, Option, none, some, [], ◌∷◌, ◌++◌, Outcome,
  ok, err, panic, length, if◌then◌else◌, ◌==◌, Bool-cases, refl, arith, IsSafe, inl, inr, ◌>>=◌,
  ok_or, length-append,
}
use wyrd_core.Prelude.Int.{ℤ, pos, negsuc, parse_i64, is_negative}
use wyrd_core.Prelude.Text.{Text, codes, text_eq, is_digit}
use wyrd_core.Query.Syntax.{Tok, QueryError, invalid_syntax, Floats}
use wyrd_core.Query.Bytes.{
  Lexed, span, head_is, unescape, char_from, fraction, duration_of, unit_factor, is_alpha,
  is_ident_char,
}
use wyrd_core.Query.Lexer.{
  string_lit, ident_or_keyword, with_unit, without_unit, scan_number, number_or_duration,
}

-- Not a panic; a token leaves at most `k` bytes, and its end and the bytes left make `e`.
abbrev pub Consumes : {F : Type 0} → ℕ → ℕ → Lexed F → Type 0
Consumes k e (ok (tok, rest, at)) = (length rest ≤ k) × (at + length rest ≡ e)
Consumes k e (err x) = Unit
Consumes k e panic = ⊥

pub Consumes-mono :
    {F : Type 0} {k l e e' : ℕ} (m : Lexed F) → k ≤ l → e ≡ e' → Consumes k e m → Consumes l e' m
Consumes-mono (ok (tok, rest, at)) h eq (b, c) = (omega arith, omega arith)
Consumes-mono (err x) h eq c = tt
Consumes-mono panic h eq c = absurd c

-- A step whose outcome is not a panic.
pub Consumes-one :
    {F A : Type 0} (k e : ℕ) (m : Outcome QueryError A) (f : A → Lexed F)
    → IsSafe m
    → ((a : A) → Consumes k e (f a))
    → Consumes k e (m >>= f)
Consumes-one k e (ok a) f h next = next a
Consumes-one k e (err x) f h next = tt
Consumes-one k e panic f h next = absurd h

ok_or-IsSafe : {A : Type 0} (e : QueryError) (o : Option A) → IsSafe (ok_or e o)
ok_or-IsSafe e none = tt
ok_or-IsSafe e (some a) = tt

duration_of-IsSafe : (z : ℤ) (n start : ℕ) (shown : Text) → IsSafe (duration_of z n start shown)
unfolding duration_of
duration_of-IsSafe (pos z) n start shown = ground arith
duration_of-IsSafe (negsuc z) n start shown = tt

pub length-span : (p : ℕ → Bool) (s : Text) → length (span p s).0 + length (span p s).1 ≡ length s
unfolding span
length-span p [] = refl
length-span p (c ∷ s) = ground (arith, length-span p s)

length-fraction : (s : Text) → length (fraction s).1 + length (fraction s).2 ≡ length s
length-fraction [] = refl
length-fraction (c ∷ s) = ground (arith, length-span is_digit s)

module _ (F : Type 0) where
  escape-Consumes :
      (start c : ℕ) (s : Text) (at : ℕ) (out : Text)
      → ((e : ℕ)
          → Consumes
              (length s)
              (at + 2 + length s)
              (string_lit {F = F} start s (at + 2) (out ++ e ∷ [])))
      → Consumes (length s + 2) (at + suc (suc (length s))) (elim (unescape c) [
        | some e ↦ string_lit {F = F} start s (at + 2) (out ++ e ∷ [])
        | none ↦ err (invalid_syntax (at + 1) (codes "\" \\ n t r") (char_from c))
      ])
  escape-Consumes start c s at out h =
      elim (unescape c)
        as (λ o. Consumes (length s + 2) (at + suc (suc (length s))) (elim o [
          | some e ↦ string_lit {F = F} start s (at + 2) (out ++ e ∷ [])
          | none ↦ err (invalid_syntax (at + 1) (codes "\" \\ n t r") (char_from c))
        ])) [ some e ↦ Consumes-mono _ (omega arith) (omega arith) (h e) | none ↦ tt ]

  pub string_lit-Consumes :
      (start : ℕ) (s : Text) (at : ℕ) (out : Text)
      → Consumes (length s) (at + length s) (string_lit {F = F} start s at out)
  unfolding string_lit
  string_lit-Consumes start [] at out = tt
  string_lit-Consumes start (b ∷ []) at out = ground arith
  string_lit-Consumes start (b ∷ c ∷ s) at out =
      let plain =
        Consumes-mono {F = F} {l = suc (length (c ∷ s))} {e' = at + length (b ∷ c ∷ s)}
          (string_lit start (c ∷ s) (at + 1) (out ++ b ∷ [])) (omega arith) (omega arith)
          (string_lit-Consumes start (c ∷ s) (at + 1) (out ++ b ∷ [])) in
      let escaped =
        escape-Consumes start c s at out
          (λ e. string_lit-Consumes start s (at + 2) (out ++ e ∷ [])) in
      elim (Bool-cases (b == b'"')) [
        | inl h ↦ ground (arith, h)
        | inr h ↦ elim (Bool-cases (b == b'\\')) [
          | inl g ↦ ground (arith, h, g, escaped)
          | inr g ↦ ground (arith, h, g, plain)
        ]
      ]

  pub ident-Consumes :
      (b : ℕ) (s : Text) (at : ℕ)
      → Consumes (length s) (at + suc (length s)) (ident_or_keyword {F = F} b s at)
  unfolding ident_or_keyword
  ident-Consumes b s at = ground (arith, length-span is_ident_char s)

  with_unit-Consumes :
      (start : ℕ) (f : Bool) (number unit rest : Text)
      → Consumes
          (length rest)
          (start + (length number + length unit) + length rest)
          (with_unit {F = F} start f number unit rest)
  unfolding with_unit
  with_unit-Consumes start true number unit rest = tt
  with_unit-Consumes start false number unit rest =
      Consumes-one _ _ (ok_or (invalid_syntax start (codes "integer") number) (parse_i64 number)) _
        (ok_or-IsSafe _ (parse_i64 number))
        (λ magnitude.
          let rated =
            Consumes-one {F = F} (length rest) (start + (length number + length unit) + length rest)
              (ok_or (invalid_syntax (start + length number) (codes "duration unit") unit)
                (unit_factor unit))
              (λ factor. duration_of magnitude factor start (number ++ unit) >>= λ nanos.
                ok (Tok.duration nanos, rest, start + length (number ++ unit)))
              (ok_or-IsSafe _ (unit_factor unit))
              (λ factor.
                Consumes-one _ _ (duration_of magnitude factor start (number ++ unit)) _
                  (duration_of-IsSafe magnitude factor start (number ++ unit))
                  (λ nanos. (omega arith, omega (arith, length-append number unit)))) in
          elim (Bool-cases (is_negative magnitude)) [
            | inl h ↦ ground (arith, h)
            | inr h ↦ ground (arith, h, rated)
          ])

  without_unit-Consumes :
      (floats : Floats F) (start : ℕ) (f : Bool) (number rest : Text)
      → Consumes
          (length rest)
          (start + length number + length rest)
          (without_unit floats start f number rest)
  unfolding without_unit
  without_unit-Consumes floats start true number rest =
      Consumes-one _ _
        (ok_or (invalid_syntax start (codes "float") number) (floats.parse_f64 number)) _
        (ok_or-IsSafe _ (floats.parse_f64 number)) (λ v. (omega arith, omega arith))
  without_unit-Consumes floats start false number rest =
      let plain =
        Consumes-one {F = F} (length rest) (start + length number + length rest)
          (ok_or (invalid_syntax start (codes "integer") number) (parse_i64 number))
          (λ v. ok (Tok.int v, rest, start + length number)) (ok_or-IsSafe _ (parse_i64 number))
          (λ v. (omega arith, omega arith)) in
      elim (Bool-cases (head_is b'-' rest)) [
        | inl h ↦ ground (arith, h)
        | inr h ↦ ground (arith, h, plain)
      ]

  -- What stands behind the digits of a number.
  behind_number-Consumes :
      (floats : Floats F) (start : ℕ) (f : Bool) (number t : Text)
      → Consumes (length t) (start + length number + length t) (
          if not (text_eq (span is_alpha t).0 [])
          then with_unit start f number (span is_alpha t).0 (span is_alpha t).1
          else without_unit floats start f number t)
  behind_number-Consumes floats start f number t =
      let long =
        Consumes-mono {F = F} {l = length t} {e' = start + length number + length t}
          (with_unit start f number (span is_alpha t).0 (span is_alpha t).1)
          (omega (arith, length-span is_alpha t)) (omega (arith, length-span is_alpha t))
          (with_unit-Consumes start f number (span is_alpha t).0 (span is_alpha t).1) in
      let short = without_unit-Consumes floats start f number t in
      elim (Bool-cases (text_eq (span is_alpha t).0 [])) [
        | inl h ↦ ground (arith, h, short)
        | inr h ↦ ground (arith, h, long)
      ]

  scan_number-Consumes :
      (floats : Floats F) (start : ℕ) (sign body : Text)
      → Consumes
          (length (span is_digit body).1)
          (start + length sign + length body)
          (scan_number floats start sign body)
  unfolding scan_number
  scan_number-Consumes floats start sign body =
      let digits = (span is_digit body).0 in
      let (is_float, more, tail) = fraction (span is_digit body).1 in
      let behind = length-fraction (span is_digit body).1 in
      Consumes-mono _ (omega (arith, behind))
        (omega (
          arith,
          behind,
          length-span is_digit body,
          length-append sign (digits ++ more),
          length-append digits more,
        ))
        (behind_number-Consumes floats start is_float (sign ++ (digits ++ more)) tail)

  span-digit : (b : ℕ) (s : Text) → is_digit b ≡ true → length (span is_digit (b ∷ s)).1 ≤ length s
  unfolding span
  span-digit b s h = ground (arith, h, length-span is_digit s)

  pub number-Consumes :
      (floats : Floats F) (b : ℕ) (s : Text) (at : ℕ)
      → (b == b'-' || is_digit b) ≡ true
      → Consumes (length s) (at + suc (length s)) (number_or_duration floats (b ∷ s) at)
  unfolding number_or_duration
  number-Consumes floats b s at h =
      let signed =
        Consumes-mono {F = F} {l = length s} {e' = at + suc (length s)}
          (scan_number floats at (b'-' ∷ []) s) (omega (arith, length-span is_digit s))
          (omega arith) (scan_number-Consumes floats at (b'-' ∷ []) s) in
      elim (Bool-cases (b == b'-')) [
        | inl m ↦ ground (arith, m, signed)
        | inr m ↦
            (let bare =
                Consumes-mono {F = F} {l = length s} {e' = at + suc (length s)}
                  (scan_number floats at [] (b ∷ s)) (span-digit b s (ground (arith, h, m)))
                  (omega arith) (scan_number-Consumes floats at [] (b ∷ s)) in
              ground (arith, m, bare))
      ]
