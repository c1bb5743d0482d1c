-- ===== src/Prelude/Text/Decimal.antt =====
-- Decimal numbers: what `u64` prints as, and that it parses back.
use Prim.Native.Nat.{ℕ, zero, suc, ◌+◌, ◌-◌, ◌*◌, ◌/◌, ◌%◌, ◌≤◌, ◌<◌}
use mathlib.Core.Path.{◌≡◌, refl, ◌∙◌, ap, sym}
use mathlib.Core.Logic.{◌≢◌, inl, inr}
use mathlib.Core.Option.{Option, none, some}
use mathlib.Core.List.{[], ◌∷◌, ◌++◌, append_assoc}
use native.Mathlib.Omega.{arith}
use wyrd_core.Prelude.Tests.{ltb, ltb→lt, Bool-cases, if◌then◌else◌}
use wyrd_core.Prelude.Lists.{All}
use wyrd_core.Prelude.Text.{Text, u64_limit, parse_digits, parse_u64, show_from, show_u64}

abbrev pub IsDigit : ℕ → Type 0
IsDigit c = (b'0' ≤ c) × (c ≤ b'9')

abbrev pub Digits : Text → Type 0
Digits t = All IsDigit t

infixl 5 ◌then◌
abbrev ◌then◌ : Option ℕ → (ℕ → Option ℕ) → Option ℕ
none then f = none
some n then f = f n

parse_digits-append :
    (acc : ℕ) (s t : Text)
    → parse_digits acc (s ++ t) ≡ (parse_digits acc s then λ n. parse_digits n t)
unfolding parse_digits
parse_digits-append acc [] t = refl
parse_digits-append acc (c ∷ s) t = ground (arith, parse_digits-append (acc * 10 + (c - b'0')) s t)

show_from-append : (f n : ℕ) (acc : Text) → show_from f n acc ≡ show_from f n [] ++ acc
unfolding show_from
show_from-append zero n acc = refl
show_from-append (suc f) n acc = elim (Bool-cases (ltb n 10)) [
  | inl small ↦ rw small
  | inr large ↦ rw large (
      show_from-append f (n / 10) ((b'0' + n % 10) ∷ acc)
      ∙ sym (
          ap (λ t. t ++ acc) (show_from-append f (n / 10) ((b'0' + n % 10) ∷ []))
          ∙ append_assoc (show_from f (n / 10) []) ((b'0' + n % 10) ∷ []) acc))
]

one_digit :
    (acc d : ℕ)
    → d < 10
    → acc * 10 + d < u64_limit
    → parse_digits acc ((b'0' + d) ∷ []) ≡ some (acc * 10 + d)
unfolding parse_digits
one_digit acc d h k = ground arith

parse_digits-show_from :
    (f n : ℕ) → n < f → n < u64_limit → parse_digits 0 (show_from f n []) ≡ some n
unfolding show_from
parse_digits-show_from zero n h k = absurd (omega arith)
parse_digits-show_from (suc f) n h k = elim (Bool-cases (ltb n 10)) [
  | inl small ↦
      let same : 0 * 10 + n ≡ n = omega arith in
      rw small (one_digit 0 n (ltb→lt n 10 small) (omega arith) ∙ ap some same)
  | inr large ↦
      let below : n / 10 < f = ground arith in
      let shorter : n / 10 < u64_limit = omega arith in
      let whole : n / 10 * 10 + n % 10 ≡ n = omega arith in
      rw large (
        rw
          (
            show_from-append f (n / 10) ((b'0' + n % 10) ∷ []),
            parse_digits-append 0 (show_from f (n / 10) []) ((b'0' + n % 10) ∷ []),
            parse_digits-show_from f (n / 10) below shorter,
          )
          (one_digit (n / 10) (n % 10) (omega arith) (omega arith) ∙ ap some whole))
]

show_from-Digits : (f n : ℕ) (acc : Text) → n < f → Digits acc → Digits (show_from f n acc)
unfolding show_from
show_from-Digits zero n acc h d = absurd (omega arith)
show_from-Digits (suc f) n acc h d =
    ground (arith, show_from-Digits f (n / 10) ((b'0' + n % 10) ∷ acc))

pub show_u64-Digits : (n : ℕ) → Digits (show_u64 n)
unfolding show_u64
show_u64-Digits n = show_from-Digits (suc n) n [] (omega arith) tt

show_from-ne-nil : (f n : ℕ) (acc : Text) → n < f → show_from f n acc ≢ []
unfolding show_from
show_from-ne-nil zero n acc h = absurd (omega arith)
show_from-ne-nil (suc f) n acc h =
    ground (arith, show_from-ne-nil f (n / 10) ((b'0' + n % 10) ∷ acc))

pub show_u64-ne-nil : (n : ℕ) → show_u64 n ≢ []
unfolding show_u64
show_u64-ne-nil n = show_from-ne-nil (suc n) n [] (omega arith)

parse_u64-Digits : (t : Text) → t ≢ [] → Digits t → parse_u64 t ≡ parse_digits 0 t
unfolding parse_u64
parse_u64-Digits [] h d = absurd (h refl)
parse_u64-Digits (c ∷ t) h (d, _) = ground arith

-- What a `u64` prints as parses back.
pub parse_u64-show_u64 : (n : ℕ) → n < u64_limit → parse_u64 (show_u64 n) ≡ some n
unfolding show_u64
parse_u64-show_u64 n h =
    parse_u64-Digits (show_u64 n) (show_u64-ne-nil n) (show_u64-Digits n)
    ∙ parse_digits-show_from (suc n) n (omega arith) h
