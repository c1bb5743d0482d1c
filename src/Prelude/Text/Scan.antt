-- ===== src/Prelude/Text/Scan.antt =====
-- Searching, trimming and splitting a text.
use Prim.Native.Nat.{ℕ}
use mathlib.Core.Path.{◌≡◌, refl, ◌∙◌, ap}
use mathlib.Core.Logic.{◌≢◌, inl, inr}
use mathlib.Core.Bool.{false}
use mathlib.Core.List.{List, [], ◌∷◌, ◌++◌, reverse, reverse-reverse}
use native.Mathlib.Omega.{arith}
use wyrd_core.Prelude.Tests.{Bool-cases, ◌==◌}
use wyrd_core.Prelude.Lists.{All, All-reverse}
use wyrd_core.Prelude.Text.{
  Text, contains, is_whitespace, trim_start, trim, split, push_head, text_eq, text_eq_iff,
}

pub text_eq-ne : (s t : Text) → s ≢ t → text_eq s t ≡ false
text_eq-ne s t h = elim (Bool-cases (text_eq s t)) [
  | inl e ↦ absurd (h ((text_eq_iff s t).0 e))
  | inr e ↦ e
]

-- `t` does not hold `c`.
abbrev pub Lacks : ℕ → Text → Type 0
Lacks c t = All (λ a. a ≢ c) t

pub contains-Lacks : (c : ℕ) (t : Text) → Lacks c t → contains t c ≡ false
unfolding contains
contains-Lacks c [] h = refl
contains-Lacks c (a ∷ t) (h, k) = ground (arith, contains-Lacks c t k)

abbrev pub NoSpace : Text → Type 0
NoSpace t = All (λ c. is_whitespace c ≡ false) t

trim_start-NoSpace : (t : Text) → NoSpace t → trim_start t ≡ t
unfolding trim_start
trim_start-NoSpace [] h = refl
trim_start-NoSpace (c ∷ t) (h, _) = rw h

pub trim-NoSpace : (t : Text) → NoSpace t → trim t ≡ t
unfolding trim
trim-NoSpace t h =
    ap (λ u. reverse (trim_start (reverse u))) (trim_start-NoSpace t h)
    ∙ ap reverse (trim_start-NoSpace (reverse t) (All-reverse _ t h))
    ∙ reverse-reverse t

pub split-Lacks : (d : ℕ) (t : Text) → Lacks d t → split d t ≡ t ∷ []
unfolding split
split-Lacks d [] h = refl
split-Lacks d (c ∷ t) (h, k) = ground (arith, split-Lacks d t k)

pub split-append : (d : ℕ) (w t : Text) → Lacks d w → split d (w ++ d ∷ t) ≡ w ∷ split d t
unfolding split
split-append d [] t h = ground arith
split-append d (c ∷ w) t (h, k) = ground (arith, split-append d w t k)

-- The parts with the separator between them.
abbrev pub join : ℕ → List Text → Text
join d [] = []
join d (w ∷ []) = w
join d (w ∷ v ∷ ws) = w ++ d ∷ join d (v ∷ ws)

join-push_head : (d c : ℕ) (ws : List Text) → join d (push_head c ws) ≡ c ∷ join d ws
unfolding push_head
join-push_head d c [] = refl
join-push_head d c (w ∷ []) = refl
join-push_head d c (w ∷ v ∷ ws) = refl

join-empty_push_head :
    (d c : ℕ) (ws : List Text) → join d ([] ∷ push_head c ws) ≡ d ∷ join d (push_head c ws)
unfolding push_head
join-empty_push_head d c [] = refl
join-empty_push_head d c (w ∷ ws) = refl

join-empty : (d : ℕ) (s : Text) → join d ([] ∷ split d s) ≡ d ∷ join d (split d s)
unfolding split push_head
join-empty d [] = refl
join-empty d (c ∷ s) = elim (Bool-cases (c == d)) [
  | inl here ↦ rw here refl
  | inr there ↦ rw there (join-empty_push_head d c (split d s))
]

pub join-split : (d : ℕ) (s : Text) → join d (split d s) ≡ s
unfolding split
join-split d [] = refl
join-split d (c ∷ s) = elim (Bool-cases (c == d)) [
  | inl here ↦ ground (arith, here, join-empty d s, join-split d s)
  | inr there ↦ ground (arith, there, join-push_head d c (split d s), join-split d s)
]
