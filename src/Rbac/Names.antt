-- ===== src/Rbac/Names.antt =====
-- A `match` on string literals as an ordered table of names.
use wyrd_core.Prelude.{
  ◌≡◌, Option, none, some, List, [], ◌∷◌, All, subst, sym, arith, if◌then◌else◌, Bool-cases, inl,
  inr,
}
use wyrd_core.Prelude.Text.{Text, text_eq, text_eq_iff}

unfoldable pub lookup_name {ℓ} : {A : Type ℓ} → Text → List (Text × A) → Option A
lookup_name value [] = none
lookup_name value ((name, a) ∷ rest) = if text_eq value name then some a else lookup_name value rest

-- What holds of every row holds of the row that is found.
pub lookup_name-All {ℓ κ} :
    {A : Type ℓ} (P : Text → A → Type κ) (value : Text) (table : List (Text × A)) (a : A)
    → All (λ (name, b). P name b) table
    → lookup_name value table ≡ some a
    → P value a
unfolding lookup_name
lookup_name-All P value [] a h e = cc
lookup_name-All P value ((name, b) ∷ rest) a (p, h) e = elim (Bool-cases (text_eq value name)) [
  | inl same ↦
      let value_name = (text_eq_iff value name).0 same in
      let found : b ≡ a = ground arith in
      subst (λ x. P value x) found (subst (λ n. P n b) (sym value_name) p)
  | inr other ↦ lookup_name-All P value rest a h (rw (other, lookup_name) at e)
]
