-- ===== src/Rbac/Check/Laws.antt =====
-- crates/wyrd-runtime: when the check allows, over a set built from a list of permissions.
use wyrd_core.Prelude.{
  ℕ, ◌≤◌, ◌<◌, ◌≡◌, refl, ◌↔◌, ◌⊎◌, true, some, List, [], ◌∷◌, any, all, length, All, arith,
}
use wyrd_core.Prelude.Text.{Text, text_eq}
use wyrd_core.Rbac.Permission.{Permission, covers, from_iter}
use wyrd_core.Rbac.Permission.Sets.{contains-from_iter}
use wyrd_core.Rbac.Principal.{Principal}
use wyrd_core.Rbac.Check.{check, allow, deny, rbac, role_name, is_role_char}

-- Some permission of the list covers the one required.
abbrev pub Grants : List Permission → Permission → Type 0
Grants ps required = any (λ p. covers p required) ps ≡ true

-- A principal whose set was built from a list of permissions is allowed exactly what one of them
-- covers, and is otherwise denied with the permission required and its own identity.
pub check-from_iter :
    (I T U : Type 0) (p : Principal I T U) (ps : List Permission) (required : Permission)
    → p.effective_permissions ≡ from_iter ps
    → ((check p required ≡ allow) ↔ Grants ps required)
      × (¬ Grants ps required → check p required ≡ deny (rbac required p.id))
unfolding check
check-from_iter I T U p ps required built =
    rw built (ground (arith, contains-from_iter ps required))

abbrev pub IsRoleChar : ℕ → Type 0
IsRoleChar c = ((b'a' ≤ c) × (c ≤ b'z')) ⊎ (((b'0' ≤ c) × (c ≤ b'9')) ⊎ (c ≡ b'_'))

all_role_chars : (t : Text) → (all is_role_char t ≡ true) ↔ All IsRoleChar t
unfolding is_role_char
all_role_chars [] = (λ _. tt, λ _. refl)
all_role_chars (c ∷ t) = ground (arith, all_role_chars t)

-- A role name is accepted, unchanged, exactly when it has 1 to 64 characters, each a lower-case
-- letter, a digit or an underscore.
role_name-eq-some_iff :
    (value result : Text)
    → (role_name value ≡ some result)
      ↔ ((result ≡ value) × (0 < length value) × (length value ≤ 64) × All IsRoleChar value)
unfolding role_name text_eq
role_name-eq-some_iff [] result = ground arith
role_name-eq-some_iff (c ∷ t) result = ground (arith, all_role_chars (c ∷ t))
