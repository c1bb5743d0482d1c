-- ===== src/Rbac/Check.antt =====
-- crates/wyrd-runtime/src/permission_check.rs, builtin_roles.rs and principal.rs: the permission
-- check, the builtin roles and role names.
pub mod Laws
use wyrd_core.Prelude.{
  ℕ, ◌≡◌, refl, Bool, true, false, ◌&&◌, ◌||◌, not, List, [], ◌∷◌, all, length, leb, ltb, ◌==◌,
  if◌then◌else◌, Option, none, some,
}
use wyrd_core.Prelude.Text.{Text, codes, text_eq}
use wyrd_core.Rbac.Principal.{Principal}
use wyrd_core.Rbac.Permission.{
  Permission, PermissionSet, contains, from_iter, card_read, card_write, artifact_read,
  artifact_write, service_accounts_write, operator_invoke, eval_run, trigger_write, audit_read,
  delegation_issue, wildcard_permission,
}

pub data PermissionDenyReason (PrincipalId : Type 0) : Type 0 where
  rbac : Permission → PrincipalId → PermissionDenyReason PrincipalId

pub data PermissionVerdict (PrincipalId : Type 0) : Type 0 where
  allow : PermissionVerdict PrincipalId
  deny : PermissionDenyReason PrincipalId → PermissionVerdict PrincipalId

-- `RbacCheck::check`.
unfoldable pub check :
    {PrincipalId T U : Type 0}
    → Principal PrincipalId T U
    → Permission
    → PermissionVerdict PrincipalId
check principal permission =
    if contains principal.effective_permissions permission
    then allow
    else deny (rbac permission principal.id)

pub record BuiltinRole : Type 0 where
  pub name : Text
  pub permissions : List Permission

abbrev pub builtin_roles : List BuiltinRole
builtin_roles =
    record { name = codes "admin"; permissions = wildcard_permission ∷ [] }
    ∷ record {
      name = codes "writer";
      permissions =
          card_read ∷ card_write ∷ artifact_read ∷ artifact_write ∷ operator_invoke ∷ eval_run
          ∷ trigger_write ∷ [];
    }
    ∷ record { name = codes "reader"; permissions = card_read ∷ artifact_read ∷ audit_read ∷ [] }
    ∷ record {
      name = codes "agent";
      permissions =
          card_read ∷ card_write ∷ artifact_read ∷ artifact_write ∷ operator_invoke ∷ eval_run ∷ [];
    }
    ∷ record {
      name = codes "runtime_admin";
      permissions = service_accounts_write ∷ delegation_issue ∷ [];
    }
    ∷ []

-- `InvalidRoleName`.
unfoldable pub is_role_char : ℕ → Bool
is_role_char c = (leb b'a' c && leb c b'z') || (leb b'0' c && leb c b'9') || c == b'_'

-- `RoleRef::new`; a role name that passes is ASCII, so its length in bytes is its length.
unfoldable pub role_name : Text → Option Text
role_name value =
    if text_eq value [] || ltb 64 (length value) || not (all is_role_char value)
    then none
    else some value
