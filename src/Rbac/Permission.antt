-- ===== src/Rbac/Permission.antt =====
-- crates/wyrd-runtime/src/permission.rs: permissions, their wire form, and permission sets.
pub mod Sets
pub mod Wire
use wyrd_core.Prelude.{
  ℕ, ◌≡◌, refl, not, Bool, true, false, ◌&&◌, ◌||◌, Option, none, some, List, [], ◌∷◌, ◌++◌, ◌==◌,
  arith, if◌then◌else◌, any, Outcome, ok, err, panic, ◌>>=◌, ok_or, length,
}
use wyrd_core.Prelude.Text.{Text, codes}
use wyrd_core.Rbac.Resource
use wyrd_core.Rbac.Resource.{Resource, resource_covers, resource_as_str, parse_resource}
use wyrd_core.Rbac.Action
use wyrd_core.Rbac.Action.{Action, action_covers, action_as_str, parse_action}

pub record Permission : Type 0 where
  pub resource : Resource
  pub action : Action

abbrev pub permission : Resource → Action → Permission
permission r a = record { resource = r; action = a }

-- `Permission::covers`.
unfoldable pub covers : Permission → Permission → Bool
covers held required =
    resource_covers held.resource required.resource && action_covers held.action required.action

-- The constructors that name one permission each.
abbrev pub card_read : Permission
card_read = permission Resource.cards Action.read

abbrev pub card_write : Permission
card_write = permission Resource.cards Action.write

abbrev pub artifact_read : Permission
artifact_read = permission Resource.artifacts Action.read

abbrev pub artifact_write : Permission
artifact_write = permission Resource.artifacts Action.write

abbrev pub service_accounts_write : Permission
service_accounts_write = permission Resource.service_accounts Action.write

abbrev pub operator_invoke : Permission
operator_invoke = permission Resource.operators Action.invoke

abbrev pub eval_run : Permission
eval_run = permission Resource.evals Action.run

abbrev pub trigger_write : Permission
trigger_write = permission Resource.triggers Action.write

abbrev pub audit_read : Permission
audit_read = permission Resource.audit Action.read

abbrev pub delegation_issue : Permission
delegation_issue = permission Resource.delegation Action.issue

abbrev pub wildcard_permission : Permission
wildcard_permission = permission Resource.wildcard Action.wildcard

-- `Display`: a list on either side is a formatting error.
unfoldable pub show_permission : Permission → Option Text
show_permission p = elim (resource_as_str p.resource) [
  | none ↦ none
  | some resource ↦ elim (action_as_str p.action) [
    | none ↦ none
    | some action ↦ some (resource ++ (b':' ∷ action))
  ]
]

-- `str::split_once(char)`.
unfoldable pub split_once : ℕ → Text → Option (Text × Text)
split_once d [] = none
split_once d (c ∷ s) =
    let rest = split_once d s in
    if c == d then some ([], s) else elim rest [ none ↦ none | some (a, b) ↦ some (c ∷ a, b) ]

-- `PermissionParseError`.
pub data ParseError : Type 0 where
  parse_error : ParseError

-- `FromStr`.
unfoldable pub parse_permission : Text → Outcome ParseError Permission
parse_permission value = elim (split_once b':' value) [
  | none ↦ err parse_error
  | some (resource, action) ↦ ok_or parse_error (parse_resource resource) >>= λ r.
      ok_or parse_error (parse_action action) >>= λ a. ok (permission r a)
]

-- The stored vector of a `PermissionSet`.
abbrev pub PermissionSet : Type 0
PermissionSet = List Permission

-- `Vec::retain` with the test that no stored permission is covered by the new one.
unfoldable pub retain : Permission → PermissionSet → PermissionSet
retain p [] = []
retain p (q ∷ rest) = let kept = retain p rest in if not (covers p q) then q ∷ kept else kept

unfoldable pub insert : PermissionSet → Permission → PermissionSet
insert set p = if any (λ q. covers q p) set then set else retain p set ++ (p ∷ [])

unfoldable pub contains : PermissionSet → Permission → Bool
contains set required = any (λ p. covers p required) set

from_list : PermissionSet → List Permission → PermissionSet
from_list set [] = set
from_list set (p ∷ rest) = from_list (insert set p) rest

-- `FromIterator`: the inserts, from the empty set.
unfoldable pub from_iter : List Permission → PermissionSet
unfolding from_list
from_iter permissions = from_list [] permissions
