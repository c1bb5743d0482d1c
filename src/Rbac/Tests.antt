-- ===== src/Rbac/Tests.antt =====
-- Runs of the model, and the theorems of this component at concrete inputs.
use wyrd_core.Prelude.{ℕ, ◌≡◌, refl, ◌↔◌, false, true, ◌++◌, some, [], ◌∷◌, any, ok}
use wyrd_core.Prelude.Text.{codes, text_eq}
use wyrd_core.Rbac.Names.{lookup_name}
use wyrd_core.Rbac.Resource
use wyrd_core.Rbac.Resource.{
  Resource, resource_eq, resource_covers, resource_as_str, parse_resource,
}
use wyrd_core.Rbac.Action
use wyrd_core.Rbac.Action.{action_eq, action_as_str, parse_action, action_covers}
use wyrd_core.Rbac.Permission.{
  Permission, permission, covers, show_permission, parse_permission, split_once, insert, retain,
  contains, from_iter, card_read, card_write, wildcard_permission,
}
use wyrd_core.Rbac.Permission.Sets.{contains-from_iter, from_iter-IsNeeded, contains-insert_any_of}
use wyrd_core.Rbac.Permission.Wire.{parse-show, show-parse}
use wyrd_core.Rbac.Check.{check, allow, deny, rbac}
use wyrd_core.Rbac.Principal.{Principal, user}
use wyrd_core.Rbac.Check.Laws.{Grants, check-from_iter}

-- `permission_set_subsumption_drops_redundant`.
subsumption : insert (insert [] card_read) wildcard_permission ≡ wildcard_permission ∷ []
unfolding insert retain covers resource_covers action_covers resource_eq action_eq
subsumption = refl

parses_card_write : parse_permission (codes "cards:write") ≡ ok card_write
unfolding parse_permission split_once parse_resource parse_action lookup_name text_eq
parses_card_write = refl

contains-from_iter_example :
    contains (from_iter (card_read ∷ card_write ∷ [])) card_write
    ≡ any (λ p. covers p card_write) (card_read ∷ card_write ∷ [])
contains-from_iter_example = contains-from_iter (card_read ∷ card_write ∷ []) card_write

from_iter-IsNeeded_example :
    (contains (from_iter (card_read ∷ card_write ∷ card_read ∷ [])) card_write ≡ true)
    × (contains (card_read ∷ []) card_write ≡ false)
from_iter-IsNeeded_example =
    from_iter-IsNeeded (card_read ∷ card_write ∷ card_read ∷ []) (card_read ∷ []) [] card_write
      (unfold from_iter insert retain covers resource_covers action_covers resource_eq action_eq in
        refl)
      (unfold covers resource_covers action_covers resource_eq action_eq in refl)

parse-show_example : parse_permission (codes "cards:write") ≡ ok card_write
parse-show_example =
    parse-show card_write (codes "cards:write")
      (unfold show_permission resource_as_str action_as_str in refl)

show-parse_example : show_permission card_write ≡ some (codes "cards:write")
show-parse_example =
    show-parse (codes "cards:write") card_write
      (unfold parse_permission split_once parse_resource parse_action lookup_name text_eq in refl)

abbrev two_resources : Resource.Resources
two_resources = Resource.cons Resource.operators (Resource.cons Resource.evals Resource.nil)

abbrev invoke_two : Permission
invoke_two = permission (Resource.any_of two_resources) Action.invoke

contains-insert_any_of_example :
    (contains (insert (card_read ∷ []) invoke_two) invoke_two ≡ false)
    × (insert (insert (card_read ∷ []) invoke_two) invoke_two
        ≡ retain invoke_two (retain invoke_two (card_read ∷ [])) ++ invoke_two ∷ invoke_two ∷ [])
contains-insert_any_of_example =
    contains-insert_any_of (card_read ∷ []) two_resources Action.invoke
      (unfold resource_covers resource_eq in refl)
      (unfold contains covers resource_covers action_covers resource_eq action_eq in refl)

abbrev reader : Principal ℕ ℕ ℕ
reader = record {
  id = 7;
  kind = user;
  tenant_id = 1;
  roles = codes "reader" ∷ [];
  effective_permissions = from_iter (card_read ∷ []);
}

check-from_iter_example :
    ((check reader card_write ≡ allow) ↔ Grants (card_read ∷ []) card_write)
    × (¬ Grants (card_read ∷ []) card_write → check reader card_write ≡ deny (rbac card_write 7))
check-from_iter_example = check-from_iter ℕ ℕ ℕ reader (card_read ∷ []) card_write refl
