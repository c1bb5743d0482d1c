-- ===== src/Rbac/Principal.antt =====
-- crates/wyrd-runtime/src/principal.rs and request_context.rs: principals and the steps of a delegation.
-- `I`, `T` and `U` are the types of principal ids, tenants and card UIDs.
use wyrd_core.Prelude.{Bool, false, Option, none, some, List}
use wyrd_core.Prelude.Text.{Text}
use wyrd_core.Reference.{CardRef, CardRefScope, authorizes}
use wyrd_core.Rbac.Permission.{PermissionSet}

pub data PrincipalKind (U : Type 0) : Type 0 where
  user : PrincipalKind U
  service agent : CardRef U → CardRefScope U → PrincipalKind U

pub record Principal (I T U : Type 0) : Type 0 where
  pub id : I
  pub kind : PrincipalKind U
  pub tenant_id : T
  pub roles : List Text
  pub effective_permissions : PermissionSet

pub record PrincipalRef (I U : Type 0) : Type 0 where
  pub id : I
  pub kind : PrincipalKind U

pub record DelegationStep (I U : Type 0) : Type 0 where
  pub principal : PrincipalRef I U

abbrev pub kind_card_ref : {U : Type 0} → PrincipalKind U → Option (CardRef U)
kind_card_ref user = none
kind_card_ref (service card_ref scope) = some card_ref
kind_card_ref (agent card_ref scope) = some card_ref

abbrev pub kind_card_ref_scope : {U : Type 0} → PrincipalKind U → Option (CardRefScope U)
kind_card_ref_scope user = none
kind_card_ref_scope (service card_ref scope) = some scope
kind_card_ref_scope (agent card_ref scope) = some scope

module _ {I T U : Type 0} where
  unfoldable pub authorizes_card : Principal I T U → CardRef U → Bool
  authorizes_card principal card = elim (kind_card_ref_scope principal.kind) [
    | none ↦ false
    | some scope ↦ authorizes scope card
  ]

  unfoldable pub from_principal : Principal I T U → PrincipalRef I U
  from_principal principal = record { id = principal.id; kind = principal.kind }
