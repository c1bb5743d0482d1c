-- ===== src/Token/Json.antt =====
-- crates/wyrd-auth-verify/src/lib.rs: how the tenant id of the system owner passes through decoding.
-- `N` is the type of JSON numbers.
use wyrd_core.Prelude.{Bool, false, Option, none, some, List, [], ◌∷◌, if◌then◌else◌}
use wyrd_core.Prelude.Text.{Text, codes, text_eq}
use wyrd_core.Token.{TokenPrincipalRef, ActLayer, AccessTokenClaims}

mutual
  -- `serde_json::Value`.
  pub data Json (N : Type 0) : Type 0 where
    null : Json N
    boolean : Bool → Json N
    number : N → Json N
    string : Text → Json N
    array : Items N → Json N
    object : Fields N → Json N

  pub data Items (N : Type 0) : Type 0 where
    no_items : Items N
    item : Json N → Items N → Items N

  pub data Fields (N : Type 0) : Type 0 where
    no_fields : Fields N
    field : Text → Json N → Fields N → Fields N

abbrev pub nil_tenant : Text
nil_tenant = codes "00000000-0000-0000-0000-000000000000"

module _ {N : Type 0} where
  -- `Map::get` and `Map::insert` on an entry that is there; a map has an entry for a name once.
  unfoldable pub get : Text → Fields N → Option (Json N)
  get name no_fields = none
  get name (field key value rest) = if text_eq key name then some value else get name rest

  unfoldable pub set : Text → Json N → Fields N → Fields N
  set name value no_fields = no_fields
  set name value (field key old rest) =
      let more = set name value rest in
      if text_eq key name then field key value rest else field key old more

  abbrev is_nil_tenant : Option (Json N) → Bool
  is_nil_tenant (some (string text)) = text_eq text nil_tenant
  is_nil_tenant _ = false

  -- `replace_principal_tenant_id`.
  unfoldable pub replace_principal_tenant_id : Text → Json N → Json N
  replace_principal_tenant_id marker (object fields) = object (
      if is_nil_tenant (get (codes "tenant_id") fields)
      then set (codes "tenant_id") (string marker) fields
      else fields)
  replace_principal_tenant_id marker value = value

unfoldable mutual
  -- `replace_system_owner_tenant_ids`, and the entries of an object: its principal is rewritten, and the
  -- layer under it in turn.
  pub replace_system_owner_tenant_ids : {N : Type 0} → Text → Json N → Json N
  replace_system_owner_tenant_ids marker (object fields) = object (replace_fields marker fields)
  replace_system_owner_tenant_ids marker null = null
  replace_system_owner_tenant_ids marker (boolean b) = boolean b
  replace_system_owner_tenant_ids marker (number n) = number n
  replace_system_owner_tenant_ids marker (string t) = string t
  replace_system_owner_tenant_ids marker (array items) = array items

  pub replace_fields : {N : Type 0} → Text → Fields N → Fields N
  replace_fields marker no_fields = no_fields
  replace_fields marker (field key value rest) =
      let layer = replace_system_owner_tenant_ids marker value in
      field key
        (if text_eq key (codes "principal")
          then replace_principal_tenant_id marker value
          else if text_eq key (codes "act")
          then layer
          else value)
        (replace_fields marker rest)

module _ {I T U : Type 0} (is_marker : T → Bool) (system_owner : T) where
  abbrev restore_tenant : TokenPrincipalRef I T U → TokenPrincipalRef I T U
  restore_tenant principal =
      if is_marker principal.tenant_id
      then record principal { tenant_id = system_owner }
      else principal

  -- The loop of `restore_system_owner_tenant_ids`.
  unfoldable pub restore_layers : List (ActLayer I T U) → List (ActLayer I T U)
  restore_layers [] = []
  restore_layers (layer ∷ act) =
      record layer { principal = restore_tenant layer.principal } ∷ restore_layers act

  unfoldable pub restore_system_owner_tenant_ids : AccessTokenClaims I T U → AccessTokenClaims I T U
  restore_system_owner_tenant_ids claims = record claims {
    principal = restore_tenant claims.principal;
    act = restore_layers claims.act;
  }
