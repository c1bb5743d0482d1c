-- ===== src/Token/Wire.antt =====
-- crates/wyrd-auth-verify/src/lib.rs: the JSON that the claims of an access token are signed as, by the
-- derived serialization of their structs.
pub mod Sentinel
use wyrd_core.Prelude.{Outcome, ℕ, Option, none, some, List, [], ◌∷◌, if◌then◌else◌}
use wyrd_core.Prelude.Text.{Text, codes}
use wyrd_core.Reference.{CardRef, CardRefScope, is_empty}
use wyrd_core.Semver.Crate.{SemverCrate}
use wyrd_core.Reference.Texts.{IdError}
use wyrd_core.Reference.Texts.Scopes.{scope_to_strings}
use wyrd_core.Token.{PrincipalKindTag, TokenPrincipalRef, ActLayer, AccessTokenClaims}
use wyrd_core.Token.Json.{
  Json, Items, Fields, no_items, item, array, string, number, object, no_fields, field,
}

-- How the leaves are written; `crate` is the crate semver, and UIDs have a text form.
pub record Leaves (I T U N : Type 0) : Type 1 where
  pub crate : SemverCrate
  pub show_uid : U → Text
  pub parse_uid : Text → Outcome IdError U
  pub id : I → Json N
  pub tenant : T → Text
  pub card : CardRef U → Json N
  pub roles : List Text → Json N
  pub seconds : ℕ → N

-- `PrincipalKindTag::as_str`.
abbrev pub kind_text : PrincipalKindTag → Text
kind_text PrincipalKindTag.user = codes "user"
kind_text PrincipalKindTag.service = codes "service"
kind_text PrincipalKindTag.agent = codes "agent"

module _ {I T U N : Type 0} (leaves : Leaves I T U N) where
  -- The fields that are left out when they are `None` or empty.
  abbrev pub card_fields : Option (CardRef U) → Fields N → Fields N
  card_fields none rest = rest
  card_fields (some card) rest = field (codes "card_ref") (leaves.card card) rest

  -- A scope is an array of strings.
  abbrev pub text_items : List Text → Items N
  text_items [] = no_items
  text_items (text ∷ texts) = item (string text) (text_items texts)

  abbrev pub scope_texts : CardRefScope U → List Text
  scope_texts scope = scope_to_strings leaves.crate leaves.show_uid leaves.parse_uid scope

  abbrev pub scope_fields : CardRefScope U → Fields N
  scope_fields scope =
      if is_empty scope
      then no_fields
      else field (codes "card_ref_scope") (array (text_items (scope_texts scope))) no_fields

  abbrev pub principal_value : TokenPrincipalRef I T U → Json N
  principal_value p = object (
      field (codes "id") (leaves.id p.id) (
        field (codes "kind") (string (kind_text p.kind)) (
          field (codes "tenant_id") (string (leaves.tenant p.tenant_id))
            (card_fields p.card_ref (scope_fields p.card_ref_scope)))))

  -- The actor chain, in front of the fields that follow it; none when there is no actor.
  unfoldable pub act_fields : List (ActLayer I T U) → Fields N → Fields N
  act_fields [] rest = rest
  act_fields (layer ∷ act) rest =
      field (codes "act")
        (object (
          field (codes "sub") (string layer.sub) (
            field (codes "principal") (principal_value layer.principal)
              (act_fields act no_fields))))
        rest

  unfoldable pub claims_value : AccessTokenClaims I T U → Json N
  claims_value claims = object (
      field (codes "sub") (string claims.sub) (
        field (codes "principal") (principal_value claims.principal) (
          field (codes "roles") (leaves.roles claims.roles) (
            act_fields claims.act (
              field (codes "exp") (number (leaves.seconds claims.exp)) (
                field (codes "iat") (number (leaves.seconds claims.iat)) (
                  field (codes "iss") (string claims.iss)
                    (field (codes "jti") (string claims.jti) no_fields))))))))
