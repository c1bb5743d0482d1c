-- ===== src/Token.antt =====
-- crates/wyrd-auth-verify/src/lib.rs: the claims of access tokens, and what a verified token is made of.
-- `I`, `T`, `U`, `D` and `X` are the types of principal ids, tenants, card UIDs, times and the errors of
-- the crate jsonwebtoken.
pub mod Json
pub mod Wire
pub mod Issue
pub mod Verify
pub mod Chain
pub mod RoundTrip
mod Samples
mod Tests
use wyrd_core.Prelude.{
  ℕ, zero, suc, ◌-◌, ◌*◌, ◌^◌, Bool, true, false, not, ◌&&◌, ◌||◌, Option, none, some, List, [],
  ◌∷◌, ◌++◌, all, reverse, length, if◌then◌else◌, ◌==◌, ltb, leb, Outcome, ok, err, ◌>>=◌, map_err,
  ok_or,
}
use wyrd_core.Prelude.Text.{Text, text_eq}
use wyrd_core.Prelude.Int.{ℤ, pos, negate}
use wyrd_core.Reference.{CardKind, kind_tag, CardRef, CardRefScope, own, is_empty, permits_root}
use wyrd_core.Rbac.Permission.{PermissionSet}
use wyrd_core.Rbac.Principal.{
  PrincipalKind, Principal, PrincipalRef, DelegationStep, kind_card_ref, kind_card_ref_scope,
}

abbrev pub max_delegation_depth : ℕ
max_delegation_depth = 5

abbrev pub max_bearer_token_bytes : ℕ
max_bearer_token_bytes = 8 * 1024

-- `Kid::new`; a key id that passes is ASCII, so its length in bytes is its length.
unfoldable pub is_kid_char : ℕ → Bool
is_kid_char c =
    (leb b'A' c && leb c b'Z')
    || (leb b'a' c && leb c b'z')
    || (leb b'0' c && leb c b'9')
    || c == b'.'
    || c == b'_'
    || c == b'-'

unfoldable pub kid : Text → Option Text
kid value =
    if not (text_eq value []) && leb (length value) 64 && all is_kid_char value
    then some value
    else none

pub data AuthError (X : Type 0) : Type 0 where
  jwt : X → AuthError X
  invalid_token token_expired invalid_card_ref card_scope_missing_root : AuthError X
  delegation_depth_exceeded revoked bad_token_format verify_unavailable permissions_corrupt :
      AuthError X

pub data ResolveError : Type 0 where
  unavailable bad_permissions_json : Text → ResolveError

pub data PrincipalKindTag : Type 0 where
  user service agent : PrincipalKindTag

abbrev pub tag : {U : Type 0} → PrincipalKind U → PrincipalKindTag
tag PrincipalKind.user = PrincipalKindTag.user
tag (PrincipalKind.service card scope) = PrincipalKindTag.service
tag (PrincipalKind.agent card scope) = PrincipalKindTag.agent

pub record TokenPrincipalRef (I T U : Type 0) : Type 0 where
  pub id : I
  pub kind : PrincipalKindTag
  pub tenant_id : T
  pub card_ref : Option (CardRef U)
  pub card_ref_scope : CardRefScope U

-- A layer of an `ActClaim`; the next older ones are those behind it in a list.
pub record ActLayer (I T U : Type 0) : Type 0 where
  pub sub : Text
  pub principal : TokenPrincipalRef I T U

pub record AccessTokenClaims (I T U : Type 0) : Type 0 where
  pub sub : Text
  pub principal : TokenPrincipalRef I T U
  pub roles : List Text
  pub act : List (ActLayer I T U)
  pub exp : ℕ
  pub iat : ℕ
  pub iss : Text
  pub jti : Text

pub record VerifiedToken (I T U D : Type 0) : Type 0 where
  pub principal : Principal I T U
  pub delegation_chain : List (DelegationStep I U)
  pub exp : D
  pub iat : D

-- `usize as i64`.
abbrev pub as_i64 : ℕ → ℤ
as_i64 n = if ltb n (2 ^ 63) then pos n else negate (2 ^ 64 - n)

-- The scope of a kind that has none is empty.
abbrev scope_or_default : {U : Type 0} → Option (CardRefScope U) → CardRefScope U
scope_or_default none = []
scope_or_default (some scope) = scope

module _ {I T U : Type 0} where
  -- `From<(&RuntimePrincipalRef, DataTenantId)>` and `From<&Principal>`.
  unfoldable pub from_principal_ref : PrincipalRef I U → T → TokenPrincipalRef I T U
  from_principal_ref r tenant = record {
    id = r.id;
    kind = tag r.kind;
    tenant_id = tenant;
    card_ref = kind_card_ref r.kind;
    card_ref_scope = scope_or_default (kind_card_ref_scope r.kind);
  }

  unfoldable pub token_ref_of : Principal I T U → TokenPrincipalRef I T U
  token_ref_of principal = record {
    id = principal.id;
    kind = tag principal.kind;
    tenant_id = principal.tenant_id;
    card_ref = kind_card_ref principal.kind;
    card_ref_scope = scope_or_default (kind_card_ref_scope principal.kind);
  }

abbrev pub is_kind : {U : Type 0} → CardKind → CardRef U → Bool
is_kind kind card = kind_tag card.kind == kind_tag kind

unfoldable pub seed_scope :
    {U X : Type 0} → CardRef U → CardRefScope U → Outcome (AuthError X) (CardRefScope U)
seed_scope card scope =
    if is_empty scope
    then ok (own card)
    else if not (permits_root scope card)
    then err card_scope_missing_root
    else ok scope

unfoldable pub wire_kind_into_principal_kind :
    {U X : Type 0}
    → PrincipalKindTag
    → Option (CardRef U)
    → CardRefScope U
    → Outcome (AuthError X) (PrincipalKind U)
wire_kind_into_principal_kind PrincipalKindTag.user (some card) scope = err invalid_card_ref
wire_kind_into_principal_kind PrincipalKindTag.user none scope = ok PrincipalKind.user
wire_kind_into_principal_kind PrincipalKindTag.service (some card) scope =
    if is_kind CardKind.service card
    then (seed_scope card scope >>= λ scope'. ok (PrincipalKind.service card scope'))
    else err invalid_card_ref
wire_kind_into_principal_kind PrincipalKindTag.agent (some card) scope =
    if is_kind CardKind.agent card
    then (seed_scope card scope >>= λ scope'. ok (PrincipalKind.agent card scope'))
    else err invalid_card_ref
wire_kind_into_principal_kind PrincipalKindTag.service none scope = err invalid_card_ref
wire_kind_into_principal_kind PrincipalKindTag.agent none scope = err invalid_card_ref

abbrev pub resolve_error : {X : Type 0} → ResolveError → AuthError X
resolve_error (unavailable message) = verify_unavailable
resolve_error (bad_permissions_json role) = permissions_corrupt

module _ {I T U X : Type 0} where
  abbrev pub step_of : ActLayer I T U → Outcome (AuthError X) (DelegationStep I U)
  step_of layer =
      wire_kind_into_principal_kind layer.principal.kind layer.principal.card_ref [] >>= λ kind.
      ok (record { principal = record { id = layer.principal.id; kind = kind } })

  -- The loop of `flatten_act_chain`.
  unfoldable pub flatten_from :
      List (DelegationStep I U)
      → List (ActLayer I T U)
      → Outcome (AuthError X) (List (DelegationStep I U))
  flatten_from out [] = ok (reverse out)
  flatten_from out (layer ∷ act) =
      let pushed = step_of layer >>= λ step. flatten_from (out ++ step ∷ []) act in
      if leb max_delegation_depth (length out) then err delegation_depth_exceeded else pushed

  unfoldable pub flatten_act_chain :
      List (ActLayer I T U) → Outcome (AuthError X) (List (DelegationStep I U))
  flatten_act_chain act = flatten_from [] act

  unfoldable pub into_verified :
      {D : Type 0}
      → (T → List Text → Outcome ResolveError PermissionSet)
      → (ℤ → Option D)
      → AccessTokenClaims I T U
      → Outcome (AuthError X) (VerifiedToken I T U D)
  into_verified resolve from_timestamp claims =
      wire_kind_into_principal_kind claims.principal.kind claims.principal.card_ref
        claims.principal.card_ref_scope
      >>= λ kind.
          map_err resolve_error (resolve claims.principal.tenant_id claims.roles) >>= λ permissions.
          flatten_act_chain claims.act >>= λ chain.
          ok_or invalid_token (from_timestamp (as_i64 claims.exp)) >>= λ exp.
          ok_or invalid_token (from_timestamp (as_i64 claims.iat)) >>= λ iat. ok (record {
            principal = record {
              id = claims.principal.id;
              kind = kind;
              tenant_id = claims.principal.tenant_id;
              roles = claims.roles;
              effective_permissions = permissions;
            };
            delegation_chain = chain;
            exp = exp;
            iat = iat;
          })
