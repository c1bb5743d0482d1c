-- ===== src/Token/Issue.antt =====
-- crates/wyrd-auth-issue/src/lib.rs: `IssuingKey` and the tokens that it issues. `D` and `S` are the types
-- of times and durations of the crate chrono.
use wyrd_core.Prelude.{
  ℕ, ◌+◌, Bool, true, false, not, Option, none, some, List, [], ◌∷◌, length, if◌then◌else◌, ltb,
  Outcome, ok, err, ◌>>=◌, ◌>>◌, map_err, expect,
}
use wyrd_core.Prelude.Text.{Text}
use wyrd_core.Prelude.Int.{ℤ, pos, negsuc}
use wyrd_core.Reference.{CardKind, CardRef, CardRefScope, from_root_and_members}
use wyrd_core.Token.{
  max_delegation_depth, max_bearer_token_bytes, PrincipalKindTag, TokenPrincipalRef, ActLayer,
  AccessTokenClaims, is_kind,
}

pub data IssueError (X : Type 0) : Type 0 where
  signing : X → IssueError X
  public_key_derivation hashing : Text → IssueError X
  invalid_ttl invalid_kid invalid_principal_kind invalid_card_ref : IssueError X
  delegation_depth_exceeded : ℕ → IssueError X
  card_scope_too_large : ℕ → ℕ → IssueError X

-- What the source uses of chrono: `timestamp`, `+`, which panics where it is `none`, and the test of a
-- duration against zero.
pub record Chrono (D S : Type 0) : Type 0 where
  pub timestamp : D → ℤ
  pub add : D → S → Option D
  pub is_positive : S → Bool

pub record RefreshTokenClaims (I T : Type 0) : Type 0 where
  pub sub : Text
  pub principal_kind : PrincipalKindTag
  pub principal_id : I
  pub tenant_id : T
  pub exp : ℕ
  pub iat : ℕ
  pub iss : Text
  pub jti : Text

-- The key id and issuer of an `IssuingKey`, with the private key inside `sign`: what `jsonwebtoken::encode`
-- makes of a header with a key id, and of claims.
pub record IssuingKey (I T U X : Type 0) : Type 0 where
  pub kid : Text
  pub issuer : Text
  pub show_id : I → Text
  pub sign : Text → AccessTokenClaims I T U → Outcome X Text
  pub sign_refresh : Text → RefreshTokenClaims I T → Outcome X Text

-- A call's clock and the token id that it draws.
pub record Moment (D : Type 0) : Type 0 where
  pub now : D
  pub jti : Text

pub record DelegationCaller (I T U : Type 0) : Type 0 where
  pub sub : Text
  pub principal : TokenPrincipalRef I T U
  pub act : List (ActLayer I T U)

-- `usize::try_from` of an `i64`.
abbrev pub to_usize : {X : Type 0} → ℤ → Outcome (IssueError X) ℕ
to_usize (pos n) = ok n
to_usize (negsuc n) = err invalid_ttl

unfoldable pub timestamps : {D S X : Type 0} → Chrono D S → D → S → Outcome (IssueError X) (ℕ × ℕ)
timestamps chrono now ttl =
    if not (chrono.is_positive ttl)
    then err invalid_ttl
    else (to_usize (chrono.timestamp now) >>= λ iat. expect (chrono.add now ttl) >>= λ expiry.
        to_usize (chrono.timestamp expiry) >>= λ exp. ok (iat, exp))

unfoldable pub act_depth : {I T U : Type 0} → List (ActLayer I T U) → ℕ
act_depth [] = 0
act_depth (layer ∷ act) = 1 + act_depth act

-- The match of `validate_principal_ref`.
unfoldable pub validate_kind :
    {U X : Type 0} → PrincipalKindTag → Option (CardRef U) → Outcome {0, 0} (IssueError X) Unit
validate_kind PrincipalKindTag.user none = ok tt
validate_kind PrincipalKindTag.user (some card) = err invalid_card_ref
validate_kind PrincipalKindTag.service none = err invalid_card_ref
validate_kind PrincipalKindTag.service (some card) =
    if is_kind CardKind.service card then ok tt else err invalid_card_ref
validate_kind PrincipalKindTag.agent none = err invalid_card_ref
validate_kind PrincipalKindTag.agent (some card) =
    if is_kind CardKind.agent card then ok tt else err invalid_card_ref

unfoldable pub validate_principal_ref :
    {I T U X : Type 0} → TokenPrincipalRef I T U → Outcome {0, 0} (IssueError X) Unit
validate_principal_ref principal = validate_kind principal.kind principal.card_ref

abbrev is_user : PrincipalKindTag → Bool
is_user PrincipalKindTag.user = true
is_user PrincipalKindTag.service = false
is_user PrincipalKindTag.agent = false

module _ {I T U X D S : Type 0} (key : IssuingKey I T U X) (chrono : Chrono D S)
    (at : Moment D) where
  -- `issue_access_token_with_claims` up to the encoding.
  unfoldable pub access_claims :
      Text
      → TokenPrincipalRef I T U
      → List Text
      → List (ActLayer I T U)
      → S
      → Outcome (IssueError X) (AccessTokenClaims I T U)
  access_claims sub principal roles act ttl = timestamps chrono at.now ttl >>= λ (iat, exp).
      ok (record {
        sub = sub;
        principal = principal;
        roles = roles;
        act = act;
        exp = exp;
        iat = iat;
        iss = key.issuer;
        jti = at.jti;
      })

  unfoldable pub issue_access_token_with_claims :
      Text
      → TokenPrincipalRef I T U
      → List Text
      → List (ActLayer I T U)
      → S
      → Outcome (IssueError X) Text
  issue_access_token_with_claims sub principal roles act ttl =
      access_claims sub principal roles act ttl >>= λ claims.
      map_err signing (key.sign key.kid claims)

  unfoldable pub issue_user_access_token :
      TokenPrincipalRef I T U → List Text → S → Outcome (IssueError X) Text
  issue_user_access_token principal roles ttl =
      if not (is_user principal.kind)
      then err invalid_principal_kind
      else (validate_principal_ref principal
          >> issue_access_token_with_claims (key.show_id principal.id) principal roles [] ttl)

  -- The principal of a card, with the card as the root of its scope.
  abbrev pub card_principal :
      PrincipalKindTag → I → T → CardRef U → CardRefScope U → TokenPrincipalRef I T U
  card_principal kind id tenant card scope = record {
    id = id;
    kind = kind;
    tenant_id = tenant;
    card_ref = some card;
    card_ref_scope = from_root_and_members card scope;
  }

  unfoldable pub issue_service_access_token :
      I → T → CardRef U → CardRefScope U → List Text → S → Outcome (IssueError X) Text
  issue_service_access_token id tenant card scope roles ttl =
      if not (is_kind CardKind.service card)
      then err invalid_card_ref
      else issue_access_token_with_claims (key.show_id id)
          (card_principal PrincipalKindTag.service id tenant card scope) roles [] ttl

  unfoldable pub issue_agent_access_token :
      I → T → CardRef U → CardRefScope U → List Text → S → Outcome (IssueError X) Text
  issue_agent_access_token id tenant card scope roles ttl =
      if not (is_kind CardKind.agent card)
      then err invalid_card_ref
      else issue_access_token_with_claims (key.show_id id)
          (card_principal PrincipalKindTag.agent id tenant card scope) roles [] ttl

  unfoldable pub issue_delegated_access_token :
      DelegationCaller I T U → TokenPrincipalRef I T U → List Text → S → Outcome (IssueError X) Text
  issue_delegated_access_token caller subject roles ttl =
      let depth = act_depth caller.act + 1 in
      let act = record { sub = caller.sub; principal = caller.principal } ∷ caller.act in
      validate_principal_ref subject
      >> (if ltb max_delegation_depth depth
          then err (delegation_depth_exceeded max_delegation_depth)
          else issue_access_token_with_claims caller.sub subject roles act ttl)

  unfoldable pub issue_refresh_token : PrincipalKindTag → I → T → S → Outcome (IssueError X) Text
  issue_refresh_token kind id tenant ttl = timestamps chrono at.now ttl >>= λ (iat, exp).
      map_err signing (
        key.sign_refresh key.kid (record {
          sub = key.show_id id;
          principal_kind = kind;
          principal_id = id;
          tenant_id = tenant;
          exp = exp;
          iat = iat;
          iss = key.issuer;
          jti = at.jti;
        }))
      >>= λ token.
          if ltb max_bearer_token_bytes (length token)
          then err (card_scope_too_large (length token) max_bearer_token_bytes)
          else ok token
