-- ===== src/Authz.antt =====
-- crates/wyrd-auth-check/src/{guard,context,request,response}.rs: which verified tokens may ask for a
-- policy check. `I`, `T`, `U`, `D`, `J` and `N` are the types of principal ids, tenants, card UIDs, times, JSON values and request ids.
pub mod Agreement
mod Tests
use wyrd_core.Prelude.{
  ℕ, zero, suc, Bool, true, false, not, ◌&&◌, Option, none, some, List, [], ◌∷◌, map, length,
  if◌then◌else◌, ◌==◌, Outcome, ok, err, ◌>>=◌,
}
use wyrd_core.Prelude.Text.{Text, codes}
use wyrd_core.Reference.{CardRef}
use wyrd_core.Token.{VerifiedToken}
use wyrd_core.Rbac.Principal.{
  PrincipalKind, user, service, agent, Principal, PrincipalRef, DelegationStep, kind_card_ref,
}

pub data GuardReason : Type 0 where
  kind_not_eligible card_ref_missing chain_empty : GuardReason

pub data GuardOutcome : Type 0 where
  allow : GuardOutcome
  reject : GuardReason → GuardOutcome

abbrev pub as_str : GuardReason → Text
as_str kind_not_eligible = codes "kind_not_eligible"
as_str card_ref_missing = codes "card_ref_missing"
as_str chain_empty = codes "chain_empty"

-- `matches!` on the kinds that a card is bound to.
abbrev pub is_eligible : {U : Type 0} → PrincipalKind U → Bool
is_eligible user = false
is_eligible (service card_ref scope) = true
is_eligible (agent card_ref scope) = true

abbrev pub is_none : {A : Type 0} → Option A → Bool
is_none none = true
is_none (some a) = false

unfoldable pub guard_reason : {I T U : Type 0} → Principal I T U → ℕ → GuardOutcome
guard_reason callee chain_len =
    if not (is_eligible callee.kind)
    then reject kind_not_eligible
    else if is_none (kind_card_ref callee.kind)
    then reject card_ref_missing
    else if chain_len == 0
    then reject chain_empty
    else allow

pub record AuthzCheckRequest (U J : Type 0) : Type 0 where
  pub target : CardRef U
  pub action : Text
  pub context : J

pub record AuthzCheckRequestMetadata : Type 0 where
  pub method : Text
  pub path : Text
  pub host : Text

pub data AuthzCheckRequestError : Type 0 where
  missing_header invalid_utf8 : Text → AuthzCheckRequestError

-- A required header; a header that is there but is no text is `some none`.
abbrev pull : (Text → Option (Option Text)) → Text → Outcome AuthzCheckRequestError Text
pull headers header = elim (headers header) [
  | none ↦ err (missing_header header)
  | some none ↦ err (invalid_utf8 header)
  | some (some value) ↦ ok value
]

unfoldable pub from_headers :
    (Text → Option (Option Text)) → Outcome AuthzCheckRequestError AuthzCheckRequestMetadata
from_headers headers = pull headers (codes "x-original-method") >>= λ method.
    pull headers (codes "x-original-path") >>= λ path.
    pull headers (codes "x-original-host") >>= λ host.
    ok (record { method = method; path = path; host = host })

pub data AuthzCheckContextError : Type 0 where
  requires_service_or_agent_kind requires_delegation_chain : AuthzCheckContextError

pub record AuthzCheckContext (I T U J N : Type 0) : Type 0 where
  pub callee : Principal I T U
  pub caller : PrincipalRef I U
  pub chain : List (PrincipalRef I U)
  pub request : AuthzCheckRequest U J
  pub metadata : Option AuthzCheckRequestMetadata
  pub request_id : N

-- `last` of a slice.
abbrev pub last : {A : Type 0} → List A → Option A
last [] = none
last (x ∷ []) = some x
last (x ∷ y ∷ xs) = last (y ∷ xs)

module _ {I T U D J N : Type 0} where
  unfoldable pub from_verified :
      VerifiedToken I T U D
      → AuthzCheckRequest U J
      → Option AuthzCheckRequestMetadata
      → N
      → Outcome AuthzCheckContextError (AuthzCheckContext I T U J N)
  from_verified verified request metadata request_id =
      let chain = map (λ step. step.principal) verified.delegation_chain in
      if not (is_eligible verified.principal.kind)
      then err requires_service_or_agent_kind
      else elim (last chain) [
        | none ↦ err requires_delegation_chain
        | some caller ↦ ok (record {
          callee = verified.principal;
          caller = caller;
          chain = chain;
          request = request;
          metadata = metadata;
          request_id = request_id;
        })
      ]

unfoldable pub is_delegated_token : {I T U D : Type 0} → VerifiedToken I T U D → Bool
is_delegated_token verified =
    is_eligible verified.principal.kind && not (length verified.delegation_chain == 0)

pub data AuthzCheckDecision : Type 0 where
  allowed denied : AuthzCheckDecision

pub record AuthzCheckResponse : Type 0 where
  pub decision : AuthzCheckDecision
  pub reason : Option Text
  pub required : Option Text

abbrev pub allow_response : AuthzCheckResponse
allow_response = record { decision = allowed; reason = none; required = none }

abbrev pub missing_permission : Text → AuthzCheckResponse
missing_permission required = record {
  decision = denied;
  reason = some (codes "missing_permission");
  required = some required;
}
