-- ===== src/Authz/Agreement.antt =====
-- crates/wyrd-auth-check/src/{guard,context}.rs: what the three tests of a token have in common.
use wyrd_core.Prelude.{
  ◌≡◌, ◌⊎◌, inl, inr, true, false, Option, some, List, [], ◌∷◌, ◌++◌, map, length, Outcome, ok, err,
  refl, arith, ap, ◌==◌,
}
use wyrd_core.Rbac.Principal.{
  kind_card_ref, PrincipalKind, user, service, agent, PrincipalRef, DelegationStep,
}
use wyrd_core.Token.{VerifiedToken}
use wyrd_core.Authz.{
  guard_reason, allow, reject, kind_not_eligible, chain_empty, AuthzCheckRequest,
  AuthzCheckRequestMetadata, AuthzCheckContextError, requires_service_or_agent_kind,
  requires_delegation_chain, AuthzCheckContext, last, from_verified, is_delegated_token,
  is_eligible, is_none,
}

-- The last of a list with a head, and what stands before it.
last-append :
    {A : Type 0} (x : A) (xs : List A)
    → (before : List A) × (y : A) × (last (x ∷ xs) ≡ some y) × (x ∷ xs ≡ before ++ y ∷ [])
last-append x [] = ([], x, refl, refl)
last-append x (y ∷ xs) =
    let (before, z, found, split) = last-append y xs in
    (x ∷ before, z, found, ap (λ zs. x ∷ zs) split)

-- A token with the kind and the chain replaced.
abbrev with_kind :
    {I T U D : Type 0}
    → PrincipalKind U
    → List (DelegationStep I U)
    → VerifiedToken I T U D
    → VerifiedToken I T U D
with_kind kind chain v = record v {
  principal = record v.principal { kind = kind };
  delegation_chain = chain;
}

module _ {I T U D J N : Type 0} where
  -- The context that a token gives, with its caller the last of the chain.
  abbrev pub ContextOf :
      VerifiedToken I T U D
      → AuthzCheckRequest U J
      → Option AuthzCheckRequestMetadata
      → N
      → AuthzCheckContext I T U J N
      → Type 0
  ContextOf v request metadata request_id context =
      (context.callee ≡ v.principal)
      × (context.chain ≡ map (λ step. step.principal) v.delegation_chain)
      × ((before : List (PrincipalRef I U)) × (context.chain ≡ before ++ context.caller ∷ []))
      × (context.request ≡ request)
      × (context.metadata ≡ metadata)
      × (context.request_id ≡ request_id)

  -- The three ways a token can be judged.
  abbrev pub Agreed :
      VerifiedToken I T U D → AuthzCheckRequest U J → Option AuthzCheckRequestMetadata → N → Type 0
  Agreed v request metadata request_id =
      let guard = guard_reason v.principal (length v.delegation_chain) in
      let made : Outcome AuthzCheckContextError (AuthzCheckContext I T U J N) =
        from_verified v request metadata request_id in
      ((is_delegated_token v ≡ true)
        × (guard ≡ allow)
        × ((context : AuthzCheckContext I T U J N) × (made ≡ ok context)
            × ContextOf v request metadata request_id context))
      ⊎ (((is_delegated_token v ≡ false)
            × (guard ≡ reject kind_not_eligible)
            × (made ≡ err requires_service_or_agent_kind))
          ⊎ ((is_delegated_token v ≡ false)
              × (guard ≡ reject chain_empty)
              × (made ≡ err requires_delegation_chain)))

  module _ (v : VerifiedToken I T U D) (request : AuthzCheckRequest U J)
      (metadata : Option AuthzCheckRequestMetadata) (request_id : N) where
    abbrev Holds : PrincipalKind U → List (DelegationStep I U) → Type 0
    Holds kind chain = Agreed (with_kind kind chain v) request metadata request_id

    Holds-cons :
        (kind : PrincipalKind U) (step : DelegationStep I U) (chain : List (DelegationStep I U))
        → is_eligible kind ≡ true
        → is_none (kind_card_ref kind) ≡ false
        → Holds kind (step ∷ chain)
    unfolding guard_reason from_verified is_delegated_token
    Holds-cons kind step chain eligible bound =
        let some_steps : (length (step ∷ chain) == 0) ≡ false = ground arith in
        let principals = map (λ s. s.principal) chain in
        let (before, caller, found, split) = last-append step.principal principals in
        inl (
          rw (eligible, some_steps) refl,
          rw (eligible, bound, some_steps) refl,
          (
            record {
              callee = record v.principal { kind = kind };
              caller = caller;
              chain = step.principal ∷ principals;
              request = request;
              metadata = metadata;
              request_id = request_id;
            },
            rw (eligible, found) refl,
            (refl, refl, (before, split), refl, refl, refl),
          ),
        )

    Holds-nil :
        (kind : PrincipalKind U)
        → is_eligible kind ≡ true
        → is_none (kind_card_ref kind) ≡ false
        → Holds kind []
    unfolding guard_reason from_verified is_delegated_token
    Holds-nil kind eligible bound =
        inr (inr (rw eligible refl, rw (eligible, bound) refl, rw eligible refl))

    Holds-kind : (kind : PrincipalKind U) (chain : List (DelegationStep I U)) → Holds kind chain
    unfolding guard_reason from_verified is_delegated_token
    Holds-kind user chain = inr (inl (refl, refl, refl))
    Holds-kind (service card scope) [] = Holds-nil (service card scope) refl refl
    Holds-kind (service card scope) (step ∷ chain) =
        Holds-cons (service card scope) step chain refl refl
    Holds-kind (agent card scope) [] = Holds-nil (agent card scope) refl refl
    Holds-kind (agent card scope) (step ∷ chain) =
        Holds-cons (agent card scope) step chain refl refl

  -- The guard, the construction of a context and the test for a delegated token agree on every token.
  -- Either all accept it, and the context has its principal as the callee, its chain, the last of the
  -- chain as the caller, and the request as given; or all refuse it, for the same reason: the kind of
  -- its principal, or else its empty chain. The guard never finds that a card reference is missing.
  pub from_verified-Agreed :
      (v : VerifiedToken I T U D) (request : AuthzCheckRequest U J)
      (metadata : Option AuthzCheckRequestMetadata) (request_id : N)
      → Agreed v request metadata request_id
  from_verified-Agreed v request metadata request_id =
      Holds-kind v request metadata request_id v.principal.kind v.delegation_chain
