-- ===== src/Token/Chain.antt =====
-- crates/wyrd-auth-verify/src/lib.rs, crates/wyrd-auth-issue/src/lib.rs: the delegation chain of a token.
use wyrd_core.Prelude.{
  ◌+◌, ◌≤◌, ◌≡◌, inl, inr, false, Option, none, some, List, [], ◌∷◌, ◌++◌, reverse, length, ltb,
  leb, Outcome, ok, err, panic, ◌>>=◌, collect, arith, refl, sym, ap, ◌∙◌, append_assoc, append-nil,
  Outcome-cases, Bool-cases, >>=-eq-ok, map_err-eq-ok, length-append,
}
use mathlib.Core.List.{reverse-cons}
use wyrd_core.Prelude.Text.{Text}
use wyrd_core.Reference.{CardRef, CardRefScope, own, CardKind}
use wyrd_core.Rbac.Principal.{PrincipalKind, DelegationStep, kind_card_ref}
use wyrd_core.Token.{
  max_delegation_depth, AuthError, PrincipalKindTag, tag, TokenPrincipalRef, ActLayer,
  AccessTokenClaims, seed_scope, is_kind, wire_kind_into_principal_kind, step_of, flatten_from,
  flatten_act_chain,
}
use wyrd_core.Token.Issue.{
  signing, timestamps, Chrono, IssuingKey, Moment, DelegationCaller, act_depth,
  validate_principal_ref, access_claims, issue_access_token_with_claims,
  issue_delegated_access_token,
}

shift :
    {A X : Type 0} (out : List A) (a : A) (m : Outcome (AuthError X) (List A))
    → (m >>= λ steps. ok (reverse ((out ++ a ∷ []) ++ steps)))
      ≡ ((m >>= λ ys. ok (a ∷ ys)) >>= λ steps. ok (reverse (out ++ steps)))
shift out a (ok steps) = rw (append_assoc out (a ∷ []) steps) refl
shift out a (err e) = refl
shift out a panic = refl

act_depth-eq : {I T U : Type 0} (act : List (ActLayer I T U)) → act_depth act ≡ length act
unfolding act_depth
act_depth-eq [] = refl
act_depth-eq (layer ∷ act) = omega (arith, act_depth-eq act)

-- A kind that is read with a scope is read without one.
wire_kind-ok :
    {U X : Type 0} (kind : PrincipalKindTag) (card : Option (CardRef U)) (scope : CardRefScope U)
    (read : PrincipalKind U)
    → wire_kind_into_principal_kind {X = X} kind card scope ≡ ok read
    → (bare : PrincipalKind U) × (wire_kind_into_principal_kind {X = X} kind card [] ≡ ok bare)
      × (tag bare ≡ kind)
      × (kind_card_ref bare ≡ card)
unfolding wire_kind_into_principal_kind seed_scope
wire_kind-ok PrincipalKindTag.user none scope read h = (PrincipalKind.user, refl, refl, refl)
wire_kind-ok PrincipalKindTag.user (some card) scope read h = cc
wire_kind-ok PrincipalKindTag.service none scope read h = cc
wire_kind-ok PrincipalKindTag.service (some card) scope read h =
    elim (Bool-cases (is_kind CardKind.service card)) [
      | inl own_kind ↦ (PrincipalKind.service card (own card), rw own_kind refl, refl, refl)
      | inr other ↦ absurd (ground (arith, other, h))
    ]
wire_kind-ok PrincipalKindTag.agent none scope read h = cc
wire_kind-ok PrincipalKindTag.agent (some card) scope read h =
    elim (Bool-cases (is_kind CardKind.agent card)) [
      | inl own_kind ↦ (PrincipalKind.agent card (own card), rw own_kind refl, refl, refl)
      | inr other ↦ absurd (ground (arith, other, h))
    ]

module _ {I T U X : Type 0} where
  -- A chain within the bound is the list of its steps, oldest first.
  flatten_from-collect :
      (out : List (DelegationStep I U)) (act : List (ActLayer I T U))
      → length out + length act ≤ max_delegation_depth
      → flatten_from {X = X} out act
        ≡ (collect step_of act >>= λ steps. ok (reverse (out ++ steps)))
  unfolding flatten_from
  flatten_from-collect out [] h = rw (append-nil out) refl
  flatten_from-collect out (layer ∷ act) h =
      let room : leb max_delegation_depth (length out) ≡ false = ground (arith, h) in
      elim (Outcome-cases (step_of {X = X} layer)) [
        | inl (step, made) ↦
            let grown = length-append out (step ∷ []) in
            let rest = flatten_from-collect (out ++ step ∷ []) act (omega (arith, grown, h)) in
            rw (room, made) (rest ∙ shift out step (collect step_of act))
        | inr (inl (e, failed)) ↦ rw (room, failed) refl
        | inr (inr panics) ↦ rw (room, panics) refl
      ]

  -- A caller whose principal is read from a token goes on the chain of that token as its last step.
  flatten_act_chain-push :
      (caller : ActLayer I T U) (act : List (ActLayer I T U)) (scope : CardRefScope U)
      (read : PrincipalKind U) (chain : List (DelegationStep I U))
      → wire_kind_into_principal_kind {X = X} caller.principal.kind caller.principal.card_ref scope
        ≡ ok read
      → flatten_act_chain {X = X} act ≡ ok chain
      → 1 + length act ≤ max_delegation_depth
      → (step : DelegationStep I U) × (flatten_act_chain {X = X} (caller ∷ act)
          ≡ ok (chain ++ step ∷ []))
        × (step.principal.id ≡ caller.principal.id)
        × (tag step.principal.kind ≡ caller.principal.kind)
        × (kind_card_ref step.principal.kind ≡ caller.principal.card_ref)
  unfolding flatten_act_chain
  flatten_act_chain-push caller act scope read chain known older room =
      let (kind, bare, same_kind, same_card) =
        wire_kind-ok caller.principal.kind caller.principal.card_ref scope read known in
      let step : DelegationStep I U = record {
        principal = record { id = caller.principal.id; kind = kind };
      } in
      let steps_of = flatten_from-collect [] act (omega (arith, room)) in
      let (steps, all_steps, turned) = >>=-eq-ok (collect step_of act) _ (sym steps_of ∙ older) in
      let same_chain : reverse steps ≡ chain = ground (arith, turned) in
      let pushed = flatten_from-collect [] (caller ∷ act) (omega (arith, room)) in
      (
        step,
        pushed
            ∙ rw (bare, all_steps)
                (ap ok (reverse-cons step steps ∙ ap (λ r. r ++ step ∷ []) same_chain)),
        refl,
        same_kind,
        same_card,
      )

module _ {I T U X D S : Type 0} (key : IssuingKey I T U X) (chrono : Chrono D S)
    (at : Moment D) where
  -- What the claims of an issued token are made of.
  abbrev pub IsFor :
      Text
      → TokenPrincipalRef I T U
      → List Text
      → List (ActLayer I T U)
      → AccessTokenClaims I T U
      → Type 0
  IsFor sub principal roles act claims =
      (claims.sub ≡ sub)
      × (claims.principal ≡ principal)
      × (claims.roles ≡ roles)
      × (claims.act ≡ act)
      × (claims.iss ≡ key.issuer)
      × (claims.jti ≡ at.jti)

  pub issue_access_token_with_claims-IsFor :
      (sub : Text) (principal : TokenPrincipalRef I T U) (roles : List Text)
      (act : List (ActLayer I T U)) (ttl : S) (token : Text)
      → issue_access_token_with_claims key chrono at sub principal roles act ttl ≡ ok token
      → (claims : AccessTokenClaims I T U) × (key.sign key.kid claims ≡ ok token)
        × IsFor sub principal roles act claims
  unfolding issue_access_token_with_claims access_claims
  issue_access_token_with_claims-IsFor sub principal roles act ttl token h =
      let (claims, made, signed) =
        >>=-eq-ok (access_claims key chrono at sub principal roles act ttl) _ h in
      let ((iat, exp), dated, filled) = >>=-eq-ok (timestamps chrono at.now ttl) _ made in
      (claims, map_err-eq-ok signing (key.sign key.kid claims) token signed, ground (arith, filled))

  -- A caller whose own token is read with a delegation chain is the last step of the chain that the delegated
  -- token is read with, behind that chain.
  pub issue_delegated_access_token-chain :
      {Y : Type 0} (caller : DelegationCaller I T U) (subject : TokenPrincipalRef I T U)
      (roles : List Text) (ttl : S) (token : Text) (scope : CardRefScope U) (read : PrincipalKind U)
      (chain : List (DelegationStep I U))
      → issue_delegated_access_token key chrono at caller subject roles ttl ≡ ok token
      → wire_kind_into_principal_kind {X = Y} caller.principal.kind caller.principal.card_ref scope
        ≡ ok read
      → flatten_act_chain {X = Y} caller.act ≡ ok chain
      → (claims : AccessTokenClaims I T U) × (step : DelegationStep I U) × (key.sign key.kid claims
          ≡ ok token)
        × (claims.principal ≡ subject)
        × (flatten_act_chain {X = Y} claims.act ≡ ok (chain ++ step ∷ []))
        × (step.principal.id ≡ caller.principal.id)
        × (tag step.principal.kind ≡ caller.principal.kind)
        × (kind_card_ref step.principal.kind ≡ caller.principal.card_ref)
  unfolding issue_delegated_access_token
  issue_delegated_access_token-chain caller subject roles ttl token scope read chain h known older =
      let layer : ActLayer I T U = record { sub = caller.sub; principal = caller.principal } in
      let (_, valid, more) = >>=-eq-ok (validate_principal_ref subject) _ h in
      elim (Bool-cases (ltb max_delegation_depth (act_depth caller.act + 1))) [
        | inl deep ↦ absurd (ground (arith, deep, more))
        | inr fits ↦
            let room : 1 + length caller.act ≤ max_delegation_depth =
              ground (arith, fits, act_depth-eq caller.act) in
            let (claims, signed, made) =
              issue_access_token_with_claims-IsFor caller.sub subject roles (layer ∷ caller.act) ttl
                token (ground (arith, fits, more)) in
            let (step, grown, id, kind, card) =
              flatten_act_chain-push layer caller.act scope read chain known older room in
            (claims, step, signed, made.1, rw made.3 grown, id, kind, card)
      ]
