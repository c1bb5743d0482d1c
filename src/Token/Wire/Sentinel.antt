-- ===== src/Token/Wire/Sentinel.antt =====
-- crates/wyrd-auth-verify/src/lib.rs: the tenant id of the system owner on its way through decoding.
use wyrd_core.Prelude.{
  Option, none, ◌≡◌, inl, inr, Bool, true, false, some, List, [], ◌∷◌, if◌then◌else◌, ok, refl, sym,
  ap, ◌∙◌, subst, Bool-cases,
}
use wyrd_core.Prelude.Text.{Text, text_eq}
use wyrd_core.Token.{TokenPrincipalRef, ActLayer, AccessTokenClaims}
use wyrd_core.Token.Json.{
  Fields, no_fields, nil_tenant, get, set, replace_principal_tenant_id,
  replace_system_owner_tenant_ids, replace_fields, restore_layers, restore_system_owner_tenant_ids,
}
use wyrd_core.Token.Verify.{Verifier, verify_access_token}
use wyrd_core.Reference.{CardRef}
use wyrd_core.Reference.Texts.Scopes.{IsWritable, scope_from_strings}
use wyrd_core.Token.Wire.{scope_texts, Leaves, principal_value, act_fields, claims_value}

module _ {I T U N : Type 0} (leaves : Leaves I T U N) (is_marker : T → Bool) (owner marker : T)
    (is_owner : T → Bool) where
  -- `marker` is the tenant id that a call draws: it is no system owner, it is told by its test, and no claim has it. The system owner
  -- is the one tenant that is written as the nil UUID.
  pub record Marks : Type 0 where
    pub is_valid : is_owner marker ≡ false
    pub marked : is_marker marker ≡ true
    pub owned : (t : T) → is_owner t ≡ true → t ≡ owner
    pub nil : (t : T) → text_eq (leaves.tenant t) nil_tenant ≡ is_owner t

  abbrev pub mark : TokenPrincipalRef I T U → TokenPrincipalRef I T U
  mark p = if is_owner p.tenant_id then record p { tenant_id = marker } else p

  abbrev pub mark_layers : List (ActLayer I T U) → List (ActLayer I T U)
  mark_layers [] = []
  mark_layers (layer ∷ act) = record layer { principal = mark layer.principal } ∷ mark_layers act

  abbrev pub mark_claims : AccessTokenClaims I T U → AccessTokenClaims I T U
  mark_claims claims = record claims {
    principal = mark claims.principal;
    act = mark_layers claims.act;
  }

  -- No principal of the claims has the drawn tenant id.
  abbrev pub FreshLayers : List (ActLayer I T U) → Type 0
  FreshLayers [] = Unit
  FreshLayers (layer ∷ act) = (is_marker layer.principal.tenant_id ≡ false) × FreshLayers act

  abbrev pub IsFresh : AccessTokenClaims I T U → Type 0
  IsFresh claims = (is_marker claims.principal.tenant_id ≡ false) × FreshLayers claims.act

  -- None is the system owner's.
  abbrev pub PlainLayers : List (ActLayer I T U) → Type 0
  PlainLayers [] = Unit
  PlainLayers (layer ∷ act) = (is_owner layer.principal.tenant_id ≡ false) × PlainLayers act

  abbrev pub IsPlain : AccessTokenClaims I T U → Type 0
  IsPlain claims = (is_owner claims.principal.tenant_id ≡ false) × PlainLayers claims.act

  -- The names and the version of a bound card are valid, and the text of a scope is read back.
  abbrev CardReads : Option (CardRef U) → Type 0
  CardReads none = Unit
  CardReads (some card) = IsWritable leaves.crate leaves.show_uid leaves.parse_uid card

  abbrev pub PrincipalReads : TokenPrincipalRef I T U → Type 0
  PrincipalReads p =
      CardReads p.card_ref
      × (scope_from_strings leaves.crate leaves.show_uid leaves.parse_uid
            (scope_texts leaves p.card_ref_scope)
          ≡ ok p.card_ref_scope)

  abbrev pub LayersRead : List (ActLayer I T U) → Type 0
  LayersRead [] = Unit
  LayersRead (layer ∷ act) = PrincipalReads layer.principal × LayersRead act

  abbrev pub CardsRead : AccessTokenClaims I T U → Type 0
  CardsRead claims = PrincipalReads claims.principal × LayersRead claims.act

  mark-reads : (p : TokenPrincipalRef I T U) → PrincipalReads p → PrincipalReads (mark p)
  mark-reads p h = elim (Bool-cases (is_owner p.tenant_id)) [
    | inl own ↦ rw own h
    | inr other ↦ rw other h
  ]

  mark_layers-read : (act : List (ActLayer I T U)) → LayersRead act → LayersRead (mark_layers act)
  mark_layers-read [] h = tt
  mark_layers-read (layer ∷ act) (h, k) = (mark-reads layer.principal h, mark_layers-read act k)

  module _ (marks : Marks) where
    replace-principal_value :
        (p : TokenPrincipalRef I T U)
        → replace_principal_tenant_id (leaves.tenant marker) (principal_value leaves p)
          ≡ principal_value leaves (mark p)
    unfolding replace_principal_tenant_id get set text_eq
    replace-principal_value p = elim (Bool-cases (is_owner p.tenant_id)) [
      | inl own ↦
          let nil : text_eq (leaves.tenant p.tenant_id) nil_tenant ≡ true =
            marks.nil p.tenant_id ∙ own in
          rw (nil, own) refl
      | inr other ↦
          let nil : text_eq (leaves.tenant p.tenant_id) nil_tenant ≡ false =
            marks.nil p.tenant_id ∙ other in
          rw (nil, other) refl
    ]

    replace-act_fields :
        (act : List (ActLayer I T U)) (rest : Fields N)
        → replace_fields (leaves.tenant marker) (act_fields leaves act rest)
          ≡ act_fields leaves (mark_layers act) (replace_fields (leaves.tenant marker) rest)
    unfolding act_fields replace_fields replace_system_owner_tenant_ids text_eq
    replace-act_fields [] rest = refl
    replace-act_fields (layer ∷ act) rest =
        rw (replace-principal_value layer.principal, replace-act_fields act no_fields) refl

    replace-claims_value :
        (claims : AccessTokenClaims I T U)
        → replace_system_owner_tenant_ids (leaves.tenant marker) (claims_value leaves claims)
          ≡ claims_value leaves (mark_claims claims)
    unfolding claims_value replace_fields replace_system_owner_tenant_ids text_eq
    replace-claims_value claims =
        rw (replace-principal_value claims.principal, replace-act_fields claims.act _) refl

    mark-plain : (p : TokenPrincipalRef I T U) → is_owner (mark p).tenant_id ≡ false
    mark-plain p = elim (Bool-cases (is_owner p.tenant_id)) [
      | inl own ↦ rw own marks.is_valid
      | inr other ↦ rw other other
    ]

    mark_layers-plain : (act : List (ActLayer I T U)) → PlainLayers (mark_layers act)
    mark_layers-plain [] = tt
    mark_layers-plain (layer ∷ act) = (mark-plain layer.principal, mark_layers-plain act)

    restore-mark :
        (p : TokenPrincipalRef I T U)
        → is_marker p.tenant_id ≡ false
        → (if is_marker (mark p).tenant_id then record (mark p) { tenant_id = owner } else mark p)
          ≡ p
    restore-mark p unused = elim (Bool-cases (is_owner p.tenant_id)) [
      | inl own ↦
          rw (own, marks.marked)
            (ap (λ t. record p { tenant_id = t }) (sym (marks.owned p.tenant_id own)))
      | inr other ↦ rw (other, unused) refl
    ]

    restore_layers-mark :
        (act : List (ActLayer I T U))
        → FreshLayers act
        → restore_layers is_marker owner (mark_layers act) ≡ act
    unfolding restore_layers
    restore_layers-mark [] h = refl
    restore_layers-mark (layer ∷ act) (unused, h) =
        rw (restore-mark layer.principal unused, restore_layers-mark act h) refl

    restore-mark_claims :
        (claims : AccessTokenClaims I T U)
        → IsFresh claims
        → restore_system_owner_tenant_ids is_marker owner (mark_claims claims) ≡ claims
    unfolding restore_system_owner_tenant_ids
    restore-mark_claims claims (unused, h) =
        rw (restore-mark claims.principal unused, restore_layers-mark claims.act h) refl

-- The derived deserialization reads the JSON of claims back if no tenant of them is the system owner, and
-- their cards and scopes are read back.
abbrev pub Reads :
    {I T U N K H D X : Type 0}
    → Verifier I T U N K H D X
    → Leaves I T U N
    → T
    → (T → Bool)
    → AccessTokenClaims I T U
    → Type 0
Reads v leaves marker is_owner claims =
    IsPlain leaves v.is_marker v.system_owner marker is_owner claims
    → CardsRead leaves v.is_marker v.system_owner marker is_owner claims
    → v.from_value (claims_value leaves claims) ≡ some claims

-- Where the crates give back the JSON that was signed and read marked claims from it: whatever principals of a
-- token belong to the system owner, decoding the token gives the signed claims, if the tenant id that the
-- call draws is in none of them and their cards and scopes are read back.
pub verify_access_token-claims_value :
    {I T U N K H D X : Type 0} (v : Verifier I T U N K H D X) (leaves : Leaves I T U N) (marker : T)
    (is_owner : T → Bool)
    → Marks leaves v.is_marker v.system_owner marker is_owner
    → leaves.tenant marker ≡ v.marker
    → (claims : AccessTokenClaims I T U) (token : Text) (key : K) (now : D)
    → Reads v leaves marker is_owner
        (mark_claims leaves v.is_marker v.system_owner marker is_owner claims)
    → IsFresh leaves v.is_marker v.system_owner marker is_owner claims
    → CardsRead leaves v.is_marker v.system_owner marker is_owner claims
    → v.decode token key now ≡ ok (claims_value leaves claims)
    → verify_access_token v token key now ≡ ok claims
unfolding verify_access_token
verify_access_token-claims_value v leaves marker is_owner marks drawn claims token key now reads
      unused cards decoded =
    let marked = mark_claims leaves v.is_marker v.system_owner marker is_owner claims in
    let plain : IsPlain leaves v.is_marker v.system_owner marker is_owner marked = (
      mark-plain leaves v.is_marker v.system_owner marker is_owner marks claims.principal,
      mark_layers-plain leaves v.is_marker v.system_owner marker is_owner marks claims.act,
    ) in
    let replaced : replace_system_owner_tenant_ids v.marker (claims_value leaves claims)
        ≡ claims_value leaves marked =
      subst
        (λ m.
          replace_system_owner_tenant_ids m (claims_value leaves claims)
          ≡ claims_value leaves marked)
        drawn
        (replace-claims_value leaves v.is_marker v.system_owner marker is_owner marks claims) in
    let read : v.from_value (replace_system_owner_tenant_ids v.marker (claims_value leaves claims))
        ≡ some marked =
      ap v.from_value replaced
      ∙ reads plain (
        mark-reads leaves v.is_marker v.system_owner marker is_owner claims.principal cards.0,
        mark_layers-read leaves v.is_marker v.system_owner marker is_owner claims.act cards.1,
      ) in
    let restored =
      restore-mark_claims leaves v.is_marker v.system_owner marker is_owner marks claims unused in
    rw (decoded, read) (ap ok restored)
