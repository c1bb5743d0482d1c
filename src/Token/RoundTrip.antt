-- ===== src/Token/RoundTrip.antt =====
-- crates/wyrd-auth-issue/src/lib.rs, crates/wyrd-auth-verify/src/lib.rs: an issued token under verification.
use wyrd_core.Prelude.{ℕ, ◌≡◌, Bool, true, some, List, [], ok}
use wyrd_core.Prelude.Text.{Text}
use wyrd_core.Rbac.Permission.{PermissionSet}
use wyrd_core.Rbac.Principal.{PrincipalKind}
use wyrd_core.Token.{kid, as_i64, TokenPrincipalRef, AccessTokenClaims, VerifiedToken}
use wyrd_core.Token.Issue.{Chrono, IssuingKey, Moment, timestamps}
use wyrd_core.Token.Verify.{Verifier, Resolve, verify_fresh}
use wyrd_core.Token.Wire.{Leaves, claims_value}
use wyrd_core.Token.Wire.Sentinel.{Marks, Reads, mark_claims}

module _ {I T U N K H X D Y : Type 0} (v : Verifier I T U N K H D X) (key : IssuingKey I T U Y)
    (leaves : Leaves I T U N) (marker : T) (is_owner : T → Bool) (public_key : K)
    (accepts : ℕ → ℕ → D → Bool) where
  -- What the crates and the set-up give for some claims and the token that they are signed as: the verifier
  -- knows the key under its id, and what the key signed is decoded while `accepts` holds of its times.
  pub record Matched (claims : AccessTokenClaims I T U) (token : Text) (now : D) : Type 0 where
    pub marks : Marks leaves v.is_marker v.system_owner marker is_owner
    pub drawn : leaves.tenant marker ≡ v.marker
    pub reads :
        Reads v leaves marker is_owner
          (mark_claims leaves v.is_marker v.system_owner marker is_owner claims)
    pub own_tenant : (t : T) → v.tenant_eq t t ≡ true
    pub valid_kid : kid key.kid ≡ some key.kid
    pub known : v.decoding_keys key.kid ≡ some public_key
    pub header : key.sign key.kid claims ≡ ok token → v.decode_header token ≡ ok (some key.kid)
    pub payload :
        key.sign key.kid claims ≡ ok token
        → accepts claims.iat claims.exp now ≡ true
        → v.decode token public_key now ≡ ok (claims_value leaves claims)

  -- The verification accepts the times of a call's token, and they are times.
  pub record Timely {S : Type 0} (chrono : Chrono D S) (at : Moment D) (ttl : S) (now : D)
      : Type 0 where
    pub iat : ℕ
    pub exp : ℕ
    pub issued_at : D
    pub expires_at : D
    pub dated : timestamps {X = Y} chrono at.now ttl ≡ ok (iat, exp)
    pub accepted : accepts iat exp now ≡ true
    pub read_iat : v.from_timestamp (as_i64 iat) ≡ some issued_at
    pub read_exp : v.from_timestamp (as_i64 exp) ≡ some expires_at

  -- What verification makes of a token of a principal that acts for itself.
  abbrev pub Result :
      Resolve T → D → Text → I → T → PrincipalKind U → List Text → PermissionSet → Type 0
  Result resolve now token id tenant kind roles permissions =
      (result : VerifiedToken I T U D) × (verify_fresh v resolve now token tenant ≡ ok result)
      × (result.principal.id ≡ id)
      × (result.principal.kind ≡ kind)
      × (result.principal.tenant_id ≡ tenant)
      × (result.principal.roles ≡ roles)
      × (result.principal.effective_permissions ≡ permissions)
      × (result.delegation_chain ≡ [])

  module _ (resolve : Resolve T) (now : D) {S : Type 0} (chrono : Chrono D S) (at : Moment D)
      (ttl : S) (timely : Timely chrono at ttl now) where
    -- The claims of a principal that acts for itself.
    abbrev pub own_claims : TokenPrincipalRef I T U → List Text → AccessTokenClaims I T U
    own_claims p roles = record {
      sub = key.show_id p.id;
      principal = p;
      roles = roles;
      act = [];
      exp = timely.exp;
      iat = timely.iat;
      iss = key.issuer;
      jti = at.jti;
    }
