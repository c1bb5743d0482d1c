-- ===== src/Token/Verify.antt =====
-- crates/wyrd-auth-verify/src/lib.rs: `TokenVerifier`. `N`, `K`, `H` and `D` are the types of JSON numbers,
-- decoding keys, token hashes and times. `Moka` is the cache of the crate
-- moka, whose states are `C`.
pub mod Hits
pub mod Interleaved
use wyrd_core.Prelude.{
  ◌≡◌, ◌⊎◌, ℕ, zero, suc, ◌+◌, Bool, true, false, not, Option, none, some, List, [], ◌∷◌, length,
  if◌then◌else◌, ◌==◌, ltb, Outcome, ok, err, panic, ◌>>=◌, map_err, ok_or,
}
use wyrd_core.Prelude.Text.{Text}
use wyrd_core.Prelude.Int.{ℤ}
use wyrd_core.Rbac.Permission.{PermissionSet}
use wyrd_core.Rbac.Principal.{Principal}
use wyrd_core.Token.{
  AuthError, invalid_token, token_expired, revoked, bad_token_format, ResolveError,
  max_bearer_token_bytes, kid, tag, PrincipalKindTag, AccessTokenClaims, VerifiedToken,
  into_verified,
}
use wyrd_core.Token.Json.{Json, replace_system_owner_tenant_ids, restore_system_owner_tenant_ids}

-- What a verifier is built over. `decode_header` is that of jsonwebtoken with the conversion of its errors,
-- and `decode` its decoding with a key at a time, under the policy of `validation`. `from_value` is the
-- derived deserialization of claims, `marker` what `DataTenantId::new_v7` gives and `is_marker` the test
-- against it. `epoch` is the revocation resolver, if there is one.
pub record Verifier (I T U N K H D X : Type 0) : Type 0 where
  pub decode_header : Text → Outcome (AuthError X) (Option Text)
  pub decoding_keys : Text → Option K
  pub decode : Text → K → D → Outcome (AuthError X) (Json N)
  pub from_value : Json N → Option (AccessTokenClaims I T U)
  pub marker : Text
  pub is_marker : T → Bool
  pub system_owner : T
  pub tenant_eq : T → T → Bool
  pub id_eq : I → I → Bool
  pub from_timestamp : ℤ → Option D
  pub hash : Text → H
  pub earlier : D → D → Bool
  pub is_expired : D → D → Bool
  pub revocation : Option (T → I → PrincipalKindTag → D → Outcome ResolveError (Option D))

-- A cache of `V` under `H`: its operations, and the entries that its iterator gives. `try_get_with` takes
-- what its initialiser comes to, so a call that waits for the initialiser of another is not modelled.
pub record Moka (C H V E : Type 0) : Type 0 where
  pub find : H → C → Option V
  pub try_get_with : H → Outcome E V → C → Outcome E V × C
  pub drop_entry : H → C → C
  pub entries : C → List (H × V)

-- What the documentation of moka says of them; it may evict entries at any call that changes the cache.
pub record MokaLaws {C H V E : Type 0} (m : Moka C H V E) : Type 0 where
  pub hit :
      (h : H) (cache : C) (found : V) (init : Outcome E V)
      → m.find h cache ≡ some found
      → m.try_get_with h init cache ≡ (ok found, cache)
  pub computed :
      (h : H) (cache : C) (init : Outcome E V)
      → m.find h cache ≡ none
      → (m.try_get_with h init cache).0 ≡ init
  pub filled :
      (h k : H) (cache : C) (init : Outcome E V) (found : V)
      → m.find k (m.try_get_with h init cache).1 ≡ some found
      → (m.find k cache ≡ some found) ⊎ ((k ≡ h) × (init ≡ ok found))
  pub dropped :
      (h k : H) (cache : C) (found : V)
      → m.find k (m.drop_entry h cache) ≡ some found
      → m.find k cache ≡ some found

-- The resolver of roles.
abbrev pub Resolve : Type 0 → Type 0
Resolve T = T → List Text → Outcome ResolveError PermissionSet

module _ {I T U N K H D X : Type 0} (v : Verifier I T U N K H D X) where
  unfoldable pub verify_access_token :
      Text → K → D → Outcome (AuthError X) (AccessTokenClaims I T U)
  verify_access_token token key now = v.decode token key now >>= λ raw.
      ok_or invalid_token (v.from_value (replace_system_owner_tenant_ids v.marker raw))
      >>= λ claims. ok (restore_system_owner_tenant_ids v.is_marker v.system_owner claims)

  -- What `try_get_with` runs when the cache has no entry.
  unfoldable pub verify_fresh :
      Resolve T → D → Text → T → Outcome (AuthError X) (VerifiedToken I T U D)
  verify_fresh resolve now token tenant = v.decode_header token >>= λ header.
      ok_or invalid_token header >>= λ text. ok_or invalid_token (kid text) >>= λ id.
      ok_or invalid_token (v.decoding_keys id) >>= λ key.
      verify_access_token token key now >>= λ claims.
      if not (v.tenant_eq claims.principal.tenant_id tenant)
      then err invalid_token
      else into_verified resolve v.from_timestamp claims

  -- The token was issued before the epoch of its principal; an unavailable resolver revokes nothing.
  unfoldable pub is_revoked : D → VerifiedToken I T U D → Bool
  is_revoked now token = elim v.revocation [
    | none ↦ false
    | some epoch ↦
        elim (epoch token.principal.tenant_id token.principal.id (tag token.principal.kind) now) [
          | ok (some e) ↦ v.earlier token.iat e
          | _ ↦ false
        ]
  ]

module _ {I T U N K H D X C : Type 0} (v : Verifier I T U N K H D X)
    (m : Moka C H (VerifiedToken I T U D) (AuthError X)) where
  abbrev pub check_revocation :
      D → H → VerifiedToken I T U D → C → Outcome (AuthError X) (VerifiedToken I T U D) × C
  check_revocation now h token cache =
      if is_revoked v now token then (err revoked, m.drop_entry h cache) else (ok token, cache)

  -- `verify` up to the end of its hit branch; `none` goes on.
  unfoldable pub look :
      D → Text → T → C → Option (Outcome (AuthError X) (VerifiedToken I T U D)) × C
  look now token tenant cache =
      let h = v.hash token in
      if ltb max_bearer_token_bytes (length token)
      then (some (err bad_token_format), cache)
      else elim (m.find h cache) [
        | some cached ↦
            if not (v.tenant_eq cached.principal.tenant_id tenant)
            then (some (err invalid_token), m.drop_entry h cache)
            else if v.is_expired now cached.exp
            then (some (err token_expired), m.drop_entry h cache)
            else (
              some (check_revocation now h cached cache).0,
              (check_revocation now h cached cache).1,
            )
        | none ↦ (none, cache)
      ]

  abbrev pub check_loaded :
      D
      → H
      → Outcome (AuthError X) (VerifiedToken I T U D) × C
      → Outcome (AuthError X) (VerifiedToken I T U D) × C
  check_loaded now h (ok result, cache) = check_revocation now h result cache
  check_loaded now h (err e, cache) = (err e, cache)
  check_loaded now h (panic, cache) = (panic, cache)

  -- The rest of `verify`. Other calls may change the cache between the two.
  unfoldable pub load :
      Resolve T → D → Text → T → C → Outcome (AuthError X) (VerifiedToken I T U D) × C
  load resolve now token tenant cache =
      check_loaded now (v.hash token)
        (m.try_get_with (v.hash token) (verify_fresh v resolve now token tenant) cache)

  abbrev pub go_on :
      Resolve T
      → D
      → Text
      → T
      → Option (Outcome (AuthError X) (VerifiedToken I T U D)) × C
      → Outcome (AuthError X) (VerifiedToken I T U D) × C
  go_on resolve now token tenant (some done, cache) = (done, cache)
  go_on resolve now token tenant (none, cache) = load resolve now token tenant cache

  -- A call that no other runs into.
  unfoldable pub verify :
      Resolve T → D → Text → T → C → Outcome (AuthError X) (VerifiedToken I T U D) × C
  verify resolve now token tenant cache =
      go_on resolve now token tenant (look now token tenant cache)

  unfoldable pub invalidate : Text → C → C
  invalidate token cache = m.drop_entry (v.hash token) cache

  -- The hashes that `invalidate_principal` collects, and its loop over them.
  unfoldable pub hashes_of : I → List (H × VerifiedToken I T U D) → List H
  hashes_of id [] = []
  hashes_of id ((h, token) ∷ entries) =
      let rest = hashes_of id entries in if v.id_eq token.principal.id id then h ∷ rest else rest

  unfoldable pub drop_all : List H → C → C
  drop_all [] cache = cache
  drop_all (h ∷ hashes) cache = drop_all hashes (m.drop_entry h cache)

  unfoldable pub invalidate_principal : I → C → C
  invalidate_principal id cache = drop_all (hashes_of id (m.entries cache)) cache
