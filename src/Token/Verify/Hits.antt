-- ===== src/Token/Verify/Hits.antt =====
-- crates/wyrd-auth-verify/src/lib.rs: what `verify` returns, and what its cache may hold.
use wyrd_core.Prelude.{
  Outcome, err, panic, ◌≤◌, ◌≡◌, ◌⊎◌, inl, inr, true, false, Option, none, some, length, ltb, ok,
  ok_or, arith, refl, sym, ap, ◌∙◌, subst, Bool-cases, Option-cases, >>=-eq-ok,
}
use wyrd_core.Prelude.Text.{Text}
use wyrd_core.Prelude.Int.{ℤ}
use wyrd_core.Token.{
  AuthError, max_bearer_token_bytes, kid, AccessTokenClaims, VerifiedToken, into_verified,
}
use wyrd_core.Token.Verify.{
  Verifier, Moka, MokaLaws, Resolve, verify_access_token, verify_fresh, is_revoked,
  check_revocation, check_loaded, look, load, verify,
}

into_verified-tenant :
    {I T U X D : Type 0} (resolve : Resolve T) (from_timestamp : ℤ → Option D)
    (claims : AccessTokenClaims I T U) (result : VerifiedToken I T U D)
    → into_verified {X = X} resolve from_timestamp claims ≡ ok result
    → result.principal.tenant_id ≡ claims.principal.tenant_id
unfolding into_verified
into_verified-tenant resolve from_timestamp claims result h = ground (arith, h)

module _ {I T U N K H D X : Type 0} (v : Verifier I T U N K H D X) where
  verify_fresh-tenant :
      (resolve : Resolve T) (now : D) (token : Text) (tenant : T) (result : VerifiedToken I T U D)
      → verify_fresh v resolve now token tenant ≡ ok result
      → v.tenant_eq result.principal.tenant_id tenant ≡ true
  unfolding verify_fresh
  verify_fresh-tenant resolve now token tenant result h =
      let (header, e1, h1) = >>=-eq-ok (v.decode_header token) _ h in
      let (text, e2, h2) = >>=-eq-ok (ok_or _ header) _ h1 in
      let (id, e3, h3) = >>=-eq-ok (ok_or _ (kid text)) _ h2 in
      let (key, e4, h4) = >>=-eq-ok (ok_or _ (v.decoding_keys id)) _ h3 in
      let (claims, e5, h5) = >>=-eq-ok (verify_access_token v token key now) _ h4 in
      elim (Bool-cases (v.tenant_eq claims.principal.tenant_id tenant)) [
        | inl same ↦
            let made : into_verified {X = X} resolve v.from_timestamp claims ≡ ok result =
              ground (arith, same, h5) in
            let here = into_verified-tenant resolve v.from_timestamp claims result made in
            subst (λ t. v.tenant_eq t tenant ≡ true) (sym here) same
        | inr other ↦ absurd (ground (arith, other, h5))
      ]

  -- What holds of a token that `verify` returns.
  pub record Accepted (now : D) (token : Text) (tenant : T) (result : VerifiedToken I T U D)
      : Type 0 where
    pub short : length token ≤ max_bearer_token_bytes
    pub own_tenant : v.tenant_eq result.principal.tenant_id tenant ≡ true
    pub live : is_revoked v now result ≡ false

module _ {I T U N K H D X C : Type 0} (v : Verifier I T U N K H D X)
    (m : Moka C H (VerifiedToken I T U D) (AuthError X)) where
  check_revocation-ok :
      (now : D) (h : H) (token result : VerifiedToken I T U D) (cache : C)
      → (check_revocation v m now h token cache).0 ≡ ok result
      → (token ≡ result) × (is_revoked v now result ≡ false)
  check_revocation-ok now h token result cache done = elim (Bool-cases (is_revoked v now token)) [
    | inl dead ↦ absurd (ground (arith, dead, done))
    | inr live ↦ (ground (arith, live, done), ground (arith, live, done))
  ]

  -- A hit or a fresh verification.
  abbrev pub Origin : Resolve T → D → Text → T → C → VerifiedToken I T U D → Type 0
  Origin resolve now token tenant cache result =
      ((m.find (v.hash token) cache ≡ some result) × (v.is_expired now result.exp ≡ false))
      ⊎ ((m.find (v.hash token) cache ≡ none)
          × (verify_fresh v resolve now token tenant ≡ ok result))

  pub look-ok :
      (now : D) (token : Text) (tenant : T) (cache : C) (result : VerifiedToken I T U D)
      → (look v m now token tenant cache).0 ≡ some (ok result)
      → Accepted v now token tenant result
        × (m.find (v.hash token) cache ≡ some result)
        × (v.is_expired now result.exp ≡ false)
  unfolding look
  look-ok now token tenant cache result h =
      elim (Bool-cases (ltb max_bearer_token_bytes (length token))) [
        | inl long ↦ absurd (ground (arith, long, h))
        | inr short ↦ elim (Option-cases (m.find (v.hash token) cache)) [
          | inl miss ↦ absurd (ground (arith, short, miss, h))
          | inr (cached, hit) ↦ elim (Bool-cases (v.tenant_eq cached.principal.tenant_id tenant)) [
            | inr other ↦ absurd (ground (arith, short, hit, other, h))
            | inl same ↦ elim (Bool-cases (v.is_expired now cached.exp)) [
              | inl old ↦ absurd (ground (arith, short, hit, same, old, h))
              | inr young ↦
                  let (here, live) =
                    check_revocation-ok now (v.hash token) cached result cache
                      (ground (arith, short, hit, same, young, h)) in
                  (
                    record {
                      short = ground (arith, short);
                      own_tenant =
                          subst (λ t. v.tenant_eq t.principal.tenant_id tenant ≡ true) here same;
                      live = live;
                    },
                    hit ∙ ap some here,
                    subst (λ t. v.is_expired now t.exp ≡ false) here young,
                  )
            ]
          ]
        ]
      ]

  look-none :
      (now : D) (token : Text) (tenant : T) (cache : C)
      → (look v m now token tenant cache).0 ≡ none
      → (length token ≤ max_bearer_token_bytes)
        × (m.find (v.hash token) cache ≡ none)
        × ((look v m now token tenant cache).1 ≡ cache)
  unfolding look
  look-none now token tenant cache h =
      elim (Bool-cases (ltb max_bearer_token_bytes (length token))) [
        | inl long ↦ absurd (ground (arith, long, h))
        | inr short ↦ elim (Option-cases (m.find (v.hash token) cache)) [
          | inl miss ↦ (ground (arith, short), miss, rw (short, miss, look) refl)
          | inr (cached, hit) ↦ absurd (ground (arith, short, hit, h))
        ]
      ]

  check_loaded-ok :
      (now : D) (h : H) (loaded : Outcome (AuthError X) (VerifiedToken I T U D) × C)
      (result : VerifiedToken I T U D)
      → (check_loaded v m now h loaded).0 ≡ ok result
      → (loaded.0 ≡ ok result) × (is_revoked v now result ≡ false)
  check_loaded-ok now h (ok made, cache) result done =
      let (here, live) = check_revocation-ok now h made result cache done in (ap ok here, live)
  check_loaded-ok now h (err e, cache) result done = cc
  check_loaded-ok now h (panic, cache) result done = cc

  pub load-ok :
      MokaLaws m
      → (resolve : Resolve T) (now : D) (token : Text) (tenant : T) (cache : C)
        (result : VerifiedToken I T U D)
      → (load v m resolve now token tenant cache).0 ≡ ok result
      → (is_revoked v now result ≡ false)
        × ((m.find (v.hash token) cache ≡ some result)
            ⊎ ((m.find (v.hash token) cache ≡ none)
                × (verify_fresh v resolve now token tenant ≡ ok result)))
  unfolding load
  load-ok laws resolve now token tenant cache result h =
      let fresh = verify_fresh v resolve now token tenant in
      let (value, live) =
        check_loaded-ok now (v.hash token) (m.try_get_with (v.hash token) fresh cache) result h in
      elim (Option-cases (m.find (v.hash token) cache)) [
        | inr (cached, hit) ↦
            let found = ap (λ r. r.0) (laws.hit (v.hash token) cache cached fresh hit) in
            let same : cached ≡ result = ground (arith, found, value) in
            (live, inl (hit ∙ ap some same))
        | inl miss ↦ (live, inr (miss, sym (laws.computed (v.hash token) cache fresh miss) ∙ value))
      ]

  -- Over a cache that keeps the laws, a call of `verify` that no other runs into returns a token only if the bearer token has at most 8192
  -- bytes, the token is of the expected tenant and not revoked, and it is a cached one that has not expired
  -- or what verifying the bearer token afresh gives.
  pub verify-Accepted :
      MokaLaws m
      → (resolve : Resolve T) (now : D) (token : Text) (tenant : T) (cache : C)
        (result : VerifiedToken I T U D)
      → (verify v m resolve now token tenant cache).0 ≡ ok result
      → Accepted v now token tenant result × Origin resolve now token tenant cache result
  unfolding verify
  verify-Accepted laws resolve now token tenant cache result h =
      elim (Option-cases (look v m now token tenant cache).0) [
        | inr (done, answer) ↦
            let (accepted, hit, young) =
              look-ok now token tenant cache result (ground (arith, answer, h)) in
            (accepted, inl (hit, young))
        | inl more ↦
            let (short, miss, same) = look-none now token tenant cache more in
            let later : (load v m resolve now token tenant (look v m now token tenant cache).1).0
                ≡ ok result =
              ground (arith, more, h) in
            let (live, from) =
              load-ok laws resolve now token tenant cache result
                (subst (λ c. (load v m resolve now token tenant c).0 ≡ ok result) same later) in
            elim from [
              | inl hit ↦ absurd (ground (arith, hit, miss))
              | inr (_, fresh) ↦ (
                record {
                  short = short;
                  own_tenant = verify_fresh-tenant v resolve now token tenant result fresh;
                  live = live;
                },
                inr (miss, fresh),
              )
            ]
      ]
