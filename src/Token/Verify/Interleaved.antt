-- ===== src/Token/Verify/Interleaved.antt =====
-- crates/wyrd-auth-verify/src/lib.rs: calls of a `TokenVerifier` that run at once over its cache.
use wyrd_core.Prelude.{
  Outcome, err, panic, List, [], ◌∷◌, ◌≤◌, ◌≡◌, ◌⊎◌, inl, inr, false, none, some, length, ltb, ok,
  arith, refl, sym, ap, ◌∙◌, subst, Bool-cases, Option-cases,
}
use wyrd_core.Prelude.Text.{Text}
use wyrd_core.Token.{AuthError, max_bearer_token_bytes, VerifiedToken}
use wyrd_core.Token.Verify.{
  Verifier, Moka, MokaLaws, Resolve, drop_all, hashes_of, verify_fresh, is_revoked,
  check_revocation, check_loaded, look, load, verify, invalidate, invalidate_principal,
}
use wyrd_core.Token.Verify.Hits.{look-ok, load-ok}

module _ {I T U N K H D X C : Type 0} (v : Verifier I T U N K H D X)
    (m : Moka C H (VerifiedToken I T U D) (AuthError X)) where
  -- Every entry of the first cache is one of the second.
  abbrev pub Within : C → C → Type 0
  Within a b =
      (h : H) (result : VerifiedToken I T U D) → m.find h a ≡ some result → m.find h b ≡ some result

  -- One step of one of the calls, or an eviction.
  pub data Step (cache : C) : C → Type 0 where
    looks : (now : D) (token : Text) (tenant : T) → Step cache (look v m now token tenant cache).1
    loads :
        (resolve : Resolve T) (now : D) (token : Text) (tenant : T)
        → Step cache (load v m resolve now token tenant cache).1
    forgets_token : (token : Text) → Step cache (invalidate v m token cache)
    forgets_principal : (id : I) → Step cache (invalidate_principal v m id cache)
    evicts : (less : C) → Within less cache → Step cache less

  pub data Reach : C → Type 0 where
    empty : (cache : C) → ((h : H) → m.find h cache ≡ none) → Reach cache
    next : {a b : C} → Reach a → Step a b → Reach b

  -- An entry under `h` came of verifying a token with that hash.
  pub record Made (h : H) (result : VerifiedToken I T U D) : Type 0 where
    pub token : Text
    pub resolve : Resolve T
    pub now : D
    pub tenant : T
    pub hashed : v.hash token ≡ h
    pub fresh : verify_fresh v resolve now token tenant ≡ ok result

  abbrev AllMade : C → Type 0
  AllMade cache =
      (h : H) (result : VerifiedToken I T U D) → m.find h cache ≡ some result → Made h result

  -- Verifying the bearer token afresh gave the token, at some time, for some tenant.
  pub record Genuine (bearer : Text) (result : VerifiedToken I T U D) : Type 0 where
    pub resolve : Resolve T
    pub now : D
    pub tenant : T
    pub fresh : verify_fresh v resolve now bearer tenant ≡ ok result

  Made-Genuine :
      (no_collision : (a b : Text) → v.hash a ≡ v.hash b → a ≡ b) (bearer : Text)
      (result : VerifiedToken I T U D)
      → Made (v.hash bearer) result
      → Genuine bearer result
  Made-Genuine no_collision bearer result this = record {
    resolve = this.resolve;
    now = this.now;
    tenant = this.tenant;
    fresh =
        subst (λ t. verify_fresh v this.resolve this.now t this.tenant ≡ ok result)
          (no_collision this.token bearer this.hashed) this.fresh;
  }

  AllMade-Within : {a b : C} → Within a b → AllMade b → AllMade a
  AllMade-Within within made h result e = made h result (within h result e)

  module _ (laws : MokaLaws m) where
    drop_all-Within : (hashes : List H) (cache : C) → Within (drop_all v m hashes cache) cache
    unfolding drop_all
    drop_all-Within [] cache h result e = e
    drop_all-Within (k ∷ hashes) cache h result e =
        laws.dropped k h cache result (drop_all-Within hashes (m.drop_entry k cache) h result e)

    check_revocation-Within :
        (now : D) (h : H) (token : VerifiedToken I T U D) (cache : C)
        → Within (check_revocation v m now h token cache).1 cache
    check_revocation-Within now h token cache k result e =
        elim (Bool-cases (is_revoked v now token)) [
          | inl dead ↦ laws.dropped h k cache result (ground (arith, dead, e))
          | inr live ↦ ground (arith, live, e)
        ]

    look-Within :
        (now : D) (token : Text) (tenant : T) (cache : C)
        → Within (look v m now token tenant cache).1 cache
    unfolding look
    look-Within now token tenant cache k result e =
        let h = v.hash token in
        elim (Bool-cases (ltb max_bearer_token_bytes (length token))) [
          | inl long ↦ ground (arith, long, e)
          | inr short ↦ elim (Option-cases (m.find h cache)) [
            | inl miss ↦ ground (arith, short, miss, e)
            | inr (cached, hit) ↦
                elim (Bool-cases (v.tenant_eq cached.principal.tenant_id tenant)) [
                  | inr other ↦ laws.dropped h k cache result (ground (arith, short, hit, other, e))
                  | inl same ↦ elim (Bool-cases (v.is_expired now cached.exp)) [
                    | inl old ↦
                        laws.dropped h k cache result (ground (arith, short, hit, same, old, e))
                    | inr young ↦
                        check_revocation-Within now h cached cache k result
                          (ground (arith, short, hit, same, young, e))
                  ]
                ]
          ]
        ]

    check_loaded-Within :
        (now : D) (h : H) (loaded : Outcome (AuthError X) (VerifiedToken I T U D) × C)
        → Within (check_loaded v m now h loaded).1 loaded.1
    check_loaded-Within now h (ok token, cache) = check_revocation-Within now h token cache
    check_loaded-Within now h (err error, cache) = λ k result e. e
    check_loaded-Within now h (panic, cache) = λ k result e. e

    load-AllMade :
        (resolve : Resolve T) (now : D) (token : Text) (tenant : T) (cache : C)
        → AllMade cache
        → AllMade (load v m resolve now token tenant cache).1
    unfolding load
    load-AllMade resolve now token tenant cache made k result e =
        let h = v.hash token in
        let fresh = verify_fresh v resolve now token tenant in
        let loaded = check_loaded-Within now h (m.try_get_with h fresh cache) k result e in
        elim (laws.filled h k cache fresh result loaded) [
          | inl old ↦ made k result old
          | inr (same, computed) ↦ record {
            token = token;
            resolve = resolve;
            now = now;
            tenant = tenant;
            hashed = sym same;
            fresh = computed;
          }
        ]

    Step-AllMade : {a b : C} → Step a b → AllMade a → AllMade b
    unfolding invalidate invalidate_principal
    Step-AllMade {a} (looks now token tenant) made =
        AllMade-Within (look-Within now token tenant a) made
    Step-AllMade {a} (loads resolve now token tenant) made =
        load-AllMade resolve now token tenant a made
    Step-AllMade {a} (forgets_token token) made =
        AllMade-Within (λ h result e. laws.dropped (v.hash token) h a result e) made
    Step-AllMade {a} (forgets_principal id) made =
        AllMade-Within (drop_all-Within (hashes_of v m id (m.entries a)) a) made
    Step-AllMade (evicts less within) made = AllMade-Within within made

    Reach-AllMade : {cache : C} → Reach cache → AllMade cache
    Reach-AllMade (empty cache gone) = λ h result e. absurd (ground (arith, gone h, e))
    Reach-AllMade (next r step) = Step-AllMade step (Reach-AllMade r)

    -- Over a cache that keeps the laws, where no two bearer tokens share a hash: however calls of `verify`,
    -- `invalidate` and `invalidate_principal` interleave, and whatever is evicted, a token that either half
    -- of a `verify` answers with is one that verifying the same bearer token afresh gave, at some time, for
    -- some tenant.
    pub interleaved-Genuine :
        (no_collision : (a b : Text) → v.hash a ≡ v.hash b → a ≡ b) {cache : C}
        → Reach cache
        → (resolve : Resolve T) (now : D) (token : Text) (tenant : T)
          (result : VerifiedToken I T U D)
        → ((look v m now token tenant cache).0 ≡ some (ok result))
          ⊎ ((load v m resolve now token tenant cache).0 ≡ ok result)
        → Genuine token result
    interleaved-Genuine no_collision {cache} reach resolve now token tenant result answer =
        let cached : m.find (v.hash token) cache ≡ some result → Genuine token result = λ hit.
          Made-Genuine no_collision token result (Reach-AllMade reach (v.hash token) result hit) in
        elim answer [
          | inl looked ↦ cached (look-ok v m now token tenant cache result looked).1
          | inr loaded ↦ elim (load-ok v m laws resolve now token tenant cache result loaded).1 [
            | inl hit ↦ cached hit
            | inr (miss, fresh) ↦ record {
              resolve = resolve;
              now = now;
              tenant = tenant;
              fresh = fresh;
            }
          ]
        ]

    -- The second half of a `verify` does not look at the tenant of an entry that another call has put in since
    -- the first half: over a cache that keeps the laws and has no entry for the token, a call that expects any
    -- other tenant goes on to its second half, and after a call with the right tenant that left its token
    -- there, it answers with that token if it is not revoked.
    pub verify-foreign :
        (resolve : Resolve T) (now : D) (token : Text) (tenant other : T) (cache : C)
        (result : VerifiedToken I T U D)
        → length token ≤ max_bearer_token_bytes
        → m.find (v.hash token) cache ≡ none
        → m.find (v.hash token) (verify v m resolve now token tenant cache).1 ≡ some result
        → is_revoked v now result ≡ false
        → (look v m now token other cache ≡ (none, cache))
          × (let after = (verify v m resolve now token tenant cache).1 in
              load v m resolve now token other after ≡ (ok result, after))
    unfolding look load
    verify-foreign resolve now token tenant other cache result short miss kept live =
        let fits : ltb max_bearer_token_bytes (length token) ≡ false = ground (arith, short) in
        let after = (verify v m resolve now token tenant cache).1 in
        let found =
          laws.hit (v.hash token) after result (verify_fresh v resolve now token other) kept in
        (rw (fits, miss, look) refl, ap (check_loaded v m now (v.hash token)) found ∙ rw live refl)
