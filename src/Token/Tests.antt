-- ===== src/Token/Tests.antt =====
-- Calls of the verifier and of the issuer at concrete tokens.
use wyrd_core.Prelude.{
  ℕ, zero, suc, Bool, ◌≡◌, inl, false, none, some, List, [], ◌∷◌, ok, arith, refl, ◌==◌, ltb, ◌+◌,
  ◌++◌,
}
use wyrd_core.Prelude.Text.{Text, codes, text_eq}
use wyrd_core.Prelude.Int.{pos}
use wyrd_core.Reference.{CardRef, own, from_root_and_members}
use wyrd_core.Rbac.Principal.{PrincipalKind, DelegationStep, kind_card_ref}
use wyrd_core.Token.{
  PrincipalKindTag, AccessTokenClaims, wire_kind_into_principal_kind, flatten_act_chain,
  into_verified, kid, is_kid_char, seed_scope, flatten_from, tag,
}
use wyrd_core.Token.Json.{null, number, nil_tenant, restore_system_owner_tenant_ids, restore_layers}
use wyrd_core.Token.Issue.{
  Chrono, IssuingKey, Moment, DelegationCaller, validate_principal_ref, validate_kind, act_depth,
  issue_access_token_with_claims, access_claims, timestamps, issue_delegated_access_token,
}
use wyrd_core.Token.Verify.{
  Verifier, is_revoked, invalidate, verify, verify_fresh, look, load, verify_access_token,
}
use wyrd_core.Token.Verify.Hits.{Accepted, Origin, verify-Accepted}
use wyrd_core.Token.Verify.Interleaved.{
  empty, next, loads, forgets_token, Genuine, interleaved-Genuine, verify-foreign,
}
use wyrd_core.Reference.Samples.{lax_crate, show_uid, parse_uid}
use wyrd_core.Token.Wire.{Leaves, claims_value}
use wyrd_core.Token.Wire.Sentinel.{mark_claims}
use wyrd_core.Token.RoundTrip.{Timely}
use wyrd_core.Token.Chain.{issue_delegated_access_token-chain}
use wyrd_core.Token.Samples.{shop, shop_ref, verified, v, resolve, moka, laws, nothing, bearer}

fresh : verify_fresh v resolve 5 bearer 1 ≡ ok verified
unfolding verify_fresh verify_access_token into_verified wire_kind_into_principal_kind kid text_eq
    is_kid_char restore_system_owner_tenant_ids restore_layers seed_scope flatten_act_chain
    flatten_from
fresh = refl

live : is_revoked v 5 verified ≡ false
unfolding is_revoked
live = refl

done : (verify v moka resolve 5 bearer 1 nothing).0 ≡ ok verified
unfolding verify look load is_revoked verify_fresh verify_access_token into_verified
    wire_kind_into_principal_kind kid text_eq is_kid_char restore_system_owner_tenant_ids
    restore_layers seed_scope flatten_act_chain flatten_from
done = refl

-- Another token is forgotten, and then this one is a hit.
hit :
    (look v moka 6 bearer 1
      (invalidate v moka (codes "u") (load v moka resolve 5 bearer 1 nothing).1)).0
    ≡ some (ok verified)
unfolding look load is_revoked invalidate verify_fresh verify_access_token into_verified
    wire_kind_into_principal_kind kid text_eq is_kid_char restore_system_owner_tenant_ids
    restore_layers seed_scope flatten_act_chain flatten_from
hit = refl

verify-Accepted_example :
    Accepted v 5 bearer 1 verified × Origin v moka resolve 5 bearer 1 nothing verified
verify-Accepted_example = verify-Accepted v moka laws resolve 5 bearer 1 nothing verified done

interleaved-Genuine_example : Genuine v moka bearer verified
interleaved-Genuine_example =
    interleaved-Genuine v moka laws (λ a b same. same)
      (next (next (empty nothing (λ h. refl)) (loads resolve 5 bearer 1))
        (forgets_token (codes "u")))
      resolve 6 bearer 1 verified (inl hit)

kept : moka.find bearer (verify v moka resolve 5 bearer 1 nothing).1 ≡ some verified
unfolding verify look load is_revoked verify_fresh verify_access_token into_verified
    wire_kind_into_principal_kind kid text_eq is_kid_char restore_system_owner_tenant_ids
    restore_layers seed_scope flatten_act_chain flatten_from
kept = refl

verify-foreign_example :
    (look v moka 5 bearer 2 nothing ≡ (none, nothing))
    × (let after = (verify v moka resolve 5 bearer 1 nothing).1 in
        load v moka resolve 5 bearer 2 after ≡ (ok verified, after))
verify-foreign_example =
    verify-foreign v moka laws resolve 5 bearer 1 2 nothing verified (omega arith) refl kept live

abbrev key : IssuingKey ℕ ℕ ℕ ℕ
key = record {
  kid = codes "k";
  issuer = codes "wyrd";
  show_id = λ id. id ∷ [];
  sign = λ kid claims. ok bearer;
  sign_refresh = λ kid claims. ok bearer;
}

abbrev chrono : Chrono ℕ ℕ
chrono = record { timestamp = pos; add = λ now ttl. some (now + ttl); is_positive = ltb 0 }

abbrev moment : Moment ℕ
moment = record { now = 10; jti = codes "j2" }

-- The shop acts for user 8.
abbrev caller : DelegationCaller ℕ ℕ ℕ
caller = record {
  sub = codes "8";
  principal = shop_ref;
  act =
      record {
        sub = codes "8";
        principal = record shop_ref { id = 8; kind = PrincipalKindTag.user; card_ref = none };
      }
      ∷ [];
}

abbrev chain : List (DelegationStep ℕ ℕ)
chain = record { principal = record { id = 8; kind = PrincipalKind.user } } ∷ []

issued : issue_delegated_access_token key chrono moment caller shop_ref [] 60 ≡ ok bearer
unfolding issue_delegated_access_token validate_principal_ref validate_kind act_depth
    issue_access_token_with_claims access_claims timestamps
issued = refl

read :
    wire_kind_into_principal_kind {X = ℕ} PrincipalKindTag.service (some shop) []
    ≡ ok (PrincipalKind.service shop (own shop))
unfolding wire_kind_into_principal_kind seed_scope
read = refl

older : flatten_act_chain {X = ℕ} caller.act ≡ ok chain
unfolding flatten_act_chain flatten_from wire_kind_into_principal_kind
older = refl

issue_delegated_access_token-chain_example :
    (claims : AccessTokenClaims ℕ ℕ ℕ) × (step : DelegationStep ℕ ℕ) × (key.sign key.kid claims
      ≡ ok bearer)
    × (claims.principal ≡ shop_ref)
    × (flatten_act_chain {X = ℕ} claims.act ≡ ok (chain ++ step ∷ []))
    × (step.principal.id ≡ 3)
    × (tag step.principal.kind ≡ PrincipalKindTag.service)
    × (kind_card_ref step.principal.kind ≡ some shop)
issue_delegated_access_token-chain_example =
    issue_delegated_access_token-chain key chrono moment caller shop_ref [] 60 bearer []
      (PrincipalKind.service shop (own shop)) chain issued read older

-- The shop of the system owner. Tenant 9 is drawn as the marker.
abbrev tenant_text : ℕ → Text
tenant_text zero = nil_tenant
tenant_text (suc n) = suc n ∷ []

abbrev leaves : Leaves ℕ ℕ ℕ ℕ
leaves = record {
  crate = lax_crate;
  show_uid = show_uid;
  parse_uid = parse_uid;
  id = number;
  tenant = tenant_text;
  card = λ card. null;
  roles = λ roles. null;
  seconds = λ n. n;
}

abbrev home_shop : CardRef ℕ
home_shop = record shop { space = some (codes "default") }

abbrev is_owner : ℕ → Bool
is_owner t = t == 0

abbrev owner_claims : AccessTokenClaims ℕ ℕ ℕ
owner_claims = record {
  sub = 3 ∷ [];
  principal = record shop_ref {
    tenant_id = 0;
    card_ref = some home_shop;
    card_ref_scope = from_root_and_members home_shop [];
  };
  roles = [];
  act = [];
  exp = 70;
  iat = 10;
  iss = codes "wyrd";
  jti = codes "j2";
}

abbrev reader : Verifier ℕ ℕ ℕ ℕ ℕ Text ℕ ℕ
reader = record v {
  decode = λ token key now. ok (claims_value leaves owner_claims);
  from_value = λ value. some (mark_claims leaves v.is_marker 0 9 is_owner owner_claims);
  marker = 9 ∷ [];
}

abbrev accepts : ℕ → ℕ → ℕ → Bool
accepts iat exp now = ltb now exp

dated : timestamps {X = ℕ} chrono 10 60 ≡ ok (10, 70)
unfolding timestamps
dated = refl

abbrev timely : Timely {X = ℕ} {Y = ℕ} reader key leaves 9 is_owner 0 accepts chrono moment 60 20
timely = record {
  iat = 10;
  exp = 70;
  issued_at = 10;
  expires_at = 70;
  dated = dated;
  accepted = refl;
  read_iat = refl;
  read_exp = refl;
}
