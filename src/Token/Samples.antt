-- ===== src/Token/Samples.antt =====
-- A service, its token, a verifier of tokens that are all signed for it, and a cache.
use wyrd_core.Prelude.{
  Outcome, err, panic, inr, if◌then◌else◌, ◌⊎◌, Bool-cases, sym, ℕ, ◌≡◌, inl, none, some, [], ok,
  arith, refl, ◌==◌, ltb, Option,
}
use wyrd_core.Prelude.Text.{Text, codes, text_eq, text_eq_iff}
use wyrd_core.Prelude.Int.{ℤ, pos}
use wyrd_core.Reference
use wyrd_core.Reference.{CardRef, own, CardRefScope, from_root_and_members}
use wyrd_core.Rbac.Principal.{PrincipalKind}
use wyrd_core.Token.{
  AuthError, PrincipalKindTag, TokenPrincipalRef, AccessTokenClaims, VerifiedToken,
}
use wyrd_core.Token.Json.{null}
use wyrd_core.Token.Verify.{Verifier, Resolve, Moka, MokaLaws}

abbrev pub shop : CardRef ℕ
shop = record {
  kind = Reference.service;
  name = codes "shop";
  version = record { value = codes "1.0.0" };
  space = none;
  uid = none;
}

abbrev pub shop_ref : TokenPrincipalRef ℕ ℕ ℕ
shop_ref = record {
  id = 3;
  kind = PrincipalKindTag.service;
  tenant_id = 1;
  card_ref = some shop;
  card_ref_scope = [];
}

abbrev pub claims : AccessTokenClaims ℕ ℕ ℕ
claims = record {
  sub = codes "3";
  principal = shop_ref;
  roles = [];
  act = [];
  exp = 60;
  iat = 0;
  iss = codes "wyrd";
  jti = codes "j1";
}

abbrev pub verified : VerifiedToken ℕ ℕ ℕ ℕ
verified = record {
  principal = record {
    id = 3;
    kind = PrincipalKind.service shop (own shop);
    tenant_id = 1;
    roles = [];
    effective_permissions = [];
  };
  delegation_chain = [];
  exp = 60;
  iat = 0;
}

abbrev pub seconds : ℤ → Option ℕ
seconds (pos n) = some n
seconds _ = none

abbrev pub v : Verifier ℕ ℕ ℕ ℕ ℕ Text ℕ ℕ
v = record {
  decode_header = λ token. ok (some (codes "k"));
  decoding_keys = λ kid. some 0;
  decode = λ token key now. ok null;
  from_value = λ value. some claims;
  marker = codes "m";
  is_marker = λ t. t == 9;
  system_owner = 0;
  tenant_eq = λ s t. s == t;
  id_eq = λ i j. i == j;
  from_timestamp = seconds;
  hash = λ token. token;
  earlier = λ s t. ltb s t;
  is_expired = λ now exp. ltb exp now;
  revocation = none;
}

abbrev pub resolve : Resolve ℕ
resolve tenant roles = ok []

-- A cache that keeps everything, as the function of what it finds. Nothing here asks for its entries.
abbrev pub Cache : Type 0
Cache = Text → Option (VerifiedToken ℕ ℕ ℕ ℕ)

abbrev pub Answer : Type 0
Answer = Outcome (AuthError ℕ) (VerifiedToken ℕ ℕ ℕ ℕ)

abbrev pub load_into : Text → Cache → Option (VerifiedToken ℕ ℕ ℕ ℕ) → Answer → Answer × Cache
load_into h cache (some found) init = (ok found, cache)
load_into h cache none (ok made) = (ok made, λ k. if text_eq h k then some made else cache k)
load_into h cache none (err e) = (err e, cache)
load_into h cache none panic = (panic, cache)

abbrev pub moka : Moka Cache Text (VerifiedToken ℕ ℕ ℕ ℕ) (AuthError ℕ)
moka = record {
  find = λ h cache. cache h;
  try_get_with = λ h init cache. load_into h cache (cache h) init;
  drop_entry = λ h cache k. if text_eq h k then none else cache k;
  entries = λ cache. [];
}

hit_law :
    (h : Text) (cache : Cache) (found : VerifiedToken ℕ ℕ ℕ ℕ) (init : Answer)
    → cache h ≡ some found
    → load_into h cache (cache h) init ≡ (ok found, cache)
hit_law h cache found init hit = rw hit refl

computed_law :
    (h : Text) (cache : Cache) (init : Answer)
    → cache h ≡ none
    → (load_into h cache (cache h) init).0 ≡ init
computed_law h cache (ok made) miss = rw miss refl
computed_law h cache (err e) miss = rw miss refl
computed_law h cache panic miss = rw miss refl

filled_law :
    (h k : Text) (cache : Cache) (before : Option (VerifiedToken ℕ ℕ ℕ ℕ)) (init : Answer)
    (found : VerifiedToken ℕ ℕ ℕ ℕ)
    → (load_into h cache before init).1 k ≡ some found
    → (cache k ≡ some found) ⊎ ((k ≡ h) × (init ≡ ok found))
filled_law h k cache (some old) init found e = inl e
filled_law h k cache none (ok made) found e = elim (Bool-cases (text_eq h k)) [
  | inl here ↦ inr (sym ((text_eq_iff h k).0 here), ground (arith, here, e))
  | inr there ↦ inl (ground (arith, there, e))
]
filled_law h k cache none (err x) found e = inl e
filled_law h k cache none panic found e = inl e

dropped_law :
    (h k : Text) (cache : Cache) (found : VerifiedToken ℕ ℕ ℕ ℕ)
    → (if text_eq h k then none else cache k) ≡ some found
    → cache k ≡ some found
dropped_law h k cache found e = elim (Bool-cases (text_eq h k)) [
  | inl here ↦ absurd (ground (arith, here, e))
  | inr there ↦ ground (arith, there, e)
]

pub laws : MokaLaws moka
laws = record {
  hit = hit_law;
  computed = computed_law;
  filled = λ h k cache init found. filled_law h k cache (cache h) init found;
  dropped = dropped_law;
}

abbrev pub nothing : Cache
nothing h = none

abbrev pub bearer : Text
bearer = codes "t"
