-- ===== src/Authz/Tests.antt =====
-- Tokens of a service.
use wyrd_core.Prelude.{ℕ, ◌≡◌, true, none, some, [], ◌∷◌, err, refl}
use wyrd_core.Prelude.Text.{codes}
use wyrd_core.Reference
use wyrd_core.Reference.{CardRef}
use wyrd_core.Rbac.Principal.{Principal, service, user}
use wyrd_core.Token.{VerifiedToken}
use wyrd_core.Authz.{
  guard_reason, reject, chain_empty, AuthzCheckRequest, is_delegated_token, from_headers,
  invalid_utf8,
}
use wyrd_core.Authz.Agreement.{Agreed, from_verified-Agreed}

abbrev shop : CardRef ℕ
shop = record {
  kind = Reference.service;
  name = codes "shop";
  version = record { value = codes "1.0.0" };
  space = none;
  uid = none;
}

abbrev shop_principal : Principal ℕ ℕ ℕ
shop_principal = record {
  id = 3;
  kind = service shop (shop ∷ []);
  tenant_id = 1;
  roles = [];
  effective_permissions = [];
}

-- A user acts through the shop.
abbrev delegated : VerifiedToken ℕ ℕ ℕ ℕ
delegated = record {
  principal = shop_principal;
  delegation_chain = record { principal = record { id = 8; kind = user } } ∷ [];
  exp = 60;
  iat = 0;
}

abbrev request : AuthzCheckRequest ℕ ℕ
request = record { target = shop; action = codes "card_write"; context = 0 }

direct : guard_reason shop_principal 0 ≡ reject chain_empty
unfolding guard_reason
direct = refl

delegated_test : is_delegated_token delegated ≡ true
unfolding is_delegated_token
delegated_test = refl

-- The first header is there, but is no text.
bad_header : from_headers (λ header. some none) ≡ err (invalid_utf8 (codes "x-original-method"))
unfolding from_headers
bad_header = refl

from_verified-Agreed_example : Agreed {N = ℕ} delegated request none 5
from_verified-Agreed_example = from_verified-Agreed delegated request none 5
