-- ===== src/Reference/Tests.antt =====
-- Scopes at concrete references.
use wyrd_core.Prelude.{ok, err, ◌++◌, arith, ◌≡◌, ◌||◌, none, some, [], ◌∷◌, any, ℕ, refl}
use wyrd_core.Prelude.Text.{split, Text, codes, text_eq, is_digit}
use wyrd_core.Semver.Block.{parse_block}
use wyrd_core.Reference.Texts.Scopes.{scope_from_strings, scope_to_strings}
use wyrd_core.Reference.Texts.{
  bad_space, invalid_token, read_space, read_kind, read_name, parse_card_kind, find_kind,
  missing_version, card_ref_to_string, card_ref_from_str, read_uid, split_once, rsplit_once,
  validate_token, validate_token_with_min, is_token_char,
}
use wyrd_core.Reference.Samples.{lax_crate, lax_crate-version_chars, show_uid, parse_uid}
use wyrd_core.Reference.Texts.Reread.{card_ref_to_string-from_str}
use wyrd_core.Reference.Texts.RoundTrip.{card_ref_from_str-to_string}
use wyrd_core.Reference
use wyrd_core.Reference.{
  CardRef, CardKind, identity_key, same_identity, from_root_and_members, authorizes,
}
use wyrd_core.Reference.Scope.{
  IsDistinct, authorizes-from_root_and_members, from_root_and_members-IsDistinct,
}

abbrev service_card : CardRef ℕ
service_card = record {
  kind = Reference.service;
  name = codes "shop";
  version = record { value = codes "1.0.0" };
  space = some (codes "default");
  uid = none;
}

-- The same card with the UID that the server gave it.
abbrev bound_card : CardRef ℕ
bound_card = record service_card { uid = some 7 }

abbrev prompt_card : CardRef ℕ
prompt_card = record service_card { kind = Reference.prompt }

authorizes-from_root_and_members_example :
    authorizes (from_root_and_members service_card (prompt_card ∷ bound_card ∷ [])) bound_card ≡ (
      same_identity service_card bound_card
      || any (λ m. same_identity m bound_card) (prompt_card ∷ bound_card ∷ []))
authorizes-from_root_and_members_example =
    authorizes-from_root_and_members service_card (prompt_card ∷ bound_card ∷ []) bound_card

from_root_and_members-IsDistinct_example :
    IsDistinct (from_root_and_members service_card (prompt_card ∷ bound_card ∷ []))
from_root_and_members-IsDistinct_example =
    from_root_and_members-IsDistinct service_card (prompt_card ∷ bound_card ∷ [])

shop_text :
    card_ref_to_string lax_crate show_uid parse_uid bound_card
    ≡ codes "default/Service/shop@1.0.0#" ++ 7 ∷ []
unfolding card_ref_to_string
shop_text = refl

no_version :
    card_ref_from_str lax_crate show_uid parse_uid (codes "default/Service/shop")
    ≡ err missing_version
unfolding card_ref_from_str read_uid split_once rsplit_once
no_version = refl

card_ref_from_str-to_string_example :
    card_ref_from_str lax_crate show_uid parse_uid
      (card_ref_to_string lax_crate show_uid parse_uid bound_card)
    ≡ ok bound_card
card_ref_from_str-to_string_example =
    card_ref_from_str-to_string lax_crate show_uid parse_uid lax_crate-version_chars (λ u. refl)
      Reference.service (codes "shop") (codes "default") (record { value = codes "1.0.0" }) (some 7)
      (unfold validate_token validate_token_with_min is_token_char is_digit in refl)
      (unfold validate_token validate_token_with_min is_token_char is_digit in refl)
      (unfold parse_block text_eq is_digit in refl)

shop_read :
    card_ref_from_str lax_crate show_uid parse_uid (codes "default/Service/shop@1.0.0#" ++ 7 ∷ [])
    ≡ ok bound_card
unfolding card_ref_from_str read_uid split_once rsplit_once read_space split validate_token
    validate_token_with_min is_token_char read_kind parse_card_kind find_kind text_eq read_name
    parse_block is_digit
shop_read = refl

reads_back : (t : Text) (u : ℕ) → parse_uid t ≡ ok u → show_uid u ≡ t
reads_back [] u h = cc
reads_back (a ∷ []) u h = ground (arith, h)
reads_back (a ∷ b ∷ t) u h = cc

card_ref_to_string-from_str_example :
    card_ref_to_string lax_crate show_uid parse_uid bound_card
    ≡ codes "default/Service/shop@1.0.0#" ++ 7 ∷ []
card_ref_to_string-from_str_example =
    card_ref_to_string-from_str lax_crate show_uid parse_uid reads_back
      (codes "default/Service/shop@1.0.0#" ++ 7 ∷ []) bound_card shop_read

-- A scope of a card without a space is written as a text that is not read.
spaceless :
    scope_from_strings lax_crate show_uid parse_uid
      (scope_to_strings lax_crate show_uid parse_uid (record service_card { space = none } ∷ []))
    ≡ err (bad_space invalid_token)
unfolding scope_from_strings scope_to_strings card_ref_from_str card_ref_to_string read_uid
    split_once rsplit_once read_space split validate_token validate_token_with_min
spaceless = refl
