-- ===== src/Reference/Samples.antt =====
-- A crate semver and UIDs for texts of card references.
use wyrd_core.Prelude.{
  Bool, true, false, inl, inr, ◌⊎◌, Outcome, ok, err, all, Ordering, Bool-cases, arith, ◌≡◌, [],
  ◌∷◌, ℕ, refl,
}
use wyrd_core.Prelude.Text.{Text, codes, text_eq}
use wyrd_core.Semver.Crate.{SemverCrate, Version}
use wyrd_core.Semver.Block.{VersionBlock, parse_block}
use wyrd_core.Reference.Texts.{IdError, invalid_uuid7}
use wyrd_core.Reference.Texts.RoundTrip.{is_version_char}
use wyrd_core.Reference.Texts.Scopes.{TextLaws}

-- A crate that takes every text of version characters for 1.0.0.
abbrev pub lax_parse : Bool → ℕ ⊎ Version (Unit {0}) (Unit {0})
lax_parse true = inr (record { major = 1; minor = 0; patch = 0; pre = tt; build = tt })
lax_parse false = inl 0

abbrev pub lax_crate : SemverCrate
lax_crate = record {
  Error = ℕ;
  Prerelease = Unit {0};
  BuildMetadata = Unit {0};
  VersionReq = Text;
  version_parse = λ t. lax_parse (all is_version_char t);
  version_to_string = λ v. codes "1.0.0";
  version_cmp = λ a b. Ordering.eq;
  prerelease_new = λ t. inl 0;
  prerelease_empty = tt;
  build_new = λ t. inl 0;
  build_empty = tt;
  req_parse = λ t. inr t;
  req_matches = λ t v. true;
}

pub lax_crate-version_chars :
    (value : Text) (block : VersionBlock)
    → parse_block lax_crate value ≡ ok block
    → all is_version_char value ≡ true
unfolding parse_block text_eq
lax_crate-version_chars [] block h = refl
lax_crate-version_chars (c ∷ value) block h = elim (Bool-cases (all is_version_char (c ∷ value))) [
  | inl fine ↦ fine
  | inr other ↦ absurd (ground (arith, other, h))
]

abbrev pub show_uid : ℕ → Text
show_uid u = u ∷ []

abbrev pub parse_uid : Text → Outcome IdError ℕ
parse_uid (u ∷ []) = ok u
parse_uid _ = err invalid_uuid7

pub lax_laws : TextLaws lax_crate show_uid parse_uid
lax_laws = record { version_chars = lax_crate-version_chars; uid_back = λ u. refl }
