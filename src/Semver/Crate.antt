-- ===== src/Semver/Crate.antt =====
-- The `semver` crate, a dependency of crates/wyrd-semver: a parameter of the model.
use wyrd_core.Prelude.{ℕ, ◌⊎◌, inl, inr, Bool, Ordering, Outcome, ok, err}
use wyrd_core.Prelude.Text.{Text}

-- `semver::Version`, over the types of its pre-release and build metadata.
pub record Version (P B : Type 0) : Type 0 where
  pub major : ℕ
  pub minor : ℕ
  pub patch : ℕ
  pub pre : P
  pub build : B

-- What the source calls. A `Result` is a sum, its error on the left.
pub record SemverCrate : Type 1 where
  pub Error : Type 0
  pub Prerelease : Type 0
  pub BuildMetadata : Type 0
  pub VersionReq : Type 0
  pub version_parse : Text → Error ⊎ Version Prerelease BuildMetadata
  pub version_to_string : Version Prerelease BuildMetadata → Text
  pub version_cmp : Version Prerelease BuildMetadata → Version Prerelease BuildMetadata → Ordering
  pub prerelease_new : Text → Error ⊎ Prerelease
  pub prerelease_empty : Prerelease
  pub build_new : Text → Error ⊎ BuildMetadata
  pub build_empty : BuildMetadata
  pub req_parse : Text → Error ⊎ VersionReq
  pub req_matches : VersionReq → Version Prerelease BuildMetadata → Bool

-- `result.map_err(f)`.
abbrev pub lift_err {ℓ κ μ} : {E : Type ℓ} {F : Type κ} {A : Type μ} → (E → F) → E ⊎ A → Outcome F A
lift_err f (inl e) = err (f e)
lift_err f (inr a) = ok a

-- `result.expect(message)`.
abbrev pub unwrap {ℓ κ μ} : {E : Type ℓ} {F : Type κ} {A : Type μ} → E ⊎ A → Outcome F A
unwrap (inl e) = Outcome.panic
unwrap (inr a) = ok a
