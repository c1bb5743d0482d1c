-- ===== src/Semver/Error.antt =====
-- crates/wyrd-semver/src/error.rs. `S` is the error type of the `semver` crate.
use Prim.Native.String.{String}

pub data VersionError (S : Type 0) : Type 0 where
  invalid : S → VersionError S
  invalid_range : S → VersionError S
  empty_version : VersionError S
  invalid_prerelease : S → VersionError S
  invalid_build : S → VersionError S
  bounds_overflow : VersionError S
  not_representable : String → VersionError S
