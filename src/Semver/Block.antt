-- ===== src/Semver/Block.antt =====
-- crates/wyrd-semver/src/block.rs and bump.rs: version blocks, and the ranges of range.rs that the
-- `semver` crate parses and matches.
pub mod Laws
use wyrd_core.Prelude.{
  ℕ, ◌+◌, ◌%◌, not, Bool, true, false, ◌&&◌, ◌||◌, Option, none, some, List, [], ◌∷◌, ◌++◌,
  Ordering, Outcome, ok, err, panic, ◌>>=◌, ◌>>◌, all, length, if◌then◌else◌, ◌==◌, ltb,
}
use wyrd_core.Prelude.Text.{Text, codes, text_eq, split, is_digit, show_u64, u64_limit}
use wyrd_core.Semver.Error.{
  VersionError, invalid, invalid_range, empty_version, invalid_prerelease, invalid_build,
  not_representable,
}
use wyrd_core.Semver.Triple.{SemverTriple, VersionBounds}
use wyrd_core.Semver.Range.{bounds_from_str}
use wyrd_core.Semver.Loose
use wyrd_core.Semver.Loose.{normalize_loose}
use wyrd_core.Semver.Crate.{SemverCrate, Version, lift_err, unwrap}

pub data VersionBump : Type 0 where
  major minor patch : VersionBump
  pre : Text → VersionBump
  build : Text → VersionBump
  pre_build : Text → Text → VersionBump

-- The stored text of a `VersionBlock` and of a `VersionRange`.
pub record VersionBlock : Type 0 where
  pub value : Text

pub record VersionRange : Type 0 where
  pub value : Text

pub data VersionSpec : Type 0 where
  pin : VersionBlock → VersionSpec
  scope : VersionRange → VersionSpec

-- `Display` of a triple.
unfoldable pub triple_to_string : SemverTriple → Text
triple_to_string t = show_u64 t.major ++ (b'.' ∷ (show_u64 t.minor ++ (b'.' ∷ show_u64 t.patch)))

-- `n += 1` on a `u64`: with overflow checks a panic, without them it wraps.
unfoldable pub increment {ℓ} : {E : Type ℓ} → Bool → ℕ → Outcome E ℕ
increment checks n =
    if ltb (n + 1) u64_limit then ok (n + 1) else if checks then panic else ok ((n + 1) % u64_limit)

module _ (crate : SemverCrate) where
  open crate use {
    Error, Prerelease, BuildMetadata, VersionReq, version_parse, version_to_string, version_cmp,
    prerelease_new, prerelease_empty, build_new, build_empty, req_parse, req_matches,
  }

  unfoldable pub parse_block : Text → Outcome (VersionError Error) VersionBlock
  parse_block value =
      if text_eq value []
      then err empty_version
      else (lift_err invalid (version_parse value) >>= λ _. ok (record { value = value }))

  unfoldable pub semver :
      VersionBlock → Outcome (VersionError Error) (Version Prerelease BuildMetadata)
  semver block = lift_err invalid (version_parse block.value)

  -- `VersionBlock::from_triple`; the `expect` on the parse is a panic.
  unfoldable pub from_triple : SemverTriple → Outcome (VersionError Error) VersionBlock
  unfolding parse_block
  from_triple t = elim (parse_block (triple_to_string t)) [
    | ok block ↦ ok block
    | err e ↦ panic
    | panic ↦ panic
  ]

  unfoldable pub bump_version :
      Bool
      → VersionBump
      → Version Prerelease BuildMetadata
      → Outcome (VersionError Error) (Version Prerelease BuildMetadata)
  unfolding increment
  bump_version checks patch v = do
    next ← increment checks v.patch
    ok (record v { patch = next; pre = prerelease_empty; build = build_empty })
  bump_version checks minor v = do
    next ← increment checks v.minor
    ok (record v { minor = next; patch = 0; pre = prerelease_empty; build = build_empty })
  bump_version checks major v = do
    next ← increment checks v.major
    ok (record { major = next; minor = 0; patch = 0; pre = prerelease_empty; build = build_empty })
  bump_version checks (pre identifier) v = do
    p ← lift_err invalid_prerelease (prerelease_new identifier)
    ok (record v { pre = p })
  bump_version checks (build metadata) v = do
    b ← lift_err invalid_build (build_new metadata)
    ok (record v { build = b })
  bump_version checks (pre_build identifier metadata) v = do
    p ← lift_err invalid_prerelease (prerelease_new identifier)
    b ← lift_err invalid_build (build_new metadata)
    ok (record v { pre = p; build = b })

  unfoldable pub bump :
      Bool → VersionBump → VersionBlock → Outcome (VersionError Error) VersionBlock
  unfolding semver
  bump checks b block = do
    v ← semver block
    next ← bump_version checks b v
    ok (record { value = version_to_string next })

  unfoldable pub parse_range : Text → Outcome (VersionError Error) VersionRange
  parse_range value =
      if text_eq value []
      then err empty_version
      else (lift_err invalid_range (req_parse value) >>= λ _. ok (record { value = value }))

  unfoldable pub parse_loose : Text → Outcome (VersionError Error) VersionRange
  parse_loose value = if text_eq value [] then err empty_version else do
    normalized ← normalize_loose value
    lift_err invalid_range (req_parse normalized)
    ok (record { value = normalized })

  -- `VersionRange::matches`; both `expect`s are panics.
  unfoldable pub matches : VersionRange → VersionBlock → Outcome (VersionError Error) Bool
  matches range block = do
    req ← unwrap (req_parse range.value)
    version ← unwrap (version_parse block.value)
    ok (req_matches req version)

  unfoldable pub to_bounds : VersionRange → Outcome (VersionError Error) VersionBounds
  to_bounds range = bounds_from_str range.value

  unfoldable pub parse_spec : Text → Outcome (VersionError Error) VersionSpec
  unfolding parse_block parse_range
  parse_spec value = elim (parse_block value) [
    | ok block ↦ ok (pin block)
    | panic ↦ panic
    | err e ↦
        let parts = split b'.' value in
        if (length parts == 1 || length parts == 2)
          && all (λ part. not (text_eq part []) && all is_digit part) parts
        then (parse_range value >>= λ range. ok (scope range))
        else err (not_representable "register-path version must be a triple pin or bare partial")
  ]
