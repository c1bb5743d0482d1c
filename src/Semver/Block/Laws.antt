-- ===== src/Semver/Block/Laws.antt =====
-- crates/wyrd-semver/src/block.rs: bumps, and the stored values that matching relies on.
use wyrd_core.Prelude.{
  ℕ, ◌+◌, ◌<◌, ◌≡◌, refl, ◌∙◌, sym, ap, ◌⊎◌, ◌↔◌, inl, inr, true, false, Bool, arith, ok, panic,
  >>=-eq-ok, IsSafe,
}
use wyrd_core.Prelude.Text.{Text, u64_limit}
use wyrd_core.Semver.Error.{invalid}
use wyrd_core.Semver.Triple.{SemverTriple, triple, triple_le, Precedes}
use wyrd_core.Semver.Crate.{SemverCrate, Version, lift_err}
use wyrd_core.Semver.Block.{
  VersionBump, major, minor, patch, pre, build, pre_build, VersionBlock, VersionRange, parse_block,
  semver, bump_version, bump, parse_range, parse_loose, matches,
}

abbrev pub triple_of : {P B : Type 0} → Version P B → SemverTriple
triple_of v = triple v.major v.minor v.patch

-- The number that a bump raises, and whether it is one of the three that reset what follows.
abbrev pub raised : {P B : Type 0} → VersionBump → Version P B → ℕ
raised major v = v.major
raised minor v = v.minor
raised patch v = v.patch
raised _ v = 0

abbrev pub IsU64 : {P B : Type 0} → Version P B → Type 0
IsU64 v = (v.major < u64_limit) × (v.minor < u64_limit) × (v.patch < u64_limit)

abbrev pub ResetsTriple : VersionBump → Type 0
ResetsTriple major = Unit
ResetsTriple minor = Unit
ResetsTriple patch = Unit
ResetsTriple _ = ⊥

-- A triple is later at the number that a bump raises, or at one in front of it.
abbrev pub LaterAt : VersionBump → SemverTriple → SemverTriple → Type 0
LaterAt major v t = v.major < t.major
LaterAt minor v t = (v.major < t.major) ⊎ ((v.major ≡ t.major) × (v.minor < t.minor))
LaterAt patch v t = Precedes v t
LaterAt _ v t = ⊥

module _ (crate : SemverCrate) where
  open crate use {
    Error, Prerelease, BuildMetadata, version_parse, version_to_string, prerelease_empty,
    build_empty, req_parse,
  }

  -- A major, minor or patch bump of a number below the greatest `u64` gives, with and without overflow
  -- checks, the first triple that is later at the bumped number or at one in front of it: exactly the triples
  -- from it on are. The result has empty metadata.
  pub bump_version-IsNext :
      (checks : Bool) (b : VersionBump) (v : Version Prerelease BuildMetadata)
      → ResetsTriple b
      → raised b v + 1 < u64_limit
      → (w : Version Prerelease BuildMetadata) × (bump_version crate checks b v ≡ ok w)
        × ((t : SemverTriple) → LaterAt b (triple_of v) t ↔ (triple_le (triple_of w) t ≡ true))
        × (w.pre ≡ prerelease_empty)
        × (w.build ≡ build_empty)
  unfolding bump_version triple_le
  bump_version-IsNext checks major v r h = (
    record {
      major = v.major + 1;
      minor = 0;
      patch = 0;
      pre = prerelease_empty;
      build = build_empty;
    },
    ground arith,
    λ t. ground arith,
    refl,
    refl,
  )
  bump_version-IsNext checks minor v r h = (
    record v { minor = v.minor + 1; patch = 0; pre = prerelease_empty; build = build_empty },
    ground arith,
    λ t. ground arith,
    refl,
    refl,
  )
  bump_version-IsNext checks patch v r h = (
    record v { patch = v.patch + 1; pre = prerelease_empty; build = build_empty },
    ground arith,
    λ t. ground arith,
    refl,
    refl,
  )
  bump_version-IsNext checks _ v r h = absurd r

  -- At the greatest `u64` such a bump panics under overflow checks, and without them it gives an
  -- earlier triple.
  pub bump_version_overflow :
      (b : VersionBump) (v w : Version Prerelease BuildMetadata)
      → ResetsTriple b
      → raised b v + 1 ≡ u64_limit
      → (bump_version crate true b v ≡ panic)
        × (bump_version crate false b v ≡ ok w → Precedes (triple_of w) (triple_of v))
  unfolding bump_version
  bump_version_overflow major v w r h = (ground arith, ground arith)
  bump_version_overflow minor v w r h = (ground arith, ground arith)
  bump_version_overflow patch v w r h = (ground arith, ground arith)
  bump_version_overflow _ v w r h = absurd r

  bump_version-IsU64 :
      (checks : Bool) (b : VersionBump) (v w : Version Prerelease BuildMetadata)
      → IsU64 v
      → bump_version crate checks b v ≡ ok w
      → IsU64 w
  unfolding bump_version
  bump_version-IsU64 checks major v w h e = ground arith
  bump_version-IsU64 checks minor v w h e = ground arith
  bump_version-IsU64 checks patch v w h e = ground arith
  bump_version-IsU64 checks (pre t) v w h e = ground arith
  bump_version-IsU64 checks (build t) v w h e = ground arith
  bump_version-IsU64 checks (pre_build t u) v w h e = ground arith

  -- Where the crate parses back every version of three `u64`s that it prints, a bumped block holds
  -- the bumped version.
  pub semver-bump :
      ((v : Version Prerelease BuildMetadata)
        → IsU64 v
        → version_parse (version_to_string v) ≡ inr v)
      → (checks : Bool) (b : VersionBump) (block next : VersionBlock)
        (v : Version Prerelease BuildMetadata)
      → IsU64 v
      → semver crate block ≡ ok v
      → bump crate checks b block ≡ ok next
      → bump_version crate checks b v ≡ semver crate next
  unfolding bump
  semver-bump prints checks b block next v u held bumped =
      let (w, made, same) = >>=-eq-ok (bump_version crate checks b v) _ (rw held at bumped) in
      let stored : next.value ≡ version_to_string w = ground arith in
      made
      ∙ sym (
          ap (λ t. lift_err invalid (version_parse t)) stored
          ∙ ap (lift_err invalid) (prints w (bump_version-IsU64 checks b v w u made)))

  -- A parsed range and a parsed block match without a panic.
  pub matches-IsSafe :
      (range_text block_text : Text) (range : VersionRange) (block : VersionBlock)
      → (parse_range crate range_text ≡ ok range) ⊎ (parse_loose crate range_text ≡ ok range)
      → parse_block crate block_text ≡ ok block
      → IsSafe (matches crate range block)
  unfolding parse_range parse_loose parse_block matches
  matches-IsSafe range_text block_text range block (inl r) h = ground arith
  matches-IsSafe range_text block_text range block (inr r) h = ground arith
