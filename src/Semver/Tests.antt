-- ===== src/Semver/Tests.antt =====
-- Runs of the model, and the theorems of this component at concrete inputs.
use wyrd_core.Prelude.{
  ℕ, ◌≡◌, refl, ◌↔◌, ◌⊎◌, inl, inr, true, false, some, List, [], ◌∷◌, arith, ok, err, panic, IsSafe,
}
use wyrd_core.Prelude.Text.{Text, codes, text_eq, contains, split, parse_u64, show_u64, trim}
use wyrd_core.Semver.Error.{not_representable}
use wyrd_core.Semver.Triple.{SemverTriple, triple_le, triple, zero_triple, admits, Precedes}
use wyrd_core.Semver.Range.{
  tilde, bare, below, bounds_from_str, bounds_of_body, bounds_of_prefix, caret_bounds,
}
use wyrd_core.Semver.Range.Bounds.{
  one, two, three, segments_of, pad, SameLeading, caret_bounds-admits,
}
use wyrd_core.Semver.Range.Texts.{dotted, bounds_from_str-dotted}
use wyrd_core.Prelude.{map, Option, ◌∙◌, ◌-◌, ◌^◌}
use wyrd_core.Prelude.Text.Decimal.{parse_u64-show_u64}
use wyrd_core.Semver.Triple.{cmp}
use wyrd_core.Semver.Range.Texts.{split-dotted}
use wyrd_core.Semver.Loose.Meaning.{
  loose_bounds, loose_bounds-raw, loose_bounds-bare, loose_bounds-zero,
}
use wyrd_core.Semver.Crate.{SemverCrate, Version}
use wyrd_core.Semver.Block.{
  bump_version, bump, semver, minor, patch, parse_range, parse_block, matches,
}
use wyrd_core.Semver.Block.Laws.{
  IsU64, triple_of, semver-bump, bump_version-IsNext, LaterAt, bump_version_overflow,
  matches-IsSafe,
}
use wyrd_core.Semver.Range.Safety.{bounds_from_str-IsSafe}

-- The tests of range.rs.
to_bounds_caret_full :
    bounds_from_str {S = ℕ} (codes "^1.2.3") ≡ ok (below (triple 1 2 3) (triple 2 0 0))
unfolding bounds_from_str bounds_of_body text_eq contains split parse_u64 trim bounds_of_prefix
to_bounds_caret_full = refl

to_bounds_multi :
    bounds_from_str {S = ℕ} (codes ">=1.0.0, <2.0.0")
    ≡ err (not_representable "multi-comparator ranges are not bound-representable")
unfolding bounds_from_str text_eq contains trim
to_bounds_multi = refl

to_bounds_star_minor :
    bounds_from_str {S = ℕ} (codes "1.*") ≡ ok (below (triple 1 0 0) (triple 2 0 0))
unfolding bounds_from_str bounds_of_body text_eq contains split parse_u64 trim bounds_of_prefix
to_bounds_star_minor = refl

caret_bounds-admits_example :
    (admits (below (triple 0 3 0) (triple 0 4 0)) (triple 0 3 9) ≡ true)
    ↔ ((¬ Precedes (triple 0 3 9) (pad (two 0 3))) × SameLeading (pad (two 0 3)) (triple 0 3 9))
caret_bounds-admits_example =
    caret_bounds-admits ℕ (two 0 3) (below (triple 0 3 0) (triple 0 4 0)) (triple 0 3 9)
      (unfold caret_bounds in refl)

bounds_from_str-dotted_example :
    bounds_from_str {S = ℕ} (codes "~10.0.7") ≡ bounds_of_prefix tilde (segments_of (three 10 0 7))
unfolding show_u64
bounds_from_str-dotted_example = bounds_from_str-dotted ℕ tilde (three 10 0 7) (omega arith)

bounds_from_str-IsSafe_example : IsSafe (bounds_from_str {S = ℕ} (codes "^1..*"))
bounds_from_str-IsSafe_example = bounds_from_str-IsSafe ℕ (codes "^1..*")

loose_bounds-bare_example : loose_bounds ℕ (codes "3.1") ≡ bounds_from_str (codes "3.1")
unfolding show_u64
loose_bounds-bare_example = loose_bounds-bare ℕ (two 3 1) (λ e. cc) (omega arith)

loose_bounds-zero_example :
    ((admits (below zero_triple (triple 0 0 1)) (triple 0 5 0) ≡ true)
      ↔ (triple 0 5 0 ≡ zero_triple))
    × ((admits (below zero_triple (triple 1 0 0)) (triple 0 5 0) ≡ true) ↔ (◌≡◌ {A = ℕ} 0 0))
loose_bounds-zero_example =
    loose_bounds-zero ℕ (below zero_triple (triple 0 0 1)) (below zero_triple (triple 1 0 0))
      (triple 0 5 0)
      (loose_bounds-raw ℕ bare (one 0) (omega arith) ∙ (unfold bounds_of_prefix in refl))
      (bounds_from_str-dotted ℕ bare (one 0) (omega arith) ∙ (unfold bounds_of_prefix in refl))

-- A crate whose versions are three dotted `u64`s with no metadata, and whose requirements are texts
-- that match a version of that text.
read_parts : List (Option ℕ) → ℕ ⊎ Version (Unit {0}) (Unit {0})
read_parts (some a ∷ some b ∷ some c ∷ []) =
    inr (record { major = a; minor = b; patch = c; pre = tt; build = tt })
read_parts _ = inl 0

abbrev show_version : Version (Unit {0}) (Unit {0}) → Text
show_version v = dotted (three v.major v.minor v.patch)

abbrev dotted_crate : SemverCrate
dotted_crate = record {
  Error = ℕ;
  Prerelease = Unit {0};
  BuildMetadata = Unit {0};
  VersionReq = Text;
  version_parse = λ t. read_parts (map parse_u64 (split b'.' t));
  version_to_string = show_version;
  version_cmp = λ a b. cmp (triple_of a) (triple_of b);
  prerelease_new = λ t. inl 0;
  prerelease_empty = tt;
  build_new = λ t. inl 0;
  build_empty = tt;
  req_parse = λ t. inr t;
  req_matches = λ t v. text_eq t (show_version v);
}

dotted_crate_prints :
    (v : Version (Unit {0}) (Unit {0}))
    → IsU64 v
    → read_parts (map parse_u64 (split b'.' (show_version v))) ≡ inr v
unfolding read_parts
dotted_crate_prints v (a, b, c) = rw (
  split-dotted (three v.major v.minor v.patch),
  parse_u64-show_u64 v.major a,
  parse_u64-show_u64 v.minor b,
  parse_u64-show_u64 v.patch c,
)

abbrev sample : Version (Unit {0}) (Unit {0})
sample = record { major = 1; minor = 2; patch = 3; pre = tt; build = tt }

semver-bump_example :
    bump_version dotted_crate true minor sample
    ≡ semver dotted_crate (record { value = codes "1.3.0" })
unfolding show_u64
semver-bump_example =
    semver-bump dotted_crate dotted_crate_prints true minor (record { value = codes "1.2.3" })
      (record { value = codes "1.3.0" }) sample (omega arith)
      (unfold semver read_parts parse_u64 split in refl)
      (unfold bump bump_version read_parts parse_u64 split in refl)

bump_version-IsNext_example :
    (w : Version (Unit {0}) (Unit {0})) × (bump_version dotted_crate false minor sample ≡ ok w)
    × ((t : SemverTriple) → LaterAt minor (triple 1 2 3) t ↔ (triple_le (triple_of w) t ≡ true))
    × (w.pre ≡ tt)
    × (w.build ≡ tt)
bump_version-IsNext_example = bump_version-IsNext dotted_crate false minor sample tt (omega arith)

abbrev greatest : Version (Unit {0}) (Unit {0})
greatest = record { major = 1; minor = 2; patch = 2 ^ 64 - 1; pre = tt; build = tt }

bump_version_overflow_example :
    (bump_version dotted_crate true patch greatest ≡ panic)
    × (bump_version dotted_crate false patch greatest
          ≡ ok (record { major = 1; minor = 2; patch = 0; pre = tt; build = tt })
        → Precedes (triple 1 2 0) (triple_of greatest))
bump_version_overflow_example =
    bump_version_overflow dotted_crate patch greatest
      (record { major = 1; minor = 2; patch = 0; pre = tt; build = tt }) tt refl

matches-IsSafe_example :
    IsSafe (matches dotted_crate (record { value = codes "^1" }) (record { value = codes "1.2.3" }))
matches-IsSafe_example =
    matches-IsSafe dotted_crate (codes "^1") (codes "1.2.3") (record { value = codes "^1" })
      (record { value = codes "1.2.3" }) (inl (unfold parse_range text_eq in refl))
      (unfold parse_block text_eq read_parts parse_u64 split in refl)
