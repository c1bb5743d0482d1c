-- ===== src/Semver/Range.antt =====
-- crates/wyrd-semver/src/range.rs: the bounds of a range expression.
-- The `semver` crate is a parameter: `S` is its error type.
pub mod Bounds
pub mod Texts
pub mod Safety
use wyrd_core.Prelude.{
  ℕ, ◌+◌, Bool, true, false, not, ◌||◌, Option, none, some, List, [], ◌∷◌, Outcome, ok, err, panic,
  ◌>>=◌, expect, collect, ok_or, get_elem?, drop, any, length, if◌then◌else◌, ltb, ◌==◌,
}
use wyrd_core.Prelude.Text.{Text, codes, text_eq, contains, trim, split, parse_u64, u64_limit}
use wyrd_core.Semver.Error.{VersionError, empty_version, bounds_overflow, not_representable}
use wyrd_core.Semver.Triple.{SemverTriple, VersionBounds, triple, zero_triple}

pub data Prefix : Type 0 where
  caret tilde exact bare : Prefix

pub data Segment : Type 0 where
  num : ℕ → Segment
  wildcard : Segment

abbrev pub is_wildcard : Segment → Bool
is_wildcard (num n) = false
is_wildcard wildcard = true

abbrev pub below : SemverTriple → SemverTriple → VersionBounds
below lower upper = record { lower = lower; upper = some upper; upper_inclusive = false }

abbrev pub pinned : SemverTriple → VersionBounds
pinned t = record { lower = t; upper = some t; upper_inclusive = true }

-- `iter().position(|s| matches!(s, Segment::Wildcard))`.
unfoldable pub first_wild : List Segment → Option ℕ
first_wild [] = none
first_wild (wildcard ∷ rest) = some 0
first_wild (num n ∷ rest) = elim (first_wild rest) [ none ↦ none | some i ↦ some (i + 1) ]

strip_prefix : Text → Prefix × Text
strip_prefix [] = (bare, [])
strip_prefix (c ∷ rest) =
    if c == b'^'
    then (caret, rest)
    else if c == b'~'
    then (tilde, rest)
    else if c == b'='
    then (exact, rest)
    else (bare, c ∷ rest)

module _ {S : Type 0} where
  unfoldable pub segment_num : Segment → Outcome (VersionError S) ℕ
  segment_num (num n) = ok n
  segment_num wildcard = err (not_representable "wildcard is not valid here")

  unfoldable pub checked_add_one : ℕ → Outcome (VersionError S) ℕ
  checked_add_one value = if ltb (value + 1) u64_limit then ok (value + 1) else err bounds_overflow

  -- `segments[i]`, then `segment_num`.
  unfoldable pub nth_num : List Segment → ℕ → Outcome (VersionError S) ℕ
  unfolding segment_num
  nth_num segments i = expect (get_elem? segments i) >>= segment_num

  -- `segments.get(i).map(segment_num).transpose()?.unwrap_or(0)`.
  unfoldable pub nth_num_or_zero : List Segment → ℕ → Outcome (VersionError S) ℕ
  unfolding segment_num
  nth_num_or_zero segments i = elim (get_elem? segments i) [
    | none ↦ ok 0
    | some segment ↦ segment_num segment
  ]

  wild_bounds : List Segment → ℕ → Outcome (VersionError S) VersionBounds
  unfolding nth_num checked_add_one
  wild_bounds segments wild_at =
      if any (λ s. not (is_wildcard s)) (drop wild_at segments)
      then err (not_representable "wildcard must be in a trailing position")
      else do
        major ← nth_num segments 0
        let major_only = do
          next ← checked_add_one major
          ok (below (triple major 0 0) (triple next 0 0))
        let major_minor = do
          minor ← nth_num segments 1
          next ← checked_add_one minor
          ok (below (triple major minor 0) (triple major next 0))
        if wild_at == 1 then major_only else major_minor

  full_bounds : List Segment → Outcome (VersionError S) VersionBounds
  unfolding nth_num checked_add_one
  full_bounds segments = do
    major ← nth_num segments 0
    let one = do next ← checked_add_one major; ok (below (triple major 0 0) (triple next 0 0))
    let two = do
      minor ← nth_num segments 1
      next ← checked_add_one minor
      ok (below (triple major minor 0) (triple major next 0))
    let three = do
      minor ← nth_num segments 1
      patch ← nth_num segments 2
      ok (pinned (triple major minor patch))
    let n = length segments
    if n == 1 then one else if n == 2 then two else if n == 3 then three else panic

  unfoldable pub plain_bounds : List Segment → Outcome (VersionError S) VersionBounds
  unfolding first_wild wild_bounds full_bounds
  plain_bounds segments = elim (first_wild segments) [
    | some wild_at ↦ wild_bounds segments wild_at
    | none ↦ full_bounds segments
  ]

  unfoldable pub caret_bounds : List Segment → Outcome (VersionError S) VersionBounds
  unfolding nth_num nth_num_or_zero checked_add_one
  caret_bounds segments =
      if any is_wildcard segments
      then err (not_representable "wildcard cannot be combined with ^ or ~")
      else do
        major ← nth_num segments 0
        minor ← nth_num_or_zero segments 1
        patch ← nth_num_or_zero segments 2
        upper ←
            if not (major == 0)
            then (checked_add_one major >>= λ n. ok (triple n 0 0))
            else if not (minor == 0)
            then (checked_add_one minor >>= λ n. ok (triple 0 n 0))
            else (checked_add_one patch >>= λ n. ok (triple 0 0 n))
        ok (below (triple major minor patch) upper)

  unfoldable pub eq_bounds : List Segment → Outcome (VersionError S) VersionBounds
  unfolding nth_num
  eq_bounds segments =
      if any is_wildcard segments || not (length segments == 3)
      then err (not_representable "wildcard cannot be combined with ^ or ~")
      else do
        major ← nth_num segments 0
        minor ← nth_num segments 1
        patch ← nth_num segments 2
        ok (pinned (triple major minor patch))

  unfoldable pub tilde_bounds : List Segment → Outcome (VersionError S) VersionBounds
  unfolding nth_num nth_num_or_zero checked_add_one
  tilde_bounds segments =
      if any is_wildcard segments
      then err (not_representable "wildcard cannot be combined with ^ or ~")
      else do
        major ← nth_num segments 0
        minor ← nth_num_or_zero segments 1
        patch ← nth_num_or_zero segments 2
        next ← checked_add_one minor
        ok (below (triple major minor patch) (triple major next 0))

  -- One part of the body, between dots.
  unfoldable pub parse_segment : Text → Outcome (VersionError S) Segment
  parse_segment part =
      if text_eq part (codes "*")
      then ok wildcard
      else (ok_or (not_representable "invalid character in version segment") (parse_u64 part)
          >>= λ n. ok (num n))

  unfoldable pub bounds_of_prefix : Prefix → List Segment → Outcome (VersionError S) VersionBounds
  unfolding caret_bounds tilde_bounds eq_bounds plain_bounds
  bounds_of_prefix caret segments = caret_bounds segments
  bounds_of_prefix tilde segments = tilde_bounds segments
  bounds_of_prefix exact segments = eq_bounds segments
  bounds_of_prefix bare segments = plain_bounds segments

  -- At most three segments.
  pub bounds_of_segments : Prefix → List Segment → Outcome (VersionError S) VersionBounds
  bounds_of_segments prefix segments =
      if length segments == 0 || ltb 3 (length segments)
      then err (not_representable "too many version segments")
      else bounds_of_prefix prefix segments

  unfoldable pub bounds_of_body : Prefix → Text → Outcome (VersionError S) VersionBounds
  unfolding contains parse_segment bounds_of_segments
  bounds_of_body prefix body =
      if text_eq body []
      then err empty_version
      else if contains body b'-' || contains body b'+'
      then err (
          not_representable
            "pre-release and build-metadata ranges cannot be expressed as SQL bounds")
      else do segments ← collect parse_segment (split b'.' body); bounds_of_segments prefix segments

  unfoldable pub bounds_from_str : Text → Outcome (VersionError S) VersionBounds
  unfolding strip_prefix
  bounds_from_str raw =
      let trimmed = trim raw in
      let (prefix, body) = strip_prefix trimmed in
      if text_eq trimmed []
      then err empty_version
      else if text_eq trimmed (codes "*")
      then ok (record { lower = zero_triple; upper = none; upper_inclusive = false })
      else if contains trimmed b','
      then err (not_representable "multi-comparator ranges are not bound-representable")
      else bounds_of_body prefix body
