-- ===== src/Semver/Loose.antt =====
-- crates/wyrd-semver/src/range.rs: normalising the short forms of a range expression.
pub mod Normalize
pub mod Meaning
use wyrd_core.Prelude.{
  ℕ, ◌≡◌, Bool, true, false, not, ◌&&◌, ◌||◌, Option, none, some, List, [], ◌∷◌, ◌++◌, Outcome, ok,
  err, panic, ◌>>=◌, ◌>>◌, all, length, if◌then◌else◌, ◌==◌,
}
use wyrd_core.Prelude.Text.{Text, codes, text_eq, contains, starts_with, trim, split, is_digit}
use wyrd_core.Semver.Error.{VersionError, empty_version, not_representable}

-- Handed to the crate as they stand: full wildcards, comparator chains, explicit comparators.
unfoldable pub is_pass_through : Text → Bool
unfolding starts_with
is_pass_through t =
    text_eq t (codes "*")
    || contains t b','
    || starts_with t (codes ">=")
    || starts_with t (codes "<=")
    || starts_with t (codes ">")
    || starts_with t (codes "<")
    || starts_with t (codes "=")

-- The prefix `^`, `~` or none, as text, and the body behind it.
unfoldable pub split_prefix : Text → Text × Text
split_prefix [] = ([], [])
split_prefix (c ∷ rest) =
    if c == b'^' then (codes "^", rest) else if c == b'~' then (codes "~", rest) else ([], c ∷ rest)

abbrev dot : Text
dot = b'.' ∷ []

module _ {S : Type 0} where
  -- `^X` and `~X` are padded to three segments.
  unfoldable pub expand_prefixed : Text → Text → List Text → Outcome (VersionError S) Text
  expand_prefixed prefix body (x ∷ []) = ok (prefix ++ (x ++ codes ".0.0"))
  expand_prefixed prefix body (x ∷ y ∷ []) = ok (prefix ++ (x ++ (dot ++ (y ++ codes ".0"))))
  expand_prefixed prefix body (x ∷ y ∷ z ∷ []) = ok (prefix ++ body)
  expand_prefixed prefix body _ = err (not_representable "too many version segments")

  -- A bare partial locks what it names.
  unfoldable pub expand_bare : List Text → Outcome (VersionError S) Text
  expand_bare (x ∷ []) = ok (codes "^" ++ x)
  expand_bare (x ∷ y ∷ []) = ok (codes "~" ++ (x ++ (dot ++ y)))
  expand_bare (x ∷ y ∷ z ∷ []) = ok (codes "=" ++ (x ++ (dot ++ (y ++ (dot ++ z)))))
  expand_bare _ = err (not_representable "too many version segments")

  unfoldable pub normalize_body : Text → Text → Outcome (VersionError S) Text
  normalize_body prefix body =
      if text_eq body []
      then err empty_version
      else if contains body b'*'
      then (if not (text_eq prefix [])
          then err (not_representable "wildcard cannot be combined with ^ or ~")
          else ok body)
      else if contains body b'-' || contains body b'+'
      then ok (prefix ++ body)
      else if not (text_eq prefix [])
      then expand_prefixed prefix body (split b'.' body)
      else expand_bare (split b'.' body)

  unfoldable pub normalize_loose : Text → Outcome (VersionError S) Text
  normalize_loose value =
      let trimmed = trim value in
      let (prefix, body) = split_prefix trimmed in
      if text_eq trimmed []
      then err empty_version
      else if is_pass_through trimmed
      then ok trimmed
      else normalize_body prefix body

-- `VersionRange::is_loose_partial`, on the stored text.
unfoldable pub loose_body : ℕ → Text → Bool
loose_body prefix body =
    let parts = split b'.' body in
    if text_eq body []
      || contains body b'-'
      || contains body b'+'
      || contains body b'*'
      || contains body b','
    then false
    else if not (all (λ p. not (text_eq p []) && all is_digit p) parts)
    then false
    else if prefix == b'^'
    then length parts == 1
    else if prefix == b'~'
    then length parts == 2
    else false

unfoldable pub is_loose_partial : Text → Bool
unfolding loose_body
is_loose_partial [] = false
is_loose_partial (c ∷ body) = if c == b'^' || c == b'~' then loose_body c body else false
