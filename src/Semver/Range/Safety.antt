-- ===== src/Semver/Range/Safety.antt =====
-- crates/wyrd-semver/src/range.rs: panics in the derivation of bounds.
use wyrd_core.Prelude.{
  inl, inr, true, false, List, [], ◌∷◌, ◌||◌, arith, Outcome, collect, IsSafe, IsSafe-bind, length,
  if◌then◌else◌, Bool, ltb, ◌==◌, Bool-cases,
}
use wyrd_core.Prelude.Text.{Text, codes, text_eq, contains, trim, split}
use wyrd_core.Semver.Range.{
  Segment, Prefix, parse_segment, bounds_of_segments, bounds_of_body, bounds_from_str,
}
use wyrd_core.Semver.Range.Bounds.{bounds_of_prefix-IsSafe}

IsSafe-if :
    {E : Type 0} {A : Type 0} (b : Bool) (x y : Outcome E A)
    → IsSafe x
    → IsSafe y
    → IsSafe (if b then x else y)
IsSafe-if true x y hx hy = hx
IsSafe-if false x y hx hy = hy

module _ (S : Type 0) where
  parse_segment-IsSafe : (t : Text) → IsSafe (parse_segment {S = S} t)
  unfolding parse_segment
  parse_segment-IsSafe t = ground arith

  collect-IsSafe : (ts : List Text) → IsSafe (collect (parse_segment {S = S}) ts)
  collect-IsSafe [] = tt
  collect-IsSafe (t ∷ ts) =
      IsSafe-bind (parse_segment {S = S} t) _ (parse_segment-IsSafe t)
        λ _ _. IsSafe-bind (collect (parse_segment {S = S}) ts) _ (collect-IsSafe ts) λ _ _. tt

  bounds_of_segments-IsSafe :
      (p : Prefix) (segments : List Segment) → IsSafe (bounds_of_segments {S = S} p segments)
  unfolding bounds_of_segments
  bounds_of_segments-IsSafe p segments =
      elim (Bool-cases (length segments == 0 || ltb 3 (length segments))) [
        | inl off ↦ rw off tt
        | inr fits ↦ rw fits (bounds_of_prefix-IsSafe S p segments (ground arith) (ground arith))
      ]

  bounds_of_body-IsSafe : (p : Prefix) (body : Text) → IsSafe (bounds_of_body {S = S} p body)
  unfolding bounds_of_body
  bounds_of_body-IsSafe p body = IsSafe-if (text_eq body []) _ _ tt (
      IsSafe-if (contains body b'-' || contains body b'+') _ _ tt (
        IsSafe-bind (collect (parse_segment {S = S}) (split b'.' body)) _
          (collect-IsSafe (split b'.' body)) λ segments _. bounds_of_segments-IsSafe p segments))

  -- Whatever the text, deriving its bounds gives bounds or an error and never panics.
  pub bounds_from_str-IsSafe : (raw : Text) → IsSafe (bounds_from_str {S = S} raw)
  unfolding bounds_from_str
  bounds_from_str-IsSafe raw = IsSafe-if (text_eq (trim raw) []) _ _ tt (
      IsSafe-if (text_eq (trim raw) (codes "*")) _ _ tt
        (IsSafe-if (contains (trim raw) b',') _ _ tt (bounds_of_body-IsSafe _ _)))
