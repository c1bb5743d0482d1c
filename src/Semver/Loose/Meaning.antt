-- ===== src/Semver/Loose/Meaning.antt =====
-- crates/wyrd-semver/src/range.rs: the bounds of normalised short forms, and `is_loose_partial`.
use wyrd_core.Prelude.{
  ℕ, ◌≤◌, ◌<◌, ◌≡◌, refl, ◌∙◌, sym, ◌≢◌, ◌↔◌, inl, true, false, not, List, [], ◌∷◌, arith, ok,
  Outcome, All, ◌>>=◌, all, map, length, if◌then◌else◌, ◌==◌, ◌&&◌,
}
use wyrd_core.Prelude.Text.{Text, text_eq, contains, show_u64, u64_limit, is_digit}
use wyrd_core.Prelude.Text.Decimal.{Digits, show_u64-Digits, show_u64-ne-nil}
use wyrd_core.Prelude.Text.Scan.{contains-Lacks, text_eq-ne}
use wyrd_core.Semver.Error.{VersionError}
use wyrd_core.Semver.Triple.{VersionBounds, SemverTriple, admits, zero_triple}
use wyrd_core.Semver.Range.{Prefix, caret, tilde, exact, bare, bounds_from_str, bounds_of_prefix}
use wyrd_core.Semver.Range.Bounds.{
  Numbers, one, two, three, numbers, segments_of, plain_bounds-admits,
}
use wyrd_core.Semver.Range.Texts.{
  dotted, dotted-IsPlain, dotted-ne-nil, plain-Lacks, split-dotted, bounds_from_str-dotted, shown,
}
use wyrd_core.Semver.Loose.{normalize_loose, is_loose_partial, loose_body}
use wyrd_core.Semver.Loose.Normalize.{
  normal_prefix, normal_numbers, pad_numbers, raw, normalize_loose-raw,
}

-- Every number of `ns` fits in a `u64`.
abbrev pub AreU64 : Numbers → Type 0
AreU64 ns = All (λ n. n < u64_limit) (numbers ns)

normal_numbers-AreU64 : (p : Prefix) (ns : Numbers) → AreU64 ns → AreU64 (normal_numbers p ns)
normal_numbers-AreU64 caret (one x) h = omega arith
normal_numbers-AreU64 caret (two x y) h = omega arith
normal_numbers-AreU64 caret (three x y z) h = h
normal_numbers-AreU64 tilde (one x) h = omega arith
normal_numbers-AreU64 tilde (two x y) h = omega arith
normal_numbers-AreU64 tilde (three x y z) h = h
normal_numbers-AreU64 exact ns h = h
normal_numbers-AreU64 bare ns h = h

-- `parse_loose` followed by `to_bounds`, without the crate's check of the normalised text.
abbrev pub loose_bounds : (S : Type 0) → Text → Outcome (VersionError S) VersionBounds
loose_bounds S t = normalize_loose t >>= λ normalized. bounds_from_str normalized

pub loose_bounds-raw :
    (S : Type 0) (p : Prefix) (ns : Numbers)
    → AreU64 ns
    → loose_bounds S (raw p ns)
      ≡ bounds_of_prefix (normal_prefix p ns) (segments_of (normal_numbers p ns))
loose_bounds-raw S p ns h = rw (normalize_loose-raw S p ns) (
    bounds_from_str-dotted S (normal_prefix p ns) (normal_numbers p ns)
      (normal_numbers-AreU64 p ns h))

module _ (S : Type 0) where
  loose_agrees :
      (ns : Numbers)
      → ns ≢ one 0
      → bounds_of_prefix {S = S} (normal_prefix bare ns) (segments_of ns)
        ≡ bounds_of_prefix bare (segments_of ns)
  unfolding bounds_of_prefix
  loose_agrees (one x) h = ground arith
  loose_agrees (two x y) h = ground arith
  loose_agrees (three x y z) h = ground arith

  -- The loose form of a bare `X`, `X.Y` or `X.Y.Z` has the bounds that the text has when it is
  -- stored as it stands, unless it is the bare `0`.
  pub loose_bounds-bare :
      (ns : Numbers)
      → ns ≢ one 0
      → AreU64 ns
      → loose_bounds S (dotted ns) ≡ bounds_from_str (dotted ns)
  loose_bounds-bare ns h u =
      loose_bounds-raw S bare ns u ∙ loose_agrees ns h ∙ sym (bounds_from_str-dotted S bare ns u)

  zero_caret :
      {b : VersionBounds} (v : SemverTriple)
      → bounds_of_prefix {S = S} caret (segments_of (one 0)) ≡ ok b
      → (admits b v ≡ true) ↔ (v ≡ zero_triple)
  unfolding bounds_of_prefix admits
  zero_caret v h = ground arith

  -- The bare `0` is normalised to `^0`, whose bounds admit 0.0.0 alone; stored as it stands its
  -- bounds admit every triple with major number 0.
  pub loose_bounds-zero :
      (b c : VersionBounds) (v : SemverTriple)
      → loose_bounds S (dotted (one 0)) ≡ ok b
      → bounds_from_str {S = S} (dotted (one 0)) ≡ ok c
      → ((admits b v ≡ true) ↔ (v ≡ zero_triple)) × ((admits c v ≡ true) ↔ (v.major ≡ 0))
  unfolding bounds_of_prefix
  loose_bounds-zero b c v h k = (
    zero_caret v (sym (loose_bounds-raw S bare (one 0) (omega arith)) ∙ h),
    plain_bounds-admits S (one 0) c v
        (sym (bounds_from_str-dotted S bare (one 0) (omega arith)) ∙ k),
  )

Digits-all : (t : Text) → Digits t → all is_digit t ≡ true
unfolding is_digit
Digits-all [] h = refl
Digits-all (c ∷ t) (h, k) = ground (arith, Digits-all t k)

shown_all : (xs : List ℕ) → all (λ p. not (text_eq p []) && all is_digit p) (map show_u64 xs) ≡ true
shown_all [] = refl
shown_all (x ∷ xs) = rw (
  text_eq-ne (show_u64 x) [] (show_u64-ne-nil x),
  Digits-all (show_u64 x) (show_u64-Digits x),
  shown_all xs,
)

length-shown : (ns : Numbers) → length (shown ns) ≡ length (numbers ns)
length-shown (one x) = refl
length-shown (two x y) = refl
length-shown (three x y z) = refl

dotted-lacks : (d : ℕ) (ns : Numbers) → d < b'.' → contains (dotted ns) d ≡ false
dotted-lacks d ns h = contains-Lacks d _ (plain-Lacks d _ (inl h) (dotted-IsPlain ns))

loose_body-dotted :
    (c : ℕ) (ns : Numbers)
    → loose_body c (dotted ns) ≡ (
        if c == b'^'
        then length (numbers ns) == 1
        else if c == b'~'
        then length (numbers ns) == 2
        else false)
unfolding loose_body
loose_body-dotted c ns = rw (
  text_eq-ne (dotted ns) [] (dotted-ne-nil ns),
  dotted-lacks b'-' ns (omega arith),
  dotted-lacks b'+' ns (omega arith),
  dotted-lacks b'*' ns (omega arith),
  dotted-lacks b',' ns (omega arith),
  split-dotted ns,
  shown_all (numbers ns),
  length-shown ns,
)

length-pad_numbers : (ns : Numbers) → length (numbers (pad_numbers ns)) ≡ 3
length-pad_numbers (one x) = refl
length-pad_numbers (two x y) = refl
length-pad_numbers (three x y z) = refl

-- A normalised range counts as a loose partial exactly when the input was a bare `X` or `X.Y`.
is_loose_partial-normal :
    (p : Prefix) (ns : Numbers)
    → (is_loose_partial (raw (normal_prefix p ns) (normal_numbers p ns)) ≡ true)
      ↔ ((p ≡ bare) × (length (numbers ns) ≤ 2))
unfolding is_loose_partial
is_loose_partial-normal bare (one x) = ground (arith, loose_body-dotted b'^' (one x))
is_loose_partial-normal bare (two x y) = ground (arith, loose_body-dotted b'~' (two x y))
is_loose_partial-normal bare (three x y z) = ground arith
is_loose_partial-normal caret ns =
    ground (arith, loose_body-dotted b'^' (pad_numbers ns), length-pad_numbers ns)
is_loose_partial-normal tilde ns =
    ground (arith, loose_body-dotted b'~' (pad_numbers ns), length-pad_numbers ns)
is_loose_partial-normal exact ns = ground arith

-- A `^X` stored as it stands counts as a loose partial, though its comparator was written out.
pub is_loose_partial-caret : (x : ℕ) → is_loose_partial (raw caret (one x)) ≡ true
unfolding is_loose_partial
is_loose_partial-caret x = loose_body-dotted b'^' (one x)
