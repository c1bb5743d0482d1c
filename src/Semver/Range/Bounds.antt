-- ===== src/Semver/Range/Bounds.antt =====
-- crates/wyrd-semver/src/range.rs: what the bounds of caret, tilde, exact and bare ranges admit.
use wyrd_core.Prelude.{
  ℕ, ◌+◌, ◌≤◌, ◌<◌, ◌≡◌, refl, ◌≢◌, ◌↔◌, true, List, [], ◌∷◌, map, arith, ok, length, IsSafe, IsOk,
  All,
}
use wyrd_core.Prelude.Text.{u64_limit}
use wyrd_core.Semver.Triple.{SemverTriple, VersionBounds, triple, Precedes, admits}
use wyrd_core.Semver.Range.{
  Segment, num, Prefix, caret_bounds, tilde_bounds, plain_bounds, bounds_of_prefix, caret, tilde,
  bare, exact,
}

-- One to three numbers, and the triple that they name: what is missing is 0.
pub data Numbers : Type 0 where
  one : ℕ → Numbers
  two : ℕ → ℕ → Numbers
  three : ℕ → ℕ → ℕ → Numbers

abbrev pub numbers : Numbers → List ℕ
numbers (one x) = x ∷ []
numbers (two x y) = x ∷ y ∷ []
numbers (three x y z) = x ∷ y ∷ z ∷ []

abbrev pub segments_of : Numbers → List Segment
segments_of ns = map num (numbers ns)

abbrev pub pad : Numbers → SemverTriple
pad (one x) = triple x 0 0
pad (two x y) = triple x y 0
pad (three x y z) = triple x y z

-- `v` agrees with `base` up to and including the leftmost number of `base` that is not 0.
abbrev pub SameLeading : SemverTriple → SemverTriple → Type 0
SameLeading base v =
    (base.major ≢ 0 → v.major ≡ base.major)
    × (base.major ≡ 0 → base.minor ≢ 0 → (v.major ≡ 0) × (v.minor ≡ base.minor))
    × (base.major ≡ 0 → base.minor ≡ 0 → (v.major ≡ 0) × (v.minor ≡ 0) × (v.patch ≡ base.patch))

-- The numbers named by `base` are those of `v`.
abbrev pub SharesPrefix : Numbers → SemverTriple → Type 0
SharesPrefix (one x) v = v.major ≡ x
SharesPrefix (two x y) v = (v.major ≡ x) × (v.minor ≡ y)
SharesPrefix (three x y z) v = v ≡ triple x y z

module _ (S : Type 0) where
  caret_three :
      (x y z : ℕ) {b : VersionBounds} (v : SemverTriple)
      → caret_bounds {S = S} (num x ∷ num y ∷ num z ∷ []) ≡ ok b
      → (admits b v ≡ true) ↔ ((¬ Precedes v (triple x y z)) × SameLeading (triple x y z) v)
  unfolding caret_bounds admits
  caret_three x y z v h = ground arith

  -- The bounds of `^X[.Y[.Z]]` admit exactly the triples that do not precede the padded base and
  -- agree with it up to and including its leftmost number that is not 0.
  pub caret_bounds-admits :
      (ns : Numbers) (b : VersionBounds) (v : SemverTriple)
      → caret_bounds {S = S} (segments_of ns) ≡ ok b
      → (admits b v ≡ true) ↔ ((¬ Precedes v (pad ns)) × SameLeading (pad ns) v)
  unfolding caret_bounds
  caret_bounds-admits (one x) b v h = caret_three x 0 0 v h
  caret_bounds-admits (two x y) b v h = caret_three x y 0 v h
  caret_bounds-admits (three x y z) b v h = caret_three x y z v h

  tilde_three :
      (x y z : ℕ) {b : VersionBounds} (v : SemverTriple)
      → tilde_bounds {S = S} (num x ∷ num y ∷ num z ∷ []) ≡ ok b
      → (admits b v ≡ true) ↔ ((¬ Precedes v (triple x y z)) × (v.major ≡ x) × (v.minor ≡ y))
  unfolding tilde_bounds admits
  tilde_three x y z v h = ground arith

  -- The bounds of `~X[.Y[.Z]]` admit exactly the triples that do not precede the padded base and
  -- have its major and minor number.
  tilde_bounds-admits :
      (ns : Numbers) (b : VersionBounds) (v : SemverTriple)
      → tilde_bounds {S = S} (segments_of ns) ≡ ok b
      → (admits b v ≡ true)
        ↔ ((¬ Precedes v (pad ns)) × (v.major ≡ (pad ns).major) × (v.minor ≡ (pad ns).minor))
  unfolding tilde_bounds
  tilde_bounds-admits (one x) b v h = tilde_three x 0 0 v h
  tilde_bounds-admits (two x y) b v h = tilde_three x y 0 v h
  tilde_bounds-admits (three x y z) b v h = tilde_three x y z v h

  -- The bounds of a bare `X`, `X.Y` or `X.Y.Z` admit exactly the triples that start with the
  -- numbers given.
  pub plain_bounds-admits :
      (ns : Numbers) (b : VersionBounds) (v : SemverTriple)
      → plain_bounds {S = S} (segments_of ns) ≡ ok b
      → (admits b v ≡ true) ↔ SharesPrefix ns v
  unfolding plain_bounds admits
  plain_bounds-admits (one x) b v h = ground arith
  plain_bounds-admits (two x y) b v h = ground arith
  plain_bounds-admits (three x y z) b v h = ground arith

  -- Where no number is the greatest `u64`, each prefix but `=` gives bounds.
  bounds_of_prefix-IsOk :
      (p : Prefix) (ns : Numbers)
      → p ≢ exact
      → All (λ n. n + 1 < u64_limit) (numbers ns)
      → IsOk (bounds_of_prefix {S = S} p (segments_of ns))
  unfolding bounds_of_prefix
  bounds_of_prefix-IsOk caret (one x) h k = ground arith
  bounds_of_prefix-IsOk caret (two x y) h k = ground arith
  bounds_of_prefix-IsOk caret (three x y z) h k = ground arith
  bounds_of_prefix-IsOk tilde (one x) h k = ground arith
  bounds_of_prefix-IsOk tilde (two x y) h k = ground arith
  bounds_of_prefix-IsOk tilde (three x y z) h k = ground arith
  bounds_of_prefix-IsOk bare (one x) h k = ground arith
  bounds_of_prefix-IsOk bare (two x y) h k = ground arith
  bounds_of_prefix-IsOk bare (three x y z) h k = ground arith
  bounds_of_prefix-IsOk exact ns h k = absurd (h refl)

  -- No list of one to three segments makes the code panic.
  pub bounds_of_prefix-IsSafe :
      (p : Prefix) (segments : List Segment)
      → 0 < length segments
      → length segments ≤ 3
      → IsSafe (bounds_of_prefix {S = S} p segments)
  unfolding bounds_of_prefix
  bounds_of_prefix-IsSafe p (a ∷ []) _ _ = ground arith
  bounds_of_prefix-IsSafe p (a ∷ b ∷ []) _ _ = ground arith
  bounds_of_prefix-IsSafe p (a ∷ b ∷ c ∷ []) _ _ = ground arith
  bounds_of_prefix-IsSafe p [] h _ = absurd (omega arith)
  bounds_of_prefix-IsSafe p (a ∷ b ∷ c ∷ d ∷ r) _ h = absurd (omega arith)
