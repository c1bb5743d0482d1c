-- ===== src/Semver/Triple.antt =====
-- crates/wyrd-semver/src/bounds.rs: version triples, their order, and bounds on them.
use wyrd_core.Prelude.{
  ℕ, ◌<◌, ◌≡◌, ◌↔◌, ◌⊎◌, Bool, true, false, Option, none, some, ◌&&◌, compare, Ordering, arith,
}

pub record SemverTriple : Type 0 where
  pub major : ℕ
  pub minor : ℕ
  pub patch : ℕ

-- `SemverTriple::new`.
abbrev pub triple : ℕ → ℕ → ℕ → SemverTriple
triple major minor patch = record { major = major; minor = minor; patch = patch }

-- `SemverTriple::ZERO`.
abbrev pub zero_triple : SemverTriple
zero_triple = triple 0 0 0

-- `Ordering::then_with`.
abbrev pub then_with : Ordering → Ordering → Ordering
then_with Ordering.eq next = next
then_with Ordering.lt next = Ordering.lt
then_with Ordering.gt next = Ordering.gt

unfoldable pub cmp : SemverTriple → SemverTriple → Ordering
cmp a b =
    then_with (then_with (compare a.major b.major) (compare a.minor b.minor))
      (compare a.patch b.patch)

-- `a >= b`, `a < b` and `a <= b` as `PartialOrd` derives them from `cmp`.
unfoldable pub triple_ge : SemverTriple → SemverTriple → Bool
unfolding cmp
triple_ge a b = elim (cmp a b) [ Ordering.lt ↦ false | _ ↦ true ]

unfoldable pub triple_lt : SemverTriple → SemverTriple → Bool
unfolding cmp
triple_lt a b = elim (cmp a b) [ Ordering.lt ↦ true | _ ↦ false ]

unfoldable pub triple_le : SemverTriple → SemverTriple → Bool
unfolding cmp
triple_le a b = elim (cmp a b) [ Ordering.gt ↦ false | _ ↦ true ]

pub record VersionBounds : Type 0 where
  pub lower : SemverTriple
  pub upper : Option SemverTriple
  pub upper_inclusive : Bool

below_upper : Option SemverTriple → Bool → SemverTriple → Bool
unfolding triple_le triple_lt
below_upper none inclusive v = true
below_upper (some upper) true v = triple_le v upper
below_upper (some upper) false v = triple_lt v upper

-- The SQL predicate that the bounds stand for: at least the lower bound, and below the upper bound
-- (or equal to it where that is inclusive).
unfoldable pub admits : VersionBounds → SemverTriple → Bool
unfolding below_upper triple_ge
admits b v = triple_ge v b.lower && below_upper b.upper b.upper_inclusive v

-- The lexicographic order, in words.
abbrev pub Precedes : SemverTriple → SemverTriple → Type 0
Precedes a b =
    (a.major < b.major)
    ⊎ ((a.major ≡ b.major) × ((a.minor < b.minor) ⊎ ((a.minor ≡ b.minor) × (a.patch < b.patch))))

pub triple_lt_iff : (a b : SemverTriple) → (triple_lt a b ≡ true) ↔ Precedes a b
unfolding triple_lt
triple_lt_iff a b = ground arith
