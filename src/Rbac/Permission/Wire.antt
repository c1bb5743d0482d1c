-- ===== src/Rbac/Permission/Wire.antt =====
-- crates/wyrd-runtime/src/permission.rs: the wire form of a permission, and self-coverage.
use wyrd_core.Prelude.{
  ℕ, ◌≡◌, inl, inr, true, some, [], ◌∷◌, ◌++◌, arith, ok, ◌==◌, Bool-cases, Option-cases,
}
use wyrd_core.Prelude.Text.{Text}
use wyrd_core.Prelude.Text.Scan.{Lacks}
use wyrd_core.Rbac.Resource.{resource_as_str, parse_resource}
use wyrd_core.Rbac.Action.{action_as_str, parse_action}
use wyrd_core.Rbac.Resource.Covers as RC
use wyrd_core.Rbac.Action.Covers as AC
use wyrd_core.Rbac.Permission.{Permission, covers, show_permission, split_once, parse_permission}

split_once-append : (d : ℕ) (s t : Text) → Lacks d s → split_once d (s ++ d ∷ t) ≡ some (s, t)
unfolding split_once
split_once-append d [] t h = ground arith
split_once-append d (c ∷ s) t (h, k) = ground (arith, split_once-append d s t k)

split_once-eq : (d : ℕ) (s a b : Text) → split_once d s ≡ some (a, b) → s ≡ a ++ d ∷ b
unfolding split_once
split_once-eq d [] a b h = cc
split_once-eq d (c ∷ s) a b h = elim (Bool-cases (c == d)) [
  | inl here ↦ ground arith
  | inr later ↦ elim (Option-cases (split_once d s)) [
    | inl absent ↦ absurd (ground arith)
    | inr ((a', b'), found) ↦
        let tail = split_once-eq d s a' b' found in
        let first : a ≡ c ∷ a' = ground arith in
        let last : b ≡ b' = ground arith in rw (first, last, tail)
  ]
]

-- A permission that has a wire form is what its wire form parses to.
pub parse-show :
    (p : Permission) (wire : Text) → show_permission p ≡ some wire → parse_permission wire ≡ ok p
unfolding show_permission parse_permission
parse-show p wire h = elim (Option-cases (resource_as_str p.resource)) [
  | inl absent ↦ absurd (ground arith)
  | inr (r, known) ↦ elim (Option-cases (action_as_str p.action)) [
    | inl absent ↦ absurd (ground arith)
    | inr (a, known') ↦
        let whole : wire ≡ r ++ b':' ∷ a = ground arith in
        let parted : split_once b':' wire ≡ some (r, a) =
          rw whole (split_once-append b':' r a (RC.as_str-Lacks p.resource r known)) in
        ground (arith, RC.parse-as_str p.resource r known, AC.parse-as_str p.action a known')
  ]
]

-- What parses is the wire form of the result.
pub show-parse :
    (wire : Text) (p : Permission) → parse_permission wire ≡ ok p → show_permission p ≡ some wire
unfolding show_permission parse_permission
show-parse wire p h = elim (Option-cases (split_once b':' wire)) [
  | inl absent ↦ absurd (ground arith)
  | inr ((r, a), split) ↦ elim (Option-cases (parse_resource r)) [
    | inl absent ↦ absurd (ground arith)
    | inr (resource, found) ↦ elim (Option-cases (parse_action a)) [
      | inl absent ↦ absurd (ground arith)
      | inr (action, found') ↦
          let one : p.resource ≡ resource = ground arith in
          let two : p.action ≡ action = ground arith in
          ground (
            arith,
            RC.as_str-parse r resource found,
            AC.as_str-parse a action found',
            split_once-eq b':' wire r a split,
          )
    ]
  ]
]

-- A permission on a single resource and a single action covers itself.
pub covers_self :
    (p : Permission) → RC.IsSingle p.resource → AC.IsSingle p.action → covers p p ≡ true
unfolding covers
covers_self p h k =
    ground (arith, RC.covers_refl_single p.resource h, AC.covers_refl_single p.action k)
