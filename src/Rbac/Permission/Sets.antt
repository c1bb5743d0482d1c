-- ===== src/Rbac/Permission/Sets.antt =====
-- crates/wyrd-runtime/src/permission.rs: what a permission set grants, and what it stores.
use wyrd_core.Prelude.{
  ◌≡◌, refl, ◌∙◌, ◌↔◌, ◌⊎◌, inl, inr, Bool, true, false, ◌||◌, List, [], ◌∷◌, ◌++◌, arith, any, All,
  All-append, All-map, Bool-cases, subst, ap, append_assoc,
}
use wyrd_core.Rbac.Resource.Covers as RC
use wyrd_core.Rbac.Action.Covers as AC
use wyrd_core.Rbac.Resource as Resource
use wyrd_core.Rbac.Resource.{Resources, resource_covers}
use wyrd_core.Rbac.Action.{Action}
use wyrd_core.Rbac.Permission.{
  Permission, permission, covers, PermissionSet, retain, insert, contains, from_list, from_iter,
}

-- A permission covers whatever is covered by a permission that it covers.
covers_trans : (p q r : Permission) → covers p q ≡ true → covers q r ≡ true → covers p r ≡ true
unfolding covers
covers_trans p q r h k = ground (
  arith,
  RC.covers_trans p.resource q.resource r.resource,
  AC.covers_trans p.action q.action r.action,
)

-- A search through a list finds `r` if an element that covers `q` is there and `q` covers `r`.
any_trans :
    (set : PermissionSet) (q r : Permission)
    → any (λ p. covers p q) set ≡ true
    → covers q r ≡ true
    → any (λ p. covers p r) set ≡ true
any_trans [] q r h k = cc
any_trans (p ∷ set) q r h k = ground (arith, covers_trans p q r, any_trans set q r)

any-append :
    (f : Permission → Bool) (xs ys : PermissionSet) → any f (xs ++ ys) ≡ (any f xs || any f ys)
any-append f [] ys = refl
any-append f (x ∷ xs) ys = ground (arith, any-append f xs ys)

-- What `retain` drops, the new permission covers.
any-retain :
    (p r : Permission) (set : PermissionSet)
    → (any (λ q. covers q r) (retain p set) || covers p r)
      ≡ (any (λ q. covers q r) set || covers p r)
unfolding retain
any-retain p r [] = refl
any-retain p r (q ∷ set) = ground (arith, covers_trans p q r, any-retain p r set)

contains-insert_lem :
    (set : PermissionSet) (p r : Permission)
    → contains (insert set p) r ≡ (contains set r || covers p r)
unfolding contains insert
contains-insert_lem set p r = elim (Bool-cases (any (λ q. covers q p) set)) [
  | inl old ↦ rw old (ground (arith, any_trans set p r old))
  | inr new ↦
      rw new
        (any-append (λ q. covers q r) (retain p set) (p ∷ []) ∙ ground (arith, any-retain p r set))
]

-- After an insert the set grants exactly what it granted before or the new permission covers.
contains-insert :
    (set : PermissionSet) (p r : Permission)
    → (contains (insert set p) r ≡ true) ↔ ((contains set r ≡ true) ⊎ (covers p r ≡ true))
contains-insert set p r = ground (arith, contains-insert_lem set p r)

contains-from_list :
    (ps : List Permission) (set : PermissionSet) (r : Permission)
    → contains (from_list set ps) r ≡ (contains set r || any (λ p. covers p r) ps)
unfolding from_list
contains-from_list [] set r = ground arith
contains-from_list (p ∷ ps) set r =
    ground (arith, contains-from_list ps (insert set p) r, contains-insert_lem set p r)

-- A set built from a list grants exactly what some permission of the list covers.
pub contains-from_iter :
    (ps : List Permission) (r : Permission) → contains (from_iter ps) r ≡ any (λ p. covers p r) ps
unfolding from_iter contains
contains-from_iter ps r = contains-from_list ps [] r

-- Neither permission covers the other.
abbrev Apart : Permission → Permission → Type 0
Apart p q = (covers p q ≡ false) × (covers q p ≡ false)

-- No permission of the set covers one at another place of it.
abbrev IsMinimal : PermissionSet → Type 0
IsMinimal [] = Unit
IsMinimal (p ∷ set) = All (λ q. Apart p q) set × IsMinimal set

retain-All :
    (P : Permission → Type 0) (p : Permission) (set : PermissionSet)
    → All P set
    → All P (retain p set)
unfolding retain
retain-All P p [] h = tt
retain-All P p (q ∷ set) (h, k) = elim (Bool-cases (covers p q)) [
  | inl gone ↦ rw gone (retain-All P p set k)
  | inr kept ↦ rw kept (h, retain-All P p set k)
]

retain-IsMinimal : (p : Permission) (set : PermissionSet) → IsMinimal set → IsMinimal (retain p set)
unfolding retain
retain-IsMinimal p [] h = tt
retain-IsMinimal p (q ∷ set) (h, k) = elim (Bool-cases (covers p q)) [
  | inl gone ↦ rw gone (retain-IsMinimal p set k)
  | inr kept ↦ rw kept (retain-All (λ r. Apart q r) p set h, retain-IsMinimal p set k)
]

-- What is kept is apart from the new permission, if nothing in the set covered that.
retain-Apart :
    (p : Permission) (set : PermissionSet)
    → any (λ q. covers q p) set ≡ false
    → All (λ q. Apart q p) (retain p set)
unfolding retain
retain-Apart p [] h = tt
retain-Apart p (q ∷ set) h = elim (Bool-cases (covers p q)) [
  | inl gone ↦ rw gone (retain-Apart p set (ground arith))
  | inr kept ↦ rw kept ((ground arith, kept), retain-Apart p set (ground arith))
]

IsMinimal-append :
    (set : PermissionSet) (p : Permission)
    → IsMinimal set
    → All (λ q. Apart q p) set
    → IsMinimal (set ++ p ∷ [])
IsMinimal-append [] p h k = (tt, tt)
IsMinimal-append (q ∷ set) p (h, m) (k, ks) =
    (All-append (λ r. Apart q r) set (p ∷ []) h (k, tt), IsMinimal-append set p m ks)

-- An insert keeps the set free of permissions that cover one another.
insert-IsMinimal : (set : PermissionSet) (p : Permission) → IsMinimal set → IsMinimal (insert set p)
unfolding insert
insert-IsMinimal set p h = elim (Bool-cases (any (λ q. covers q p) set)) [
  | inl old ↦ rw old h
  | inr new ↦
      rw new (IsMinimal-append (retain p set) p (retain-IsMinimal p set h) (retain-Apart p set new))
]

from_list-IsMinimal :
    (ps : List Permission) (set : PermissionSet) → IsMinimal set → IsMinimal (from_list set ps)
unfolding from_list
from_list-IsMinimal [] set h = h
from_list-IsMinimal (p ∷ ps) set h =
    from_list-IsMinimal ps (insert set p) (insert-IsMinimal set p h)

from_iter-IsMinimal : (ps : List Permission) → IsMinimal (from_iter ps)
unfolding from_iter
from_iter-IsMinimal ps = from_list-IsMinimal ps [] tt

any-Apart :
    (p : Permission) (set : PermissionSet)
    → All (λ q. covers q p ≡ false) set
    → any (λ q. covers q p) set ≡ false
any-Apart p [] h = refl
any-Apart p (q ∷ set) (h, k) = ground (arith, any-Apart p set k)

All-at :
    (q : Permission) (before after : PermissionSet) (p : Permission)
    → All (λ r. Apart q r) (before ++ p ∷ after)
    → covers q p ≡ false
All-at q [] after p (h, _) = h.0
All-at q (r ∷ before) after p (_, h) = All-at q before after p h

-- What stands around a permission of a minimal set does not cover it.
around-Apart :
    (before after : PermissionSet) (p : Permission)
    → IsMinimal (before ++ p ∷ after)
    → All (λ q. covers q p ≡ false) (before ++ after)
around-Apart [] after p (h, m) = All-map after (λ q a. a.1) h
around-Apart (q ∷ before) after p (h, m) =
    (All-at q before after p h, around-Apart before after p m)

-- Every permission that a set built from a list stores, and that covers itself, is needed: the set grants
-- it, and what is stored besides does not.
pub from_iter-IsNeeded :
    (ps : List Permission) (before after : PermissionSet) (p : Permission)
    → from_iter ps ≡ before ++ p ∷ after
    → covers p p ≡ true
    → (contains (from_iter ps) p ≡ true) × (contains (before ++ after) p ≡ false)
unfolding contains
from_iter-IsNeeded ps before after p stored self =
    let minimal = subst IsMinimal stored (from_iter-IsMinimal ps) in
    let found = any-append (λ q. covers q p) before (p ∷ after) in
    (
      ap (any (λ q. covers q p)) stored ∙ ground (arith, found, self),
      any-Apart p (before ++ after) (around-Apart before after p minimal),
    )

retain-append :
    (p q : Permission) (set : PermissionSet)
    → covers p q ≡ false
    → retain p (set ++ q ∷ []) ≡ retain p set ++ q ∷ []
unfolding retain
retain-append p q [] h = rw h refl
retain-append p q (r ∷ set) h = elim (Bool-cases (covers p r)) [
  | inl gone ↦ rw gone (retain-append p q set h)
  | inr kept ↦ rw kept (ap (λ rest. r ∷ rest) (retain-append p q set h))
]

insert-new :
    (set : PermissionSet) (p : Permission)
    → contains set p ≡ false
    → insert set p ≡ retain p set ++ p ∷ []
unfolding insert contains
insert-new set p new = rw new refl

-- A permission on a list of resources that does not cover every resource, and that a set does not contain, is
-- still not contained after it is added, and adding it again stores it a second time.
pub contains-insert_any_of :
    (set : PermissionSet) (rs : Resources) (action : Action)
    → resource_covers (Resource.any_of rs) Resource.wildcard ≡ false
    → contains set (permission (Resource.any_of rs) action) ≡ false
    → let p = permission (Resource.any_of rs) action in
      (contains (insert set p) p ≡ false)
      × (insert (insert set p) p ≡ retain p (retain p set) ++ p ∷ p ∷ [])
unfolding covers
contains-insert_any_of set rs action partial new =
    let p = permission (Resource.any_of rs) action in
    let alone : covers p p ≡ false =
      ground (arith, partial, RC.covers-any_of (Resource.any_of rs) rs) in
    let absent : contains (insert set p) p ≡ false =
      ground (arith, contains-insert_lem set p p, new, alone) in
    (
      absent,
      insert-new (insert set p) p absent
          ∙ ap (λ stored. retain p stored ++ p ∷ []) (insert-new set p new)
          ∙ ap (λ stored. stored ++ p ∷ []) (retain-append p p (retain p set) alone)
          ∙ append_assoc (retain p (retain p set)) (p ∷ []) (p ∷ []),
    )
