-- ===== src/Reference/Scope.antt =====
-- crates/wyrd-spec/src/reference.rs: identity of references and scopes.
use wyrd_core.Prelude.{
  ◌≡◌, ◌↔◌, true, false, ◌&&◌, ◌||◌, Option, none, some, List, [], ◌∷◌, ◌++◌, any, get_elem?,
  if◌then◌else◌, ◌==◌, All, All-append, Bool-cases, inl, inr, arith, refl, ap, sym, subst,
  append_assoc, append-nil, ◌∙◌,
}
use wyrd_core.Prelude.Text.{Text, text_eq, text_eq_iff}
use wyrd_core.Reference
use wyrd_core.Reference.{
  CardKind, kind_tag, CardRef, CardRefIdentity, identity_key, space_eq, same_identity, CardRefScope,
  push_members, from_root_and_members, own, authorizes, permits_root,
}

abbrev kinds : List CardKind
kinds =
    Reference.data_card ∷ Reference.model ∷ Reference.experiment ∷ Reference.prompt
    ∷ Reference.agent ∷ Reference.workflow ∷ Reference.eval ∷ Reference.drift ∷ Reference.service
    ∷ Reference.policy ∷ Reference.mcp ∷ Reference.audit ∷ Reference.artifact ∷ Reference.trigger
    ∷ Reference.operator ∷ Reference.source ∷ Reference.external ∷ []

-- A kind stands at its discriminant.
kind_at : (k : CardKind) → get_elem? kinds (kind_tag k) ≡ some k
kind_at Reference.data_card = refl
kind_at _ = refl

kind_tag-eq : (a b : CardKind) → (kind_tag a == kind_tag b) ≡ true → a ≡ b
kind_tag-eq a b h =
    let same : kind_tag a ≡ kind_tag b = ground (arith, h) in
    let found = kind_at a in let found' = kind_at b in cc

All-middle :
    {A : Type 0} (P : A → Type 0) (xs : List A) (y : A) (ys : List A) → All P (xs ++ (y ∷ ys)) → P y
All-middle P [] y ys (h, hs) = h
All-middle P (x ∷ xs) y ys (h, hs) = All-middle P xs y ys hs

refl_tag : (k : CardKind) → (kind_tag k == kind_tag k) ≡ true
refl_tag k = ground arith

space_eq-true : (s t : Option Text) → (space_eq s t ≡ true) ↔ (s ≡ t)
space_eq-true none none = (λ _. refl, λ _. refl)
space_eq-true none (some t) = (λ h. cc, λ h. cc)
space_eq-true (some s) none = (λ h. cc, λ h. cc)
space_eq-true (some s) (some t) =
    (λ h. ap some ((text_eq_iff s t).0 h), λ h. (text_eq_iff s t).1 cc)

module _ {U : Type 0} where
  -- Two references are the same for authorisation exactly when their identity keys are equal.
  pub same_identity-eq_iff :
      (a b : CardRef U) → (same_identity a b ≡ true) ↔ (identity_key a ≡ identity_key b)
  unfolding same_identity identity_key
  same_identity-eq_iff a b = (
    λ h.
        (let kinds = kind_tag-eq a.kind b.kind (ground (arith, h)) in
          let spaces = (space_eq-true a.space b.space).0 (ground (arith, h)) in
          let names = (text_eq_iff a.name b.name).0 (ground (arith, h)) in
          let versions = (text_eq_iff a.version.value b.version.value).0 (ground (arith, h)) in cc),
    (λ h.
        (let kinds = ap (λ (k : CardRefIdentity). kind_tag k.kind == kind_tag b.kind) h in
          let spaces =
            (space_eq-true a.space b.space).1 (ap (λ (k : CardRefIdentity). k.space) h) in
          let names = (text_eq_iff a.name b.name).1 (ap (λ (k : CardRefIdentity). k.name) h) in
          let versions =
            (text_eq_iff a.version.value b.version.value).1
              (ap (λ (k : CardRefIdentity). k.version) h) in
          let same = refl_tag b.kind in ground (arith, kinds, spaces, names, versions, same))),
  )

  -- References with one identity key are alike for every other.
  same_identity_left :
      (a b c : CardRef U) → same_identity a b ≡ true → same_identity a c ≡ same_identity b c
  unfolding same_identity identity_key
  same_identity_left a b c h =
      ap
        (λ (k : CardRefIdentity).
          kind_tag k.kind == kind_tag c.kind
          && space_eq k.space c.space
          && text_eq k.name c.name
          && text_eq k.version c.version.value)
        ((same_identity-eq_iff a b).0 h)

  any_same :
      (scope : CardRefScope U) (member card : CardRef U)
      → any (λ e. same_identity e member) scope ≡ true
      → same_identity member card ≡ true
      → any (λ e. same_identity e card) scope ≡ true
  any_same [] member card h k = cc
  any_same (e ∷ scope) member card h k =
      ground (arith, same_identity_left e member card, any_same scope member card)

  any-push :
      (scope : CardRefScope U) (member card : CardRef U)
      → any (λ e. same_identity e card) (scope ++ member ∷ [])
        ≡ (any (λ e. same_identity e card) scope || same_identity member card)
  any-push [] member card = ground arith
  any-push (e ∷ scope) member card = ground (arith, any-push scope member card)

  push_one :
      (scope : CardRefScope U) (member card : CardRef U)
      → any
          (λ e. same_identity e card)
          (if any (λ e. same_identity e member) scope then scope else scope ++ member ∷ [])
        ≡ (any (λ e. same_identity e card) scope || same_identity member card)
  push_one scope member card = elim (Bool-cases (any (λ e. same_identity e member) scope)) [
    | inl old ↦ rw old (ground (arith, any_same scope member card old))
    | inr new ↦ rw new (any-push scope member card)
  ]

  authorizes-push_members :
      (members : List (CardRef U)) (scope : CardRefScope U) (card : CardRef U)
      → authorizes (push_members scope members) card
        ≡ (authorizes scope card || any (λ m. same_identity m card) members)
  unfolding authorizes push_members
  authorizes-push_members [] scope card = ground arith
  authorizes-push_members (m ∷ members) scope card = ground (
    arith,
    authorizes-push_members members
        (if any (λ e. same_identity e m) scope then scope else scope ++ m ∷ []) card,
    push_one scope m card,
  )

  -- A scope authorises exactly the cards that are, by identity, its root or one of the members that
  -- it was built from.
  pub authorizes-from_root_and_members :
      (root : CardRef U) (members : List (CardRef U)) (card : CardRef U)
      → authorizes (from_root_and_members root members) card
        ≡ (same_identity root card || any (λ m. same_identity m card) members)
  unfolding from_root_and_members
  authorizes-from_root_and_members root members card =
      let root_only : authorizes (root ∷ []) card ≡ same_identity root card =
        unfold authorizes in ground arith in
      ground (arith, root_only, authorizes-push_members members (root ∷ []) card)

  -- Any two cards of the scope have different identities.
  abbrev pub IsDistinct : CardRefScope U → Type 0
  IsDistinct [] = Unit
  IsDistinct (card ∷ scope) = All (λ c. same_identity card c ≡ false) scope × IsDistinct scope

  IsDistinct-push :
      (scope : CardRefScope U) (card : CardRef U)
      → IsDistinct scope
      → any (λ e. same_identity e card) scope ≡ false
      → IsDistinct (scope ++ card ∷ [])
  IsDistinct-push [] card h k = (tt, tt)
  IsDistinct-push (e ∷ scope) card (h, hs) k = (
    All-append (λ c. same_identity e c ≡ false) scope (card ∷ []) h (ground (arith, k), tt),
    IsDistinct-push scope card hs (ground (arith, k)),
  )

  push_members-IsDistinct :
      (members : List (CardRef U)) (scope : CardRefScope U)
      → IsDistinct scope
      → IsDistinct (push_members scope members)
  unfolding push_members
  push_members-IsDistinct [] scope h = h
  push_members-IsDistinct (m ∷ members) scope h =
      elim (Bool-cases (any (λ e. same_identity e m) scope)) [
        | inl old ↦ rw old (push_members-IsDistinct members scope h)
        | inr new ↦
            rw new
              (push_members-IsDistinct members (scope ++ m ∷ []) (IsDistinct-push scope m h new))
      ]

  -- No two cards of a scope that was built from a root and members have the same identity.
  pub from_root_and_members-IsDistinct :
      (root : CardRef U) (members : List (CardRef U))
      → IsDistinct (from_root_and_members root members)
  unfolding from_root_and_members
  from_root_and_members-IsDistinct root members =
      push_members-IsDistinct members (root ∷ []) (tt, tt)

  any-IsDistinct :
      (scope : CardRefScope U) (m : CardRef U) (members : List (CardRef U))
      → IsDistinct (scope ++ (m ∷ members))
      → any (λ e. same_identity e m) scope ≡ false
  any-IsDistinct [] m members h = refl
  any-IsDistinct (e ∷ scope) m members (h, hs) = ground (
    arith,
    All-middle (λ c. same_identity e c ≡ false) scope m members h,
    any-IsDistinct scope m members hs,
  )

  push_members-distinct :
      (members : List (CardRef U)) (scope : CardRefScope U)
      → IsDistinct (scope ++ members)
      → push_members scope members ≡ scope ++ members
  unfolding push_members
  push_members-distinct [] scope h = sym (append-nil scope)
  push_members-distinct (m ∷ members) scope h = rw (any-IsDistinct scope m members h) (
      push_members-distinct members (scope ++ m ∷ [])
        (subst IsDistinct (sym (append_assoc scope (m ∷ []) members)) h)
      ∙ append_assoc scope (m ∷ []) members)

  -- A list of cards of different identities is kept as it stands, in its order, when it is read back
  -- as a scope, its first card as the root.
  pub from_root_and_members-distinct :
      (root : CardRef U) (members : List (CardRef U))
      → IsDistinct (root ∷ members)
      → from_root_and_members root members ≡ root ∷ members
  unfolding from_root_and_members
  from_root_and_members-distinct root members h = push_members-distinct members (root ∷ []) h
