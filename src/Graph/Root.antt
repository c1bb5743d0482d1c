-- ===== src/Graph/Root.antt =====
-- crates/wyrd-spec/src/graph/root.rs: the root that is picked, and the order that ends with it.
use wyrd_core.Prelude.{
  ◌≡◌, true, false, Option, none, some, List, [], ◌∷◌, ◌++◌, any, ◌==◌, Outcome, ok, err, panic,
  Bool-cases, inl, inr, arith, refl, sym, subst, ap, All, All-map,
}
use wyrd_core.Prelude.Text.{Text, text_eq, text_eq_iff}
use wyrd_core.Reference.{CardRef, CardRefIdentity, identity_key, kind_tag, service, space_eq}
use wyrd_core.Graph.{
  Node, Edge, TopoOrder, RootPick, GraphError, empty, identity_eq, has_parent, candidates, services,
  pick_service, pick_candidate, pick_root, remove_node, root_last,
}

text_eq_self : (t : Text) → text_eq t t ≡ true
text_eq_self t = (text_eq_iff t t).1 refl

space_eq_self : (s : Option Text) → space_eq s s ≡ true
space_eq_self none = refl
space_eq_self (some t) = text_eq_self t

identity_eq_self : (k : CardRefIdentity) → identity_eq k k ≡ true
unfolding identity_eq
identity_eq_self k =
    ground (arith, space_eq_self k.space, text_eq_self k.name, text_eq_self k.version)

module _ {U : Type 0} where
  -- A node of the list is the card.
  abbrev pub HasNode : List (Node U) → CardRef U → Type 0
  HasNode nodes card =
      (before after : List (Node U)) × (nodes ≡ before ++ record { card_ref = card } ∷ after)

  abbrev pub IsOrphan : List (Edge U) → List (Node U) → CardRef U → Type 0
  IsOrphan edges nodes card = HasNode nodes card × (has_parent edges card ≡ false)

  HasNode-cons :
      (n : Node U) (nodes : List (Node U)) (c : CardRef U) → HasNode nodes c → HasNode (n ∷ nodes) c
  HasNode-cons n nodes c (before, after, split) = (n ∷ before, after, ap (λ ns. n ∷ ns) split)

  candidates-IsOrphan :
      (edges : List (Edge U)) (nodes : List (Node U))
      → All (IsOrphan edges nodes) (candidates edges nodes)
  unfolding candidates
  candidates-IsOrphan edges [] = tt
  candidates-IsOrphan edges (n ∷ nodes) =
      let rest =
        All-map (candidates edges nodes)
          (λ (c : CardRef U) (p : IsOrphan edges nodes c). (HasNode-cons n nodes c p.0, p.1))
          (candidates-IsOrphan edges nodes) in
      elim (Bool-cases (has_parent edges n.card_ref)) [
        | inl h ↦ rw h rest
        | inr h ↦ rw h ((([], nodes, refl), h), rest)
      ]

  services-All :
      (P : CardRef U → Type 0) (refs : List (CardRef U)) → All P refs → All P (services refs)
  unfolding services
  services-All P [] h = tt
  services-All P (r ∷ refs) (h, hs) = elim (Bool-cases (kind_tag r.kind == kind_tag service)) [
    | inl k ↦ rw k (h, services-All P refs hs)
    | inr k ↦ rw k (services-All P refs hs)
  ]

  pick_service-All :
      (P : CardRef U → Type 0) (refs chosen : List (CardRef U)) (pick : RootPick U)
      → All P chosen
      → pick_service refs chosen ≡ ok pick
      → P pick.root
  unfolding pick_service
  pick_service-All P refs [] pick h e = cc
  pick_service-All P refs (r ∷ []) pick (h, hs) e =
      subst
        (λ (m : Outcome (GraphError U) (RootPick U)). elim m [
          | ok p ↦ P p.root
          | err x ↦ Unit
          | panic ↦ Unit
        ])
        e h
  pick_service-All P refs (r ∷ s ∷ more) pick h e = cc

  pick_candidate-All :
      (P : CardRef U → Type 0) (refs : List (CardRef U)) (pick : RootPick U)
      → All P refs
      → pick_candidate refs ≡ ok pick
      → P pick.root
  unfolding pick_candidate
  pick_candidate-All P [] pick h e =
      pick_service-All P [] (services []) pick (services-All P [] tt) e
  pick_candidate-All P (r ∷ []) pick h e =
      pick_service-All P [] (r ∷ []) pick h (unfold pick_service in e)
  pick_candidate-All P (r ∷ s ∷ more) pick h e =
      pick_service-All P (r ∷ s ∷ more) (services (r ∷ s ∷ more)) pick
        (services-All P (r ∷ s ∷ more) h) e

  picked-IsOrphan :
      (edges : List (Edge U)) (nodes shown : List (Node U)) (pick : RootPick U)
      → elim shown [ [] ↦ err empty | node ∷ more ↦ pick_candidate (candidates edges nodes) ]
        ≡ ok pick
      → IsOrphan edges nodes pick.root
  picked-IsOrphan edges nodes [] pick h = cc
  picked-IsOrphan edges nodes (n ∷ more) pick h =
      pick_candidate-All (IsOrphan edges nodes) (candidates edges nodes) pick
        (candidates-IsOrphan edges nodes) h

  -- The root that is picked is a node of the graph at which no edge ends.
  pub pick_root-IsOrphan :
      (order : TopoOrder U) (pick : RootPick U)
      → pick_root order ≡ ok pick
      → IsOrphan order.edges order.nodes pick.root
  unfolding pick_root
  pick_root-IsOrphan order pick h = picked-IsOrphan order.edges order.nodes order.nodes pick h

  any-HasNode :
      (before : List (Node U)) (root : CardRef U) (after : List (Node U))
      → any
          (λ n. identity_eq (identity_key n.card_ref) (identity_key root))
          (before ++ record { card_ref = root } ∷ after)
        ≡ true
  any-HasNode [] root after = ground (arith, identity_eq_self (identity_key root))
  any-HasNode (n ∷ before) root after = ground (arith, any-HasNode before root after)

  remove_node-any :
      (nodes : List (Node U)) (root : CardRef U)
      → any (λ n. identity_eq (identity_key n.card_ref) (identity_key root)) nodes ≡ true
      → (before : List (Node U)) × (n : Node U) × (after : List (Node U)) × (nodes
          ≡ before ++ n ∷ after)
        × (identity_eq (identity_key n.card_ref) (identity_key root) ≡ true)
        × (remove_node root nodes ≡ some (n, before ++ after))
  unfolding remove_node
  remove_node-any [] root h = cc
  remove_node-any (n ∷ nodes) root h =
      elim (Bool-cases (identity_eq (identity_key n.card_ref) (identity_key root))) [
        | inl same ↦ ([], n, nodes, refl, same, rw same refl)
        | inr other ↦
            (let (before, m, after, split, same, eq) =
                remove_node-any nodes root (ground (arith, h, other)) in
              (n ∷ before, m, after, ap (λ ns. n ∷ ns) split, same, rw (other, eq) refl))
      ]

  -- Where a root is picked, `root_last` gives the same edges and the same nodes, of which the first
  -- with the identity of the root has moved to the end.
  pub root_last-pick_root :
      (order : TopoOrder U) (pick : RootPick U)
      → pick_root order ≡ ok pick
      → (before : List (Node U)) × (n : Node U) × (after : List (Node U)) × (order.nodes
          ≡ before ++ n ∷ after)
        × (identity_eq (identity_key n.card_ref) (identity_key pick.root) ≡ true)
        × (root_last order
            ≡ ok (record { nodes = (before ++ after) ++ n ∷ []; edges = order.edges }))
  unfolding root_last
  root_last-pick_root order pick h =
      let (front, back, there) = (pick_root-IsOrphan order pick h).0 in
      let found =
        subst
          (λ ns.
            any (λ (n : Node U). identity_eq (identity_key n.card_ref) (identity_key pick.root)) ns
            ≡ true)
          (sym there) (any-HasNode front pick.root back) in
      let (before, n, after, split, same, eq) = remove_node-any order.nodes pick.root found in
      (before, n, after, split, same, ground (arith, h, eq))
