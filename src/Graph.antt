-- ===== src/Graph.antt =====
-- crates/wyrd-spec/src/graph/{mod,root,topo}.rs: the nodes and edges of a submission graph, and the
-- choice of its root.
pub mod Root
pub mod Topo
mod Tests
use wyrd_core.Prelude.{
  ℕ, ◌≡◌, Bool, true, false, not, ◌&&◌, ◌||◌, Option, none, some, List, [], ◌∷◌, ◌++◌, any,
  if◌then◌else◌, ◌==◌, ltb, Outcome, ok, err, panic, ◌>>=◌,
}
use wyrd_core.Prelude.Text.{Text, text_eq}
use wyrd_core.Reference.{
  CardKind, service, kind_tag, CardRef, CardRefIdentity, identity_key, space_eq,
}

pub record Node (U : Type 0) : Type 0 where
  pub card_ref : CardRef U

pub record Edge (U : Type 0) : Type 0 where
  pub from : CardRef U
  pub to : CardRef U

pub record TopoOrder (U : Type 0) : Type 0 where
  pub nodes : List (Node U)
  pub edges : List (Edge U)

pub record RootPick (U : Type 0) : Type 0 where
  pub root : CardRef U

pub data GraphError (U : Type 0) : Type 0 where
  cycle multiple_roots duplicate_identity : List (CardRef U) → GraphError U
  empty missing_space : GraphError U
  invalid_service_component_kind : CardRef U → Text → CardRef U → Text → GraphError U
  unpublished_observability_peer : CardRef U → CardRef U → GraphError U
  invalid_spec : Text → GraphError U

-- The derived `==` and `<` of identity keys: field by field, in the order of the declaration.
unfoldable pub identity_eq : CardRefIdentity → CardRefIdentity → Bool
identity_eq a b =
    kind_tag a.kind == kind_tag b.kind
    && space_eq a.space b.space
    && text_eq a.name b.name
    && text_eq a.version b.version

unfoldable pub text_lt : Text → Text → Bool
text_lt s [] = false
text_lt [] (d ∷ t) = true
text_lt (c ∷ s) (d ∷ t) = ltb c d || c == d && text_lt s t

abbrev space_lt : Option Text → Option Text → Bool
space_lt s none = false
space_lt none (some t) = true
space_lt (some s) (some t) = text_lt s t

unfoldable pub identity_lt : CardRefIdentity → CardRefIdentity → Bool
identity_lt a b =
    ltb (kind_tag a.kind) (kind_tag b.kind)
    || kind_tag a.kind == kind_tag b.kind
      && (space_lt a.space b.space
          || space_eq a.space b.space
            && (text_lt a.name b.name || text_eq a.name b.name && text_lt a.version b.version))

module _ {U : Type 0} where
  -- `sort_by_key(identity_key)`, which is stable.
  insert_ref : CardRef U → List (CardRef U) → List (CardRef U)
  insert_ref r [] = r ∷ []
  insert_ref r (s ∷ refs) =
      let more = insert_ref r refs in
      if identity_lt (identity_key s) (identity_key r) then s ∷ more else r ∷ s ∷ refs

  unfoldable pub sort_refs : List (CardRef U) → List (CardRef U)
  unfolding insert_ref
  sort_refs [] = []
  sort_refs (r ∷ refs) = insert_ref r (sort_refs refs)

  -- Some edge ends at the card.
  unfoldable pub has_parent : List (Edge U) → CardRef U → Bool
  has_parent edges card = any (λ e. identity_eq (identity_key e.to) (identity_key card)) edges

  unfoldable pub candidates : List (Edge U) → List (Node U) → List (CardRef U)
  candidates edges [] = []
  candidates edges (node ∷ nodes) =
      let rest = candidates edges nodes in
      if not (has_parent edges node.card_ref) then node.card_ref ∷ rest else rest

  unfoldable pub services : List (CardRef U) → List (CardRef U)
  services [] = []
  services (r ∷ refs) =
      let rest = services refs in if kind_tag r.kind == kind_tag service then r ∷ rest else rest

  -- The only service among the candidates, if there is one.
  unfoldable pub pick_service :
      List (CardRef U) → List (CardRef U) → Outcome (GraphError U) (RootPick U)
  pick_service refs (root ∷ []) = ok (record { root = root })
  pick_service refs _ = err (multiple_roots (sort_refs refs))

  unfoldable pub pick_candidate : List (CardRef U) → Outcome (GraphError U) (RootPick U)
  pick_candidate (root ∷ []) = ok (record { root = root })
  pick_candidate refs = pick_service refs (services refs)

  unfoldable pub pick_root : TopoOrder U → Outcome (GraphError U) (RootPick U)
  pick_root order = elim order.nodes [
    | [] ↦ err empty
    | node ∷ nodes ↦ pick_candidate (candidates order.edges order.nodes)
  ]

  -- `position` and `remove`: the first node with the identity, and the others.
  unfoldable pub remove_node : CardRef U → List (Node U) → Option (Node U × List (Node U))
  remove_node root [] = none
  remove_node root (node ∷ nodes) =
      let rest = remove_node root nodes in
      if identity_eq (identity_key node.card_ref) (identity_key root)
      then some (node, nodes)
      else elim rest [ none ↦ none | some (found, others) ↦ some (found, node ∷ others) ]

  unfoldable pub root_last : TopoOrder U → Outcome (GraphError U) (TopoOrder U)
  root_last order = elim (pick_root order) [
    | ok pick ↦ elim (remove_node pick.root order.nodes) [
      | none ↦ err empty
      | some (node, others) ↦ ok (record order { nodes = others ++ node ∷ [] })
    ]
    | err e ↦ err e
    | panic ↦ panic
  ]
