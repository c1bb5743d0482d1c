-- ===== src/Graph/Tests.antt =====
-- Roots of concrete graphs.
use wyrd_core.Prelude.{
  ℕ, ◌≡◌, ◌<◌, true, if◌then◌else◌, ◌==◌, none, some, List, [], ◌∷◌, ◌++◌, ok, IsOk, arith, refl,
}
use wyrd_core.Prelude.Text.{codes, text_eq}
use wyrd_core.Reference
use wyrd_core.Reference.{CardRef, CardKind, identity_key}
use wyrd_core.Graph.{
  Node, TopoOrder, RootPick, identity_eq, has_parent, candidates, services, pick_candidate,
  pick_service, pick_root, remove_node, root_last,
}
use wyrd_core.Graph.Topo.{index_from, resolve, topo_sort}
use wyrd_core.Graph.Topo.Search.{has_arrow}
use wyrd_core.Graph.Topo.Order.{Sorted, topo_sort-Sorted, topo_sort-IsOk}
use wyrd_core.Graph.Root.{IsOrphan, pick_root-IsOrphan, root_last-pick_root}

abbrev card_of : CardKind → CardRef ℕ
card_of kind = record {
  kind = kind;
  name = codes "shop";
  version = record { value = codes "1.0.0" };
  space = some (codes "default");
  uid = none;
}

abbrev node_of : CardKind → Node ℕ
node_of kind = record { card_ref = card_of kind }

-- A service that uses a prompt, before an audit card that nothing uses.
abbrev peers : TopoOrder ℕ
peers = record {
  nodes = node_of Reference.prompt ∷ node_of Reference.service ∷ node_of Reference.audit ∷ [];
  edges = record { from = card_of Reference.service; to = card_of Reference.prompt } ∷ [];
}

abbrev service_root : RootPick ℕ
service_root = record { root = card_of Reference.service }

peers_root : pick_root peers ≡ ok service_root
unfolding pick_root pick_candidate candidates has_parent services pick_service identity_eq
    identity_key text_eq
peers_root = refl

peers_last :
    root_last peers
    ≡ ok (record peers {
      nodes = node_of Reference.prompt ∷ node_of Reference.audit ∷ node_of Reference.service ∷ [];
    })
unfolding root_last remove_node pick_root pick_candidate candidates has_parent services pick_service
    identity_eq identity_key text_eq
peers_last = refl

pick_root-IsOrphan_example : IsOrphan peers.edges peers.nodes (card_of Reference.service)
pick_root-IsOrphan_example = pick_root-IsOrphan peers service_root peers_root

root_last-pick_root_example :
    (before : List (Node ℕ)) × (n : Node ℕ) × (after : List (Node ℕ)) × (peers.nodes
      ≡ before ++ n ∷ after)
    × (identity_eq (identity_key n.card_ref) (identity_key (card_of Reference.service)) ≡ true)
    × (root_last peers ≡ ok (record { nodes = (before ++ after) ++ n ∷ []; edges = peers.edges }))
root_last-pick_root_example = root_last-pick_root peers service_root peers_root

topo_sort-Sorted_example : Sorted peers.nodes peers.edges (topo_sort peers.nodes peers.edges)
topo_sort-Sorted_example = topo_sort-Sorted peers.nodes peers.edges

-- The service at index 1 stands above the prompt at index 0.
abbrev height : ℕ → ℕ
height i = if i == 1 then 1 else 0

height-falls :
    (i j : ℕ) → has_arrow (resolve peers.nodes peers.edges) i j ≡ true → height j < height i
unfolding resolve index_from identity_eq identity_key text_eq
height-falls i j h = ground (arith, h)

topo_sort-IsOk_example : IsOk (topo_sort peers.nodes peers.edges)
topo_sort-IsOk_example = topo_sort-IsOk peers.nodes peers.edges height (omega arith) height-falls
