-- ===== src/Graph/Topo.antt =====
-- crates/wyrd-spec/src/graph/topo.rs: `topo_sort`. A vector with an entry for each node is a function
-- of the index; nodes that are emitted are kept as their indices and read at the end.
pub mod Counts
pub mod Loop
pub mod Search
pub mod Order
use wyrd_core.Prelude.{
  ℕ, zero, suc, ◌+◌, ◌≡◌, Bool, true, false, not, Option, none, some, List, [], ◌∷◌, ◌++◌,
  if◌then◌else◌, ◌==◌, length, get_elem?, Outcome, ok, err, panic, ◌>>=◌, collect, expect,
}
use wyrd_core.Reference.{CardRef, CardRefIdentity, identity_key}
use wyrd_core.Graph.{
  Node, Edge, TopoOrder, GraphError, cycle, empty, identity_eq, identity_lt, sort_refs,
}

-- An edge from a node to its child, both as indices.
abbrev pub Arrow : Type 0
Arrow = ℕ × ℕ

abbrev pub update : {A : Type 0} → (ℕ → A) → ℕ → A → ℕ → A
update f i v j = if j == i then v else f j

-- The vectors that are made from the edges.
pub record Links : Type 0 where
  pub remaining : ℕ → ℕ
  pub parents : ℕ → List ℕ

-- The variables of the loop.
pub record Kahn : Type 0 where
  pub remaining : ℕ → ℕ
  pub parents : ℕ → List ℕ
  pub ready : List ℕ
  pub ordered : List ℕ

-- `edge` with both ends among the nodes adds a child to the one and a parent to the other.
unfoldable pub link_all : List Arrow → Links → Links
link_all [] links = links
link_all ((from, to) ∷ arrows) links = link_all arrows (record {
  remaining = update links.remaining from (links.remaining from + 1);
  parents = update links.parents to (links.parents to ++ from ∷ []);
})

-- The indices from `i` on, `count` of them, with no child left.
unfoldable pub leaves_from : ℕ → ℕ → (ℕ → ℕ) → List ℕ
leaves_from i zero remaining = []
leaves_from i (suc count) remaining =
    let rest = leaves_from (suc i) count remaining in if remaining i == 0 then i ∷ rest else rest

-- `last` and what stands before it, of a list with a head.
abbrev pub last : {A : Type 0} → A → List A → A
last x [] = x
last x (y ∷ ys) = last y ys

abbrev pub init : {A : Type 0} → A → List A → List A
init x [] = []
init x (y ∷ ys) = x ∷ init y ys

-- `Vec::swap_remove`.
unfoldable pub swap_remove : {A : Type 0} → ℕ → List A → Option (A × List A)
swap_remove pos [] = none
swap_remove zero (x ∷ []) = some (x, [])
swap_remove zero (x ∷ y ∷ ys) = some (x, last y ys ∷ init y ys)
swap_remove (suc pos) (x ∷ xs) = elim (swap_remove pos xs) [
  | none ↦ none
  | some (removed, rest) ↦ some (removed, x ∷ rest)
]

module _ {U : Type 0} where
  -- `index_by_identity`: of equal identities the last node stands.
  unfoldable pub index_from : ℕ → List (Node U) → CardRefIdentity → Option ℕ
  index_from i [] key = none
  index_from i (node ∷ nodes) key = elim (index_from (suc i) nodes key) [
    | some j ↦ some j
    | none ↦ if identity_eq (identity_key node.card_ref) key then some i else none
  ]

  -- The edges with both ends among the nodes.
  unfoldable pub resolve : List (Node U) → List (Edge U) → List Arrow
  resolve nodes [] = []
  resolve nodes (edge ∷ edges) = elim (index_from 0 nodes (identity_key edge.from)) [
    | none ↦ resolve nodes edges
    | some from ↦ elim (index_from 0 nodes (identity_key edge.to)) [
      | none ↦ resolve nodes edges
      | some to ↦ (from, to) ∷ resolve nodes edges
    ]
  ]

  -- The loop over the parents of an emitted node.
  unfoldable pub relax : List ℕ → (ℕ → ℕ) → List ℕ → Outcome (GraphError U) ((ℕ → ℕ) × List ℕ)
  relax [] remaining ready = ok (remaining, ready)
  relax (parent ∷ parents) remaining ready = elim (remaining parent) [
    | zero ↦ panic
    | suc left ↦
        relax parents (update remaining parent left)
          (if left == 0 then ready ++ parent ∷ [] else ready)
  ]

  unfoldable pub node_at : List (Node U) → ℕ → Outcome (GraphError U) (Node U)
  node_at nodes i = expect (get_elem? nodes i)

  -- `min_by_key`: the first position with the least key.
  unfoldable pub min_from :
      List (Node U) → ℕ → ℕ → CardRefIdentity → List ℕ → Outcome (GraphError U) ℕ
  min_from nodes pos best key [] = ok best
  min_from nodes pos best key (i ∷ ready) = node_at nodes i >>= λ node.
      let k = identity_key node.card_ref in
      let less = identity_lt k key in
      min_from nodes (suc pos) (if less then pos else best) (if less then k else key) ready

  unfoldable pub pop_canonical :
      List (Node U) → List ℕ → Outcome (GraphError U) (Option (ℕ × List ℕ))
  pop_canonical nodes [] = ok none
  pop_canonical nodes (i ∷ ready) = node_at nodes i >>= λ node.
      min_from nodes 1 0 (identity_key node.card_ref) ready >>= λ best.
      expect (swap_remove best (i ∷ ready)) >>= λ popped. ok (some popped)

  -- Every round emits another node, so the fuel is the number of nodes and one more.
  unfoldable pub sort_loop : List (Node U) → ℕ → Kahn → Outcome (GraphError U) Kahn
  sort_loop nodes zero s = panic
  sort_loop nodes (suc fuel) s = pop_canonical nodes s.ready >>= λ popped. elim popped [
    | none ↦ ok s
    | some (index, ready) ↦ relax (s.parents index) s.remaining ready >>= λ (remaining, ready').
        sort_loop nodes fuel (record {
          remaining = remaining;
          parents = update s.parents index [];
          ready = ready';
          ordered = s.ordered ++ index ∷ [];
        })
  ]

  -- The nodes from index `i` on with children left.
  unfoldable pub stuck_from : ℕ → List (Node U) → (ℕ → ℕ) → List (CardRef U)
  stuck_from i [] remaining = []
  stuck_from i (node ∷ nodes) remaining =
      let rest = stuck_from (suc i) nodes remaining in
      if not (remaining i == 0) then node.card_ref ∷ rest else rest

  unfoldable pub start : List (Node U) → List (Edge U) → Kahn
  start nodes edges =
      let links =
        link_all (resolve nodes edges) (record { remaining = λ _. 0; parents = λ _. [] }) in
      record {
        remaining = links.remaining;
        parents = links.parents;
        ready = leaves_from 0 (length nodes) links.remaining;
        ordered = [];
      }

  unfoldable pub finish :
      List (Node U) → List (Edge U) → Kahn → Outcome (GraphError U) (TopoOrder U)
  finish nodes edges s =
      if not (length s.ordered == length nodes)
      then err (cycle (sort_refs (stuck_from 0 nodes s.remaining)))
      else (collect (node_at nodes) s.ordered >>= λ ordered.
          ok (record { nodes = ordered; edges = edges }))

  unfoldable pub topo_sort : List (Node U) → List (Edge U) → Outcome (GraphError U) (TopoOrder U)
  topo_sort nodes edges =
      if length nodes == 0
      then err empty
      else (sort_loop nodes (suc (length nodes)) (start nodes edges) >>= finish nodes edges)
