-- ===== src/Graph/Topo/Order.antt =====
-- crates/wyrd-spec/src/graph/topo.rs: what `topo_sort` returns.
use wyrd_core.Prelude.{
  ℕ, suc, ◌+◌, ◌<◌, ◌≡◌, true, false, ◌&&◌, some, List, [], ◌∷◌, if◌then◌else◌, ◌==◌, ltb, arith,
  refl, sym, Option-cases, subst, length, Outcome, ok, err, All, inl, inr, Bool-cases, IsOk,
  collect,
}
use wyrd_core.Reference.{CardRefIdentity, identity_key}
use wyrd_core.Graph.{Node, Edge, TopoOrder, GraphError, cycle, empty, sort_refs}
use wyrd_core.Graph.Topo.{
  Kahn, Links, link_all, node_at, index_from, resolve, start, finish, topo_sort, stuck_from,
}
use wyrd_core.Graph.Topo.Counts.{
  count, missing, Below, link_all-remaining, link_all-parents, count-leaves_from, All-of_count,
}
use wyrd_core.Graph.Topo.Loop.{ChildrenFirst, Inv, node_at-lt, sort_loop_lem}
use wyrd_core.Graph.Topo.Search.{
  has_arrow, missing-nil, missing-find, missing-covers, opens-find, unstuck,
}

module _ {U : Type 0} where
  index_from-lt :
      (i : ℕ) (nodes : List (Node U)) (key : CardRefIdentity) (j : ℕ)
      → index_from i nodes key ≡ some j
      → j < i + length nodes
  unfolding index_from
  index_from-lt i [] key j h = ground (arith, h)
  index_from-lt i (node ∷ nodes) key j h = elim (Option-cases (index_from (suc i) nodes key)) [
    | inl e ↦ ground (arith, e, h)
    | inr (k, e) ↦ ground (arith, e, h, index_from-lt (suc i) nodes key k e)
  ]

  resolve-Below :
      (nodes : List (Node U)) (edges : List (Edge U)) → Below (length nodes) (resolve nodes edges)
  unfolding resolve
  resolve-Below nodes [] = tt
  resolve-Below nodes (edge ∷ edges) =
      let rest = resolve-Below nodes edges in
      elim (Option-cases (index_from 0 nodes (identity_key edge.from))) [
        | inl e ↦
            let skip : resolve nodes (edge ∷ edges) ≡ resolve nodes edges = rw (e, resolve) refl in
            subst (Below (length nodes)) (sym skip) rest
        | inr (f, e) ↦ elim (Option-cases (index_from 0 nodes (identity_key edge.to))) [
          | inl e' ↦
              let skip : resolve nodes (edge ∷ edges) ≡ resolve nodes edges =
                rw (e, e', resolve) refl in
              subst (Below (length nodes)) (sym skip) rest
          | inr (t, e') ↦
              let more : resolve nodes (edge ∷ edges) ≡ (f, t) ∷ resolve nodes edges =
                rw (e, e', resolve) refl in
              subst (Below (length nodes)) (sym more) (
                omega (arith, index_from-lt 0 nodes (identity_key edge.from) f e),
                omega (arith, index_from-lt 0 nodes (identity_key edge.to) t e'),
                rest,
              )
        ]
      ]

  start-Inv :
      (nodes : List (Node U)) (edges : List (Edge U))
      → Inv (resolve nodes edges) (length nodes) (start nodes edges)
  unfolding start
  start-Inv nodes edges =
      let n = length nodes in
      let arrows = resolve nodes edges in
      let links : Links = record { remaining = λ _. 0; parents = λ _. [] } in
      let remaining = link_all-remaining arrows links in
      record {
        counted = λ i. omega (arith, remaining i);
        linked = λ i h. link_all-parents arrows links i;
        placed = λ i. ground (arith, count-leaves_from i 0 n (link_all arrows links).remaining);
        total = omega (arith, missing-nil n);
        sorted = tt;
      }

  -- The indices of all the nodes, each once, and every node after its children.
  abbrev pub IsTopological : List (Node U) → List (Edge U) → List ℕ → Type 0
  IsTopological nodes edges order =
      ((i : ℕ) → count i order ≡ (if ltb i (length nodes) then 1 else 0))
      × ChildrenFirst (resolve nodes edges) [] order

  -- What `topo_sort` promises of each of its results.
  abbrev pub Sorted : List (Node U) → List (Edge U) → Outcome (GraphError U) (TopoOrder U) → Type 0
  Sorted nodes edges (ok t) =
      (order : List ℕ) × IsTopological nodes edges order
      × (collect (node_at nodes) order ≡ ok t.nodes)
      × (t.edges ≡ edges)
  Sorted nodes edges (err empty) = nodes ≡ []
  Sorted nodes edges (err (cycle refs)) =
      (left : ℕ → ℕ) × (refs ≡ sort_refs (stuck_from 0 nodes left))
      × ((i : ℕ) × (i < length nodes) × (0 < left i))
      × ((i : ℕ)
          → 0 < left i
          → (j : ℕ) × (has_arrow (resolve nodes edges) i j ≡ true)
            × (j < length nodes)
            × (0 < left j))
  Sorted nodes edges _ = ⊥

  collect-node_at :
      (nodes : List (Node U)) (order : List ℕ)
      → All (λ i. i < length nodes) order
      → (found : List (Node U)) × (collect (node_at nodes) order ≡ ok found)
  collect-node_at nodes [] h = ([], refl)
  collect-node_at nodes (i ∷ order) (h, hs) =
      let (node, found) = node_at-lt nodes i h in
      let (rest, more) = collect-node_at nodes order hs in (node ∷ rest, rw (found, more) refl)

  module _ (nodes : List (Node U)) (edges : List (Edge U)) (t : Kahn)
      (inv : Inv (resolve nodes edges) (length nodes) t) (stopped : t.ready ≡ []) where
    settled :
        (i : ℕ) → count i t.ordered ≡ (if ltb i (length nodes) && t.remaining i == 0 then 1 else 0)
    settled i =
        let none_ready : count i t.ready ≡ 0 = rw stopped refl in
        omega (arith, none_ready, inv.placed i)

    children :
        (i : ℕ)
        → 0 < t.remaining i
        → (j : ℕ) × (has_arrow (resolve nodes edges) i j ≡ true)
          × (j < length nodes)
          × (0 < t.remaining j)
    children i h =
        let (j, arrow, bound, fresh) =
          opens-find (length nodes) (resolve nodes edges) t.ordered i (resolve-Below nodes edges)
            (omega (arith, h, inv.counted i)) in
        (j, arrow, bound, ground (arith, settled j, bound, fresh))

    finish-Sorted : Sorted nodes edges (finish nodes edges t)
    unfolding finish
    finish-Sorted = elim (Bool-cases (length t.ordered == length nodes)) [
      | inl all ↦
          let complete : missing (length nodes) t.ordered ≡ 0 = ground (arith, inv.total, all) in
          let each : (i : ℕ) → count i t.ordered ≡ (if ltb i (length nodes) then 1 else 0) =
            λ i. ground (arith, settled i, missing-covers (length nodes) t.ordered i complete) in
          let (found, collected) =
            collect-node_at nodes t.ordered
              (All-of_count (λ i. i < length nodes) t.ordered (λ i h. ground (arith, h, each i))) in
          rw (all, collected) (t.ordered, (each, inv.sorted), collected, refl)
      | inr short ↦
          let some_open : 0 < missing (length nodes) t.ordered = ground (arith, inv.total, short) in
          let (i, bound, fresh) = missing-find (length nodes) t.ordered some_open in
          let stuck : 0 < t.remaining i = ground (arith, settled i, bound, fresh) in
          rw short (t.remaining, refl, (i, bound, stuck), children)
    ]

  -- `topo_sort` never panics, and each of its results is the right one. An order names every node once, by
  -- its index, a node only after all the nodes that its edges lead to, and the edges are those given. The
  -- empty error is for no nodes. A cycle error lists, sorted, the nodes of a set that has an index in
  -- range, and in which each node has an edge to a node of the set. No other error occurs.
  pub topo_sort-Sorted :
      (nodes : List (Node U)) (edges : List (Edge U)) → Sorted nodes edges (topo_sort nodes edges)
  unfolding topo_sort start
  topo_sort-Sorted [] edges = refl
  topo_sort-Sorted (node ∷ nodes) edges =
      let all = node ∷ nodes in
      let (t, eq, inv, stopped) =
        sort_loop_lem all (resolve all edges) (suc (length all)) (start all edges)
          (resolve-Below all edges) (start-Inv all edges)
          (omega (arith, missing-nil (length all))) in
      let nonempty : (length all == 0) ≡ false = ground arith in
      let out : topo_sort all edges ≡ finish all edges t = rw (nonempty, eq) refl in
      subst (Sorted all edges) (sym out) (finish-Sorted all edges t inv stopped)

  Sorted-IsOk :
      (nodes : List (Node U)) (edges : List (Edge U)) (rank : ℕ → ℕ)
      (result : Outcome (GraphError U) (TopoOrder U))
      → 0 < length nodes
      → ((i j : ℕ) → has_arrow (resolve nodes edges) i j ≡ true → rank j < rank i)
      → Sorted nodes edges result
      → IsOk result
  Sorted-IsOk nodes edges rank (ok t) h falls s = tt
  Sorted-IsOk nodes edges rank (err empty) h falls s =
      absurd (omega (arith, subst (λ xs. 0 < length xs) s h))
  Sorted-IsOk nodes edges rank (err (cycle refs)) h falls s =
      let (left, listed, (i, bound, pos), next) = s in
      let stuck : (i : ℕ)
          → 0 < left i
          → (j : ℕ) × (has_arrow (resolve nodes edges) i j ≡ true) × (0 < left j) =
        λ i k. let (j, arrow, below, more) = next i k in (j, arrow, more) in
      ground (
        arith,
        unstuck (resolve nodes edges) left rank falls stuck (suc (rank i)) i (omega arith),
        pos,
      )
  Sorted-IsOk nodes edges rank _ h falls s = s

  -- `topo_sort` gives an order for every graph that has a node and no cycle: one where some rank of the
  -- nodes falls along every edge between two of them.
  pub topo_sort-IsOk :
      (nodes : List (Node U)) (edges : List (Edge U)) (rank : ℕ → ℕ)
      → 0 < length nodes
      → ((i j : ℕ) → has_arrow (resolve nodes edges) i j ≡ true → rank j < rank i)
      → IsOk (topo_sort nodes edges)
  topo_sort-IsOk nodes edges rank h falls =
      Sorted-IsOk nodes edges rank (topo_sort nodes edges) h falls (topo_sort-Sorted nodes edges)
