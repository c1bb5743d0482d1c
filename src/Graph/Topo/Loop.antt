-- ===== src/Graph/Topo/Loop.antt =====
-- crates/wyrd-spec/src/graph/topo.rs: the invariant of the loop of `topo_sort`.
use wyrd_core.Prelude.{
  ℕ, zero, suc, ◌+◌, ◌<◌, ◌≡◌, ◌&&◌, none, some, List, [], ◌∷◌, ◌++◌, if◌then◌else◌, ◌==◌, ltb,
  arith, refl, sym, append-nil, append_assoc, List-cases, subst, length, length-append, ok, All,
  get_elem?, inl, inr,
}
use wyrd_core.Reference.{CardRefIdentity, identity_key}
use wyrd_core.Graph.{Node, identity_lt}
use wyrd_core.Graph.Topo.{Arrow, update, Kahn, relax, node_at, min_from, pop_canonical, sort_loop}
use wyrd_core.Graph.Topo.Counts.{
  count, froms, opens, missing, Below, count-append, swap_remove-count, relax_lem, missing-append,
  opens-append, opens-lt, All-of_count,
}

-- Every node of the list comes when all its children are in `seen` or before it.
abbrev pub ChildrenFirst : List Arrow → List ℕ → List ℕ → Type 0
ChildrenFirst arrows seen [] = Unit
ChildrenFirst arrows seen (x ∷ xs) =
    (opens arrows seen x ≡ 0) × ChildrenFirst arrows (seen ++ x ∷ []) xs

pub record Inv (arrows : List Arrow) (n : ℕ) (s : Kahn) : Type 0 where
  pub counted : (i : ℕ) → s.remaining i ≡ opens arrows s.ordered i
  pub linked : (i : ℕ) → count i s.ordered ≡ 0 → s.parents i ≡ froms arrows i
  pub placed :
      (i : ℕ)
      → count i s.ready + count i s.ordered ≡ (if ltb i n && s.remaining i == 0 then 1 else 0)
  pub total : length s.ordered + missing n s.ordered ≡ n
  pub sorted : ChildrenFirst arrows [] s.ordered

ChildrenFirst-append :
    (arrows : List Arrow) (seen xs : List ℕ) (x : ℕ)
    → ChildrenFirst arrows seen xs
    → opens arrows (seen ++ xs) x ≡ 0
    → ChildrenFirst arrows seen (xs ++ x ∷ [])
ChildrenFirst-append arrows seen [] x h k =
    (subst (λ ys. opens arrows ys x ≡ 0) (append-nil seen) k, tt)
ChildrenFirst-append arrows seen (y ∷ xs) x (h, hs) k = (
  h,
  ChildrenFirst-append arrows (seen ++ y ∷ []) xs x hs
      (subst (λ ys. opens arrows ys x ≡ 0) (sym (append_assoc seen (y ∷ []) xs)) k),
)

get_elem?-lt :
    {A : Type 0} (xs : List A) (i : ℕ) → i < length xs → (x : A) × (get_elem? xs i ≡ some x)
get_elem?-lt [] i h = absurd (omega arith)
get_elem?-lt (x ∷ xs) zero h = (x, refl)
get_elem?-lt (x ∷ xs) (suc i) h = get_elem?-lt xs i (omega arith)

module _ {U : Type 0} (nodes : List (Node U)) where
  pub node_at-lt : (i : ℕ) → i < length nodes → (node : Node U) × (node_at nodes i ≡ ok node)
  unfolding node_at
  node_at-lt i h = let (node, found) = get_elem?-lt nodes i h in (node, rw found refl)

  min_from_lem :
      (pos best : ℕ) (key : CardRefIdentity) (ready : List ℕ)
      → All (λ i. i < length nodes) ready
      → best < pos
      → (b : ℕ) × (min_from nodes pos best key ready ≡ ok b) × (b < pos + length ready)
  unfolding min_from
  min_from_lem pos best key [] h b = (best, refl, omega arith)
  min_from_lem pos best key (i ∷ ready) (h, hs) b =
      let (node, found) = node_at-lt i h in
      let k = identity_key node.card_ref in
      let less = identity_lt k key in
      let (r, eq, bound) =
        min_from_lem (suc pos) (if less then pos else best) (if less then k else key) ready hs
          (ground (arith, b)) in
      (r, rw found eq, omega arith)

  pop_canonical_lem :
      (i : ℕ) (ready : List ℕ)
      → All (λ j. j < length nodes) (i ∷ ready)
      → (x : ℕ) × (rest : List ℕ) × (pop_canonical nodes (i ∷ ready) ≡ ok (some (x, rest)))
        × ((j : ℕ) → count j (i ∷ ready) ≡ (if j == x then 1 else 0) + count j rest)
  unfolding pop_canonical
  pop_canonical_lem i ready (h, hs) =
      let (node, found) = node_at-lt i h in
      let (best, least, bound) =
        min_from_lem 1 0 (identity_key node.card_ref) ready hs (omega arith) in
      let (x, rest, removed, law) = swap_remove-count best (i ∷ ready) (omega (arith, bound)) in
      (x, rest, rw (found, least, removed) refl, law)

  -- What a round makes of the state.
  abbrev pub emit : ℕ → List ℕ → (ℕ → ℕ) → Kahn → Kahn
  emit x ready remaining s = record {
    remaining = remaining;
    parents = update s.parents x [];
    ready = ready;
    ordered = s.ordered ++ x ∷ [];
  }

  emit-Inv :
      (arrows : List Arrow) (s : Kahn) (x : ℕ) (rest ready : List ℕ) (remaining : ℕ → ℕ)
      → Below (length nodes) arrows
      → Inv arrows (length nodes) s
      → ((j : ℕ) → count j s.ready ≡ (if j == x then 1 else 0) + count j rest)
      → ((j : ℕ) → remaining j + count j (froms arrows x) ≡ s.remaining j)
      → ((j : ℕ)
          → count j ready
            ≡ count j rest
              + (if ltb 0 (count j (froms arrows x)) && s.remaining j == count j (froms arrows x)
                  then 1
                  else 0))
      → Inv arrows (length nodes) (emit x ready remaining s)
        × (suc (missing (length nodes) (s.ordered ++ x ∷ [])) ≡ missing (length nodes) s.ordered)
  emit-Inv arrows s x rest ready remaining below inv taken lower grow =
      let n = length nodes in
      let ready_x = taken x in
      let placed_x = inv.placed x in
      let fresh : count x s.ordered ≡ 0 = ground (arith, ready_x, placed_x) in
      let leaf : s.remaining x ≡ 0 = ground (arith, ready_x, placed_x) in
      let inside : x < n = ground (arith, ready_x, placed_x) in
      let less : suc (missing n (s.ordered ++ x ∷ [])) ≡ missing n s.ordered =
        ground (arith, missing-append n s.ordered x) in
      (
        record {
          counted =
              λ j. omega (arith, lower j, inv.counted j, opens-append arrows s.ordered x j fresh);
          linked = λ j h. ground (arith, h, inv.linked j, count-append j s.ordered (x ∷ []));
          placed = λ j. ground (
            arith,
            grow j,
            lower j,
            taken j,
            inv.placed j,
            inv.counted j,
            opens-lt n arrows s.ordered j below,
            count-append j s.ordered (x ∷ []),
          );
          total = omega (arith, less, inv.total, length-append s.ordered (x ∷ []));
          sorted =
              ChildrenFirst-append arrows [] s.ordered x inv.sorted
                (omega (arith, leaf, inv.counted x));
        },
        less,
      )

  sort_loop-stop : (fuel : ℕ) (s : Kahn) → s.ready ≡ [] → sort_loop nodes (suc fuel) s ≡ ok s
  unfolding sort_loop pop_canonical
  sort_loop-stop fuel s h =
      let nothing : pop_canonical nodes s.ready ≡ ok none = rw h refl in rw nothing refl

  sort_loop-emit :
      (fuel : ℕ) (s : Kahn) (x : ℕ) (rest ready : List ℕ) (remaining : ℕ → ℕ)
      → pop_canonical nodes s.ready ≡ ok (some (x, rest))
      → relax {U = U} (s.parents x) s.remaining rest ≡ ok (remaining, ready)
      → sort_loop nodes (suc fuel) s ≡ sort_loop nodes fuel (emit x ready remaining s)
  unfolding sort_loop
  sort_loop-emit fuel s x rest ready remaining popped relaxed = rw (popped, relaxed) refl

  -- Enough fuel ends the loop in a state that has nothing ready.
  pub sort_loop_lem :
      (arrows : List Arrow) (fuel : ℕ) (s : Kahn)
      → Below (length nodes) arrows
      → Inv arrows (length nodes) s
      → missing (length nodes) s.ordered < fuel
      → (t : Kahn) × (sort_loop nodes fuel s ≡ ok t) × Inv arrows (length nodes) t × (t.ready ≡ [])
  sort_loop_lem arrows zero s below inv enough = absurd (omega arith)
  sort_loop_lem arrows (suc fuel) s below inv enough = elim (List-cases s.ready) [
    | inl none_ready ↦ (s, sort_loop-stop fuel s none_ready, inv, none_ready)
    | inr (i, others, some_ready) ↦
        let inside : All (λ j. j < length nodes) s.ready =
          All-of_count (λ j. j < length nodes) s.ready (λ j h. ground (arith, inv.placed j)) in
        let (x, rest, popped, taken) =
          pop_canonical_lem i others (subst (All (λ j. j < length nodes)) some_ready inside) in
        let taken' : (j : ℕ) → count j s.ready ≡ (if j == x then 1 else 0) + count j rest = λ j.
          subst (λ xs. count j xs ≡ (if j == x then 1 else 0) + count j rest) (sym some_ready)
            (taken j) in
        let fresh : count x s.ordered ≡ 0 = ground (arith, taken' x, inv.placed x) in
        let linked = inv.linked x fresh in
        let (remaining, ready, relaxed, lower, grow) =
          relax_lem U (froms arrows x) s.remaining rest
            (λ j. omega (arith, inv.counted j, opens-append arrows s.ordered x j fresh)) in
        let (inv', less) = emit-Inv arrows s x rest ready remaining below inv taken' lower grow in
        let (t, eq, done, stopped) =
          sort_loop_lem arrows fuel (emit x ready remaining s) below inv' (omega (arith, less)) in
        let here =
          sort_loop-emit fuel s x rest ready remaining
            (subst (λ xs. pop_canonical nodes xs ≡ ok (some (x, rest))) (sym some_ready) popped)
            (subst (λ ps. relax {U = U} ps s.remaining rest ≡ ok (remaining, ready)) (sym linked)
              relaxed) in
        (t, subst (λ r. r ≡ ok t) (sym here) eq, done, stopped)
  ]
