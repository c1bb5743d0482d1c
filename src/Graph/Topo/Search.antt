-- ===== src/Graph/Topo/Search.antt =====
-- Finding the nodes that a sort has not reached.
use wyrd_core.Prelude.{
  ℕ, zero, suc, ◌<◌, ◌≡◌, Bool, true, false, ◌&&◌, ◌||◌, List, [], ◌∷◌, ◌==◌, arith, refl, inl, inr,
  Bool-cases,
}
use wyrd_core.Graph.Topo.{Arrow}
use wyrd_core.Graph.Topo.Counts.{count, opens, missing, Below}

abbrev pub has_arrow : List Arrow → ℕ → ℕ → Bool
has_arrow [] i j = false
has_arrow ((f, t) ∷ arrows) i j = i == f && j == t || has_arrow arrows i j

pub missing-nil : (n : ℕ) → missing n [] ≡ n
missing-nil zero = refl
missing-nil (suc n) = omega (arith, missing-nil n)

-- Some node below `n` is missing.
pub missing-find :
    (n : ℕ) (seen : List ℕ) → 0 < missing n seen → (i : ℕ) × (i < n) × (count i seen ≡ 0)
missing-find zero seen h = absurd (omega arith)
missing-find (suc n) seen h = elim (Bool-cases (count n seen == 0)) [
  | inl here ↦ (n, omega arith, ground arith)
  | inr there ↦
      let (i, bound, fresh) = missing-find n seen (ground (arith, there, h)) in
      (i, omega arith, fresh)
]

pub missing_none :
    (n : ℕ) (seen : List ℕ) → ((i : ℕ) → i < n → 0 < count i seen) → missing n seen ≡ 0
missing_none zero seen h = refl
missing_none (suc n) seen h = ground (arith, h n, missing_none n seen (λ i k. h i (omega arith)))

pub missing-covers : (n : ℕ) (seen : List ℕ) (i : ℕ) → missing n seen ≡ 0 → i < n → 0 < count i seen
missing-covers zero seen i h b = absurd (omega arith)
missing-covers (suc n) seen i h b = ground (arith, h, b, missing-covers n seen i)

-- A node with an open arrow has a child that is not in `seen`.
pub opens-find :
    (n : ℕ) (arrows : List Arrow) (seen : List ℕ) (i : ℕ)
    → Below n arrows
    → 0 < opens arrows seen i
    → (j : ℕ) × (has_arrow arrows i j ≡ true) × (j < n) × (count j seen ≡ 0)
opens-find n [] seen i b h = absurd (omega arith)
opens-find n ((f, t) ∷ arrows) seen i (bf, bt, b) h =
    elim (Bool-cases (i == f && count t seen == 0)) [
      | inl here ↦ (t, ground arith, bt, ground arith)
      | inr there ↦
          let (j, arrow, bound, fresh) = opens-find n arrows seen i b (ground (arith, there, h)) in
          (j, ground (arith, arrow), bound, fresh)
    ]

pub opens_none :
    (n : ℕ) (arrows : List Arrow) (seen : List ℕ) (i : ℕ)
    → Below n arrows
    → ((j : ℕ) → has_arrow arrows i j ≡ true → j < n → 0 < count j seen)
    → opens arrows seen i ≡ 0
opens_none n [] seen i b h = refl
opens_none n ((f, t) ∷ arrows) seen i (bf, bt, b) h =
    let later = opens_none n arrows seen i b (λ j k. h j (ground (arith, k))) in
    elim (Bool-cases (i == f)) [
      | inl here ↦ ground (arith, later, h t (ground (arith, here)) bt)
      | inr there ↦ ground (arith, later, there)
    ]

-- A rank that falls along every edge leaves no node stuck.
pub unstuck :
    (arrows : List Arrow) (left rank : ℕ → ℕ)
    → ((i j : ℕ) → has_arrow arrows i j ≡ true → rank j < rank i)
    → ((i : ℕ) → 0 < left i → (j : ℕ) × (has_arrow arrows i j ≡ true) × (0 < left j))
    → (bound i : ℕ) → rank i < bound
    → left i ≡ 0
unstuck arrows left rank falls stuck zero i h = absurd (omega arith)
unstuck arrows left rank falls stuck (suc bound) i h = elim (Bool-cases (left i == 0)) [
  | inl done ↦ ground (arith, done)
  | inr more ↦
      let (j, arrow, pos) = stuck i (ground (arith, more)) in
      ground (arith, falls i j arrow, unstuck arrows left rank falls stuck bound j, pos)
]
