-- ===== src/Graph/Topo/Counts.antt =====
-- Occurrences in a list of numbers, and what the steps of a sort do to them.
use wyrd_core.Prelude.{
  ℕ, zero, suc, ◌+◌, ◌-◌, ◌≤◌, ◌<◌, ◌≡◌, not, ◌&&◌, some, List, [], ◌∷◌, ◌++◌, if◌then◌else◌, ◌==◌,
  ltb, arith, refl, ◌∙◌, sym, append-nil, append_assoc, length, ok, All,
}
use wyrd_core.Graph.Topo.{
  Arrow, update, Links, link_all, leaves_from, last, init, swap_remove, relax,
}

abbrev pub count : ℕ → List ℕ → ℕ
count i [] = 0
count i (x ∷ xs) = (if i == x then 1 else 0) + count i xs

-- The sources of the arrows to a node.
abbrev pub froms : List Arrow → ℕ → List ℕ
froms [] to = []
froms ((f, t) ∷ arrows) to = if to == t then f ∷ froms arrows to else froms arrows to

-- The arrows from a node to nodes that are not in `seen`.
abbrev pub opens : List Arrow → List ℕ → ℕ → ℕ
opens [] seen i = 0
opens ((f, t) ∷ arrows) seen i =
    (if i == f && count t seen == 0 then 1 else 0) + opens arrows seen i

pub count-append : (i : ℕ) (xs ys : List ℕ) → count i (xs ++ ys) ≡ count i xs + count i ys
count-append i [] ys = omega arith
count-append i (x ∷ xs) ys = omega (arith, count-append i xs ys)

count-init-last : (i x : ℕ) (xs : List ℕ) → count i (last x xs ∷ init x xs) ≡ count i (x ∷ xs)
count-init-last i x [] = refl
count-init-last i x (y ∷ ys) = omega (arith, count-init-last i y ys)

-- What is removed is in the list, and the rest holds all else.
pub swap_remove-count :
    (pos : ℕ) (xs : List ℕ)
    → pos < length xs
    → (x : ℕ) × (rest : List ℕ) × (swap_remove pos xs ≡ some (x, rest))
      × ((i : ℕ) → count i xs ≡ (if i == x then 1 else 0) + count i rest)
unfolding swap_remove
swap_remove-count pos [] h = absurd (omega arith)
swap_remove-count zero (x ∷ []) h = (x, [], refl, λ i. refl)
swap_remove-count zero (x ∷ y ∷ ys) h =
    (x, last y ys ∷ init y ys, refl, λ i. omega (arith, count-init-last i y ys))
swap_remove-count (suc pos) (x ∷ xs) h =
    let (removed, rest, eq, law) = swap_remove-count pos xs (omega arith) in
    (removed, x ∷ rest, rw eq refl, λ i. omega (arith, law i))

-- The links of the arrows.
pub link_all-remaining :
    (arrows : List Arrow) (links : Links) (i : ℕ)
    → (link_all arrows links).remaining i ≡ links.remaining i + opens arrows [] i
unfolding link_all
link_all-remaining [] links i = omega arith
link_all-remaining ((f, t) ∷ arrows) links i = ground (
  arith,
  link_all-remaining arrows
      (record {
        remaining = update links.remaining f (links.remaining f + 1);
        parents = update links.parents t (links.parents t ++ f ∷ []);
      })
      i,
)

pub link_all-parents :
    (arrows : List Arrow) (links : Links) (i : ℕ)
    → (link_all arrows links).parents i ≡ links.parents i ++ froms arrows i
unfolding link_all
link_all-parents [] links i = sym (append-nil (links.parents i))
link_all-parents ((f, t) ∷ arrows) links i = ground (
  arith,
  link_all-parents arrows
      (record {
        remaining = update links.remaining f (links.remaining f + 1);
        parents = update links.parents t (links.parents t ++ f ∷ []);
      })
      i,
  append_assoc (links.parents t) (f ∷ []) (froms arrows t),
)

pub count-leaves_from :
    (i start n : ℕ) (remaining : ℕ → ℕ)
    → count i (leaves_from start n remaining)
      ≡ (if not (ltb i start) && ltb i (start + n) && remaining i == 0 then 1 else 0)
unfolding leaves_from
count-leaves_from i start zero remaining = ground arith
count-leaves_from i start (suc n) remaining =
    ground (arith, count-leaves_from i (suc start) n remaining)

relax-cons :
    (U : Type 0) (p : ℕ) (ps : List ℕ) (remaining : ℕ → ℕ) (ready : List ℕ) (left : ℕ)
    → remaining p ≡ suc left
    → relax {U = U} (p ∷ ps) remaining ready
      ≡ relax ps (update remaining p left) (if left == 0 then ready ++ p ∷ [] else ready)
unfolding relax
relax-cons U p ps remaining ready left h = rw (h, relax) refl

-- The loop over parents lowers each count by the number of its arrows, and appends the nodes whose
-- count reaches 0.
pub relax_lem :
    (U : Type 0) (parents : List ℕ) (remaining : ℕ → ℕ) (ready : List ℕ)
    → ((i : ℕ) → count i parents ≤ remaining i)
    → (remaining' : ℕ → ℕ) × (ready' : List ℕ) × (relax {U = U} parents remaining ready
        ≡ ok (remaining', ready'))
      × ((i : ℕ) → remaining' i + count i parents ≡ remaining i)
      × ((i : ℕ)
          → count i ready'
            ≡ count i ready
              + (if ltb 0 (count i parents) && remaining i == count i parents then 1 else 0))
unfolding relax
relax_lem U [] remaining ready h = (remaining, ready, refl, λ i. omega arith, λ i. ground arith)
relax_lem U (p ∷ ps) remaining ready h =
    let left = remaining p - 1 in
    let here : remaining p ≡ suc left = ground (arith, h p) in
    let lowered = update remaining p left in
    let queued : List ℕ = if left == 0 then ready ++ p ∷ [] else ready in
    let (remaining', ready', eq, lower, grow) =
      relax_lem U ps lowered queued (λ i. ground (arith, h i, h p)) in
    (
      remaining',
      ready',
      relax-cons U p ps remaining ready left here ∙ eq,
      λ i. ground (arith, lower i, h i, h p),
      λ i. ground (arith, grow i, h i, h p, count-append i ready (p ∷ [])),
    )

-- The nodes below `n` that are not in `seen`.
abbrev pub missing : ℕ → List ℕ → ℕ
missing zero seen = 0
missing (suc n) seen = (if count n seen == 0 then 1 else 0) + missing n seen

pub missing-append :
    (n : ℕ) (seen : List ℕ) (x : ℕ)
    → missing n (seen ++ x ∷ []) + (if ltb x n && count x seen == 0 then 1 else 0) ≡ missing n seen
missing-append zero seen x = ground arith
missing-append (suc n) seen x =
    ground (arith, missing-append n seen x, count-append n seen (x ∷ []))

pub opens-append :
    (arrows : List Arrow) (seen : List ℕ) (x i : ℕ)
    → count x seen ≡ 0
    → opens arrows (seen ++ x ∷ []) i + count i (froms arrows x) ≡ opens arrows seen i
opens-append [] seen x i h = omega arith
opens-append ((f, t) ∷ arrows) seen x i h =
    ground (arith, opens-append arrows seen x i, count-append t seen (x ∷ []))

-- Both ends of every arrow are below `n`.
abbrev pub Below : ℕ → List Arrow → Type 0
Below n [] = Unit
Below n ((f, t) ∷ arrows) = (f < n) × (t < n) × Below n arrows

pub opens-lt :
    (n : ℕ) (arrows : List Arrow) (seen : List ℕ) (i : ℕ)
    → Below n arrows
    → 0 < opens arrows seen i
    → i < n
opens-lt n [] seen i b h = absurd (omega arith)
opens-lt n ((f, t) ∷ arrows) seen i (bf, bt, b) h = ground (arith, opens-lt n arrows seen i b)

pub All-of_count : (P : ℕ → Type 0) (xs : List ℕ) → ((i : ℕ) → 0 < count i xs → P i) → All P xs
All-of_count P [] h = tt
All-of_count P (x ∷ xs) h = (h x (ground arith), All-of_count P xs (λ i k. h i (ground (arith, k))))
