-- ===== src/Query/Spends.antt =====
-- crates/wyrd-spec/src/query/parse.rs: how a parser uses its tokens.
use wyrd_core.Prelude.{
  ℕ, suc, ◌<◌, ◌≡◌, true, false, List, [], ◌∷◌, Outcome, ok, err, panic, length, Bool-cases, refl,
  arith, IsSafe, ◌≤◌, inl, inr,
}
use wyrd_core.Query.Syntax.{Tok, Spanned, QueryError}
use wyrd_core.Query.Tokens.{Parser, accept, is_tok}

-- Not a panic; a value has `P`, and fewer than `k` tokens are left behind it.
abbrev pub Spends :
    {F A : Type 0} → (A → Type 0) → ℕ → Outcome QueryError (A × List (Spanned F)) → Type 0
Spends P k (ok (a, rest)) = P a × (length rest < k)
Spends P k (err e) = Unit
Spends P k panic = ⊥

abbrev pub Any : {A : Type 0} → A → Type 0
Any a = Unit

-- A parser that spends a token of every list it is given.
abbrev pub Progresses : {F A : Type 0} → (A → Type 0) → Parser F A → Type 0
Progresses {F} P p = (ts : List (Spanned F)) → Spends P (length ts) (p ts)

pub Spends-then :
    {F A B : Type 0} {P : A → Type 0} {k : ℕ} (Q : B → Type 0) (l : ℕ)
    (m : Outcome QueryError (A × List (Spanned F))) (f : A → Parser F B)
    → Spends P k m
    → ((a : A) (rest : List (Spanned F)) → P a → length rest < k → Spends Q l (f a rest))
    → Spends Q l (elim m [ ok (a, rest) ↦ f a rest | err e ↦ err e | panic ↦ panic ])
Spends-then Q l (ok (a, rest)) f (h, bound) next = next a rest h bound
Spends-then Q l (err e) f h next = tt
Spends-then Q l panic f h next = absurd h

pub Spends-mono :
    {F A : Type 0} (P : A → Type 0) {k l : ℕ} (m : Outcome QueryError (A × List (Spanned F)))
    → k ≤ l
    → Spends P k m
    → Spends P l m
Spends-mono P (ok (a, rest)) le (h, bound) = (h, omega arith)
Spends-mono P (err e) le h = tt
Spends-mono P panic le h = absurd h

-- A step on one token, which is not a panic.
pub Spends-one :
    {F A B : Type 0} (Q : B → Type 0) (k : ℕ) (m : Outcome QueryError A)
    (f : A → Outcome QueryError (B × List (Spanned F)))
    → IsSafe m
    → ((a : A) → Spends Q k (f a))
    → Spends Q k (elim m [ ok a ↦ f a | err e ↦ err e | panic ↦ panic ])
Spends-one Q k (ok a) f h next = next a
Spends-one Q k (err e) f h next = tt
Spends-one Q k panic f h next = absurd h

-- A parser that goes one of two ways, whether the token is there or not.
pub Spends-accept :
    {F B : Type 0} (Q : B → Type 0) (l : ℕ) (k : Tok F) (hit miss : Parser F B)
    (ts : List (Spanned F))
    → ((rest : List (Spanned F)) → suc (length rest) ≡ length ts → Spends Q l (hit rest))
    → Spends Q l (miss ts)
    → Spends Q l (elim (accept k ts) [
      | ok (true, rest) ↦ hit rest
      | ok (false, rest) ↦ miss rest
      | err e ↦ err e
      | panic ↦ panic
    ])
unfolding accept
Spends-accept Q l k hit miss [] there gone = gone
Spends-accept Q l k hit miss (t ∷ rest) there gone = elim (Bool-cases (is_tok k t)) [
  | inl h ↦ ground (arith, h, there rest refl)
  | inr h ↦ ground (arith, h, gone)
]
