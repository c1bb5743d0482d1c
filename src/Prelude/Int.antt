-- ===== src/Prelude/Int.antt =====
-- Integers over the native numbers, and `i64`.
use Prim.Native.Nat.{ℕ, zero, suc, ◌^◌}
use mathlib.Core.Bool.{Bool}
use mathlib.Core.Option.{Option, none, some}
use mathlib.Core.List.{[], ◌∷◌}
use wyrd_core.Prelude.Tests.{ltb, leb, ◌==◌, if◌then◌else◌}
use wyrd_core.Prelude.Text.{Text, parse_unsigned, show_u64}

-- `negsuc n` is -(n + 1).
pub data ℤ : Type 0 where
  pos : ℕ → ℤ
  negsuc : ℕ → ℤ

abbrev pub i64_limit : ℕ
i64_limit = 2 ^ 63

-- The integer -n.
abbrev pub negate : ℕ → ℤ
negate zero = pos 0
negate (suc n) = negsuc n

-- `str::parse::<i64>`: an optional sign, then digits, with no overflow.
unfoldable pub parse_i64 : Text → Option ℤ
parse_i64 [] = none
parse_i64 (c ∷ s) =
    if c == b'-'
    then elim (parse_unsigned s) [
      | none ↦ none
      | some n ↦ if leb n i64_limit then some (negate n) else none
    ]
    else elim (parse_unsigned (if c == b'+' then s else c ∷ s)) [
      | none ↦ none
      | some n ↦ if ltb n i64_limit then some (pos n) else none
    ]

-- `Display` of an `i64`.
unfoldable pub show_i64 : ℤ → Text
show_i64 (pos n) = show_u64 n
show_i64 (negsuc n) = b'-' ∷ show_u64 (suc n)

abbrev pub is_negative : ℤ → Bool
is_negative (pos n) = Bool.false
is_negative (negsuc n) = Bool.true
