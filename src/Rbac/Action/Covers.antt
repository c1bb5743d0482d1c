-- ===== src/Rbac/Action/Covers.antt =====
-- crates/wyrd-runtime/src/permission.rs: the laws of `Action::covers`, and of the wire names.
use wyrd_core.Prelude.{
  ◌<◌, ◌≡◌, refl, ◌⊎◌, inl, inr, true, none, some, ◌==◌, arith, All, Option, subst,
}
use wyrd_core.Prelude.Text.{Text, text_eq}
use wyrd_core.Prelude.Text.Scan.{Lacks}
use wyrd_core.Rbac.Names.{lookup_name, lookup_name-All}
use wyrd_core.Rbac.Action.{
  Action, Actions, any_of, wildcard, nil, cons, action_tag, action_eq, action_covers,
  any_action_covers, action_as_str, action_names, parse_action,
}

-- Neither a list nor the wildcard.
abbrev pub IsSingle : Action → Type 0
IsSingle a = action_tag a < 8

covers_single : (a c : Action) → IsSingle a → action_covers a c ≡ (action_tag a == action_tag c)
unfolding action_covers action_eq
covers_single wildcard c h = absurd (omega arith)
covers_single (any_of rs) c h = absurd (omega arith)
covers_single a c h = refl

kind : (a : Action) → IsSingle a ⊎ (((rs : Actions) × (a ≡ any_of rs)) ⊎ (a ≡ wildcard))
kind wildcard = inr (inr refl)
kind (any_of rs) = inr (inl (rs, refl))
kind a = inl (omega arith)

covers_single_trans :
    (a b c : Action)
    → IsSingle a
    → action_covers a b ≡ true
    → action_covers b c ≡ true
    → action_covers a c ≡ true
covers_single_trans a b c h p q =
    let tags : action_tag a ≡ action_tag b = ground (arith, covers_single a b h) in
    let same = covers_single b c (omega arith) in ground (arith, covers_single a c h)

mutual
  unfolding action_covers

  covers_trans_lem :
      (a b c : Action)
      → action_covers a b ≡ true
      → action_covers b c ≡ true
      → action_covers a c ≡ true
  covers_trans_lem wildcard b c p q = refl
  covers_trans_lem (any_of rs) b c p q = any_covers_trans rs b c p q
  covers_trans_lem a b c p q = covers_single_trans a b c (omega arith) p q

  any_covers_trans :
      (rs : Actions) (b c : Action)
      → any_action_covers rs b ≡ true
      → action_covers b c ≡ true
      → any_action_covers rs c ≡ true
  any_covers_trans nil b c p q = cc
  any_covers_trans (cons r rs) b c p q =
      ground (arith, covers_trans_lem r b c, any_covers_trans rs b c)

pub covers_trans :
    (a b c : Action)
    → action_covers a b ≡ true
    → action_covers b c ≡ true
    → action_covers a c ≡ true
covers_trans = covers_trans_lem

mutual
  unfolding action_covers action_eq

  covers_list : (a : Action) (ss : Actions) → action_covers a (any_of ss) ≡ action_covers a wildcard
  covers_list wildcard ss = refl
  covers_list (any_of rs) ss = any_covers_list rs ss
  covers_list a ss = refl

  any_covers_list :
      (rs ss : Actions) → any_action_covers rs (any_of ss) ≡ any_action_covers rs wildcard
  any_covers_list nil ss = refl
  any_covers_list (cons r rs) ss = cc (covers_list r ss, any_covers_list rs ss)

-- Covering a list takes what covering everything takes.
pub covers-any_of :
    (a : Action) (ss : Actions) → action_covers a (any_of ss) ≡ action_covers a wildcard
covers-any_of = covers_list

-- A single action covers itself.
pub covers_refl_single : (a : Action) → IsSingle a → action_covers a a ≡ true
covers_refl_single a h = ground (arith, covers_single a a h)

abbrev ParsesBack : Option Text → Action → Type 0
ParsesBack none a = Unit
ParsesBack (some name) a = parse_action name ≡ some a

parses_back : (a : Action) → ParsesBack (action_as_str a) a
unfolding action_as_str parse_action lookup_name text_eq
parses_back (any_of rs) = tt
parses_back a = refl

-- The wire name of all but a list parses back.
pub parse-as_str :
    (a : Action) (name : Text) → action_as_str a ≡ some name → parse_action name ≡ some a
parse-as_str a name h = subst (λ o. ParsesBack o a) h (parses_back a)

names_agree : All (λ (name, a). action_as_str a ≡ some name) action_names
unfolding action_as_str
names_agree = (refl, (refl, (refl, (refl, (refl, (refl, (refl, (refl, (refl, tt)))))))))

pub as_str-parse :
    (name : Text) (a : Action) → parse_action name ≡ some a → action_as_str a ≡ some name
unfolding parse_action
as_str-parse name a h =
    lookup_name-All (λ n b. action_as_str b ≡ some n) name action_names a names_agree h

abbrev IsPlainName : Option Text → Type 0
IsPlainName none = Unit
IsPlainName (some name) = Lacks b':' name

plain_name : (a : Action) → IsPlainName (action_as_str a)
unfolding action_as_str
plain_name (any_of rs) = tt
plain_name a = omega arith

-- No wire name holds a colon.
pub as_str-Lacks : (a : Action) (name : Text) → action_as_str a ≡ some name → Lacks b':' name
as_str-Lacks a name h = subst IsPlainName h (plain_name a)
