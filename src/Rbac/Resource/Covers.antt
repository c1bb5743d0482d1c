-- ===== src/Rbac/Resource/Covers.antt =====
-- crates/wyrd-runtime/src/permission.rs: the laws of `Resource::covers`, and of the wire names.
use wyrd_core.Prelude.{
  ◌<◌, ◌≡◌, refl, ◌⊎◌, inl, inr, true, none, some, ◌==◌, arith, All, Option, subst,
}
use wyrd_core.Prelude.Text.{Text, text_eq}
use wyrd_core.Prelude.Text.Scan.{Lacks}
use wyrd_core.Rbac.Names.{lookup_name, lookup_name-All}
use wyrd_core.Rbac.Resource.{
  Resource, Resources, any_of, wildcard, nil, cons, resource_tag, resource_eq, resource_covers,
  any_resource_covers, resource_as_str, resource_names, parse_resource,
}

-- Neither a list nor the wildcard.
abbrev pub IsSingle : Resource → Type 0
IsSingle a = resource_tag a < 20

covers_single :
    (a c : Resource) → IsSingle a → resource_covers a c ≡ (resource_tag a == resource_tag c)
unfolding resource_covers resource_eq
covers_single wildcard c h = absurd (omega arith)
covers_single (any_of rs) c h = absurd (omega arith)
covers_single a c h = refl

kind : (a : Resource) → IsSingle a ⊎ (((rs : Resources) × (a ≡ any_of rs)) ⊎ (a ≡ wildcard))
kind wildcard = inr (inr refl)
kind (any_of rs) = inr (inl (rs, refl))
kind a = inl (omega arith)

covers_single_trans :
    (a b c : Resource)
    → IsSingle a
    → resource_covers a b ≡ true
    → resource_covers b c ≡ true
    → resource_covers a c ≡ true
covers_single_trans a b c h p q =
    let tags : resource_tag a ≡ resource_tag b = ground (arith, covers_single a b h) in
    let same = covers_single b c (omega arith) in ground (arith, covers_single a c h)

mutual
  unfolding resource_covers

  covers_trans_lem :
      (a b c : Resource)
      → resource_covers a b ≡ true
      → resource_covers b c ≡ true
      → resource_covers a c ≡ true
  covers_trans_lem wildcard b c p q = refl
  covers_trans_lem (any_of rs) b c p q = any_covers_trans rs b c p q
  covers_trans_lem a b c p q = covers_single_trans a b c (omega arith) p q

  any_covers_trans :
      (rs : Resources) (b c : Resource)
      → any_resource_covers rs b ≡ true
      → resource_covers b c ≡ true
      → any_resource_covers rs c ≡ true
  any_covers_trans nil b c p q = cc
  any_covers_trans (cons r rs) b c p q =
      ground (arith, covers_trans_lem r b c, any_covers_trans rs b c)

pub covers_trans :
    (a b c : Resource)
    → resource_covers a b ≡ true
    → resource_covers b c ≡ true
    → resource_covers a c ≡ true
covers_trans = covers_trans_lem

mutual
  unfolding resource_covers resource_eq

  covers_list :
      (a : Resource) (ss : Resources) → resource_covers a (any_of ss) ≡ resource_covers a wildcard
  covers_list wildcard ss = refl
  covers_list (any_of rs) ss = any_covers_list rs ss
  covers_list a ss = refl

  any_covers_list :
      (rs ss : Resources) → any_resource_covers rs (any_of ss) ≡ any_resource_covers rs wildcard
  any_covers_list nil ss = refl
  any_covers_list (cons r rs) ss = cc (covers_list r ss, any_covers_list rs ss)

-- Covering a list takes what covering everything takes.
pub covers-any_of :
    (a : Resource) (ss : Resources) → resource_covers a (any_of ss) ≡ resource_covers a wildcard
covers-any_of = covers_list

-- A single resource covers itself.
pub covers_refl_single : (a : Resource) → IsSingle a → resource_covers a a ≡ true
covers_refl_single a h = ground (arith, covers_single a a h)

abbrev ParsesBack : Option Text → Resource → Type 0
ParsesBack none a = Unit
ParsesBack (some name) a = parse_resource name ≡ some a

parses_back : (a : Resource) → ParsesBack (resource_as_str a) a
unfolding resource_as_str parse_resource lookup_name text_eq
parses_back (any_of rs) = tt
parses_back a = refl

-- The wire name of all but a list parses back.
pub parse-as_str :
    (a : Resource) (name : Text) → resource_as_str a ≡ some name → parse_resource name ≡ some a
parse-as_str a name h = subst (λ o. ParsesBack o a) h (parses_back a)

names_agree : All (λ (name, a). resource_as_str a ≡ some name) resource_names
unfolding resource_as_str
names_agree = (
  refl,
  (
    refl,
    (
      refl,
      (
        refl,
        (
          refl,
          (
            refl,
            (
              refl,
              (
                refl,
                (
                  refl,
                  (
                    refl,
                    (
                      refl,
                      (
                        refl,
                        (refl, (refl, (refl, (refl, (refl, (refl, (refl, (refl, (refl, tt))))))))),
                      ),
                    ),
                  ),
                ),
              ),
            ),
          ),
        ),
      ),
    ),
  ),
)

pub as_str-parse :
    (name : Text) (a : Resource) → parse_resource name ≡ some a → resource_as_str a ≡ some name
unfolding parse_resource
as_str-parse name a h =
    lookup_name-All (λ n b. resource_as_str b ≡ some n) name resource_names a names_agree h

abbrev IsPlainName : Option Text → Type 0
IsPlainName none = Unit
IsPlainName (some name) = Lacks b':' name

plain_name : (a : Resource) → IsPlainName (resource_as_str a)
unfolding resource_as_str
plain_name (any_of rs) = tt
plain_name a = omega arith

-- No wire name holds a colon.
pub as_str-Lacks : (a : Resource) (name : Text) → resource_as_str a ≡ some name → Lacks b':' name
as_str-Lacks a name h = subst IsPlainName h (plain_name a)
