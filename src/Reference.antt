-- ===== src/Reference.antt =====
-- crates/wyrd-spec/src/{envelope,reference}.rs: card references and the scope of cards that a
-- principal may use. `U` is the type of card UIDs.
pub mod Scope
pub mod Texts
pub mod Samples
mod Tests
use wyrd_core.Prelude.{
  ℕ, ◌≡◌, Bool, true, false, ◌&&◌, ◌||◌, Option, none, some, List, [], ◌∷◌, ◌++◌, any,
  if◌then◌else◌, ◌==◌,
}
use wyrd_core.Prelude.Text.{Text, text_eq}
use wyrd_core.Semver.Block.{VersionBlock}

pub data CardKind : Type 0 where
  data_card model experiment prompt agent workflow eval drift service policy mcp audit : CardKind
  artifact trigger operator source external : CardKind

-- The discriminant.
abbrev pub kind_tag : CardKind → ℕ
kind_tag data_card = 0
kind_tag model = 1
kind_tag experiment = 2
kind_tag prompt = 3
kind_tag agent = 4
kind_tag workflow = 5
kind_tag eval = 6
kind_tag drift = 7
kind_tag service = 8
kind_tag policy = 9
kind_tag mcp = 10
kind_tag audit = 11
kind_tag artifact = 12
kind_tag trigger = 13
kind_tag operator = 14
kind_tag source = 15
kind_tag external = 16

pub record CardRef (U : Type 0) : Type 0 where
  pub kind : CardKind
  pub name : Text
  pub version : VersionBlock
  pub space : Option Text
  pub uid : Option U

pub record CardRefIdentity : Type 0 where
  pub kind : CardKind
  pub space : Option Text
  pub name : Text
  pub version : Text

unfoldable pub identity_key : {U : Type 0} → CardRef U → CardRefIdentity
identity_key r = record { kind = r.kind; space = r.space; name = r.name; version = r.version.value }

abbrev pub space_eq : Option Text → Option Text → Bool
space_eq none none = true
space_eq (some s) (some t) = text_eq s t
space_eq _ _ = false

unfoldable pub same_identity : {U : Type 0} → CardRef U → CardRef U → Bool
same_identity self other =
    kind_tag self.kind == kind_tag other.kind
    && space_eq self.space other.space
    && text_eq self.name other.name
    && text_eq self.version.value other.version.value

-- The stored vector of a `CardRefScope`.
abbrev pub CardRefScope : Type 0 → Type 0
CardRefScope U = List (CardRef U)

-- The loop of `from_root_and_members`.
unfoldable pub push_members : {U : Type 0} → CardRefScope U → List (CardRef U) → CardRefScope U
push_members scope [] = scope
push_members scope (member ∷ members) =
    push_members
      (if any (λ existing. same_identity existing member) scope
        then scope
        else scope ++ member ∷ [])
      members

unfoldable pub from_root_and_members : {U : Type 0} → CardRef U → List (CardRef U) → CardRefScope U
from_root_and_members root members = push_members (root ∷ []) members

unfoldable pub own : {U : Type 0} → CardRef U → CardRefScope U
own root = from_root_and_members root []

unfoldable pub authorizes : {U : Type 0} → CardRefScope U → CardRef U → Bool
authorizes scope card = any (λ member. same_identity member card) scope

abbrev pub is_empty : {U : Type 0} → CardRefScope U → Bool
is_empty [] = true
is_empty (card ∷ scope) = false

unfoldable pub permits_root : {U : Type 0} → CardRefScope U → CardRef U → Bool
permits_root scope root = is_empty scope || authorizes scope root
