-- ===== src/Rbac/Action.antt =====
-- crates/wyrd-runtime/src/permission.rs: an action, what it covers, and its wire name.
pub mod Covers
use Prim.Native.String.{String}
use wyrd_core.Prelude.{
  ℕ, ◌≡◌, refl, Bool, true, false, ◌&&◌, ◌||◌, Option, none, some, List, [], ◌∷◌, ◌==◌, arith,
  if◌then◌else◌,
}
use wyrd_core.Prelude.Text.{Text, codes}
use wyrd_core.Rbac.Names.{lookup_name}

-- The list inside `any_of` is a type of its own.
mutual
  pub data Action : Type 0 where
    read write delete invoke install lock run issue : Action
    any_of : Actions → Action
    wildcard : Action

  pub data Actions : Type 0 where
    nil : Actions
    cons : Action → Actions → Actions

-- The discriminant.
abbrev pub action_tag : Action → ℕ
action_tag read = 0
action_tag write = 1
action_tag delete = 2
action_tag invoke = 3
action_tag install = 4
action_tag lock = 5
action_tag run = 6
action_tag issue = 7
action_tag (any_of _) = 8
action_tag wildcard = 9

abbrev pub action_children : Action → Actions
action_children (any_of rs) = rs
action_children _ = nil

-- The derived `==`: the discriminants, then the lists.
unfoldable mutual
  pub action_eq : Action → Action → Bool
  action_eq (any_of rs) other = action_tag other == 8 && actions_eq rs (action_children other)
  action_eq self other = action_tag self == action_tag other

  pub actions_eq : Actions → Actions → Bool
  actions_eq nil nil = true
  actions_eq (cons r rs) (cons s ss) = action_eq r s && actions_eq rs ss
  actions_eq _ _ = false

-- `Action::covers`.
unfoldable mutual
  pub action_covers : Action → Action → Bool
  action_covers wildcard other = true
  action_covers (any_of rs) other = any_action_covers rs other
  action_covers self other = action_eq self other

  pub any_action_covers : Actions → Action → Bool
  any_action_covers nil other = false
  any_action_covers (cons r rs) other = action_covers r other || any_action_covers rs other

-- `Action::as_str`.
unfoldable pub action_as_str : Action → Option Text
action_as_str read = some (codes "read")
action_as_str write = some (codes "write")
action_as_str delete = some (codes "delete")
action_as_str invoke = some (codes "invoke")
action_as_str install = some (codes "install")
action_as_str lock = some (codes "lock")
action_as_str run = some (codes "run")
action_as_str issue = some (codes "issue")
action_as_str wildcard = some (codes "wildcard")
action_as_str (any_of _) = none

-- The arms of `parse_action`, in order.
abbrev pub action_names : List (Text × Action)
action_names =
    (codes "read", read)
    ∷ (codes "write", write)
    ∷ (codes "delete", delete)
    ∷ (codes "invoke", invoke)
    ∷ (codes "install", install)
    ∷ (codes "lock", lock)
    ∷ (codes "run", run)
    ∷ (codes "issue", issue)
    ∷ (codes "wildcard", wildcard)
    ∷ []

unfoldable pub parse_action : Text → Option Action
parse_action value = lookup_name value action_names
