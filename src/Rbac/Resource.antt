-- ===== src/Rbac/Resource.antt =====
-- crates/wyrd-runtime/src/permission.rs: a resource, what it covers, and its wire name.
pub mod Covers
use Prim.Native.String.{String}
use wyrd_core.Prelude.{
  ℕ, ◌≡◌, refl, Bool, true, false, ◌&&◌, ◌||◌, Option, none, some, List, [], ◌∷◌, ◌==◌, arith,
  if◌then◌else◌,
}
use wyrd_core.Prelude.Text.{Text, codes}
use wyrd_core.Rbac.Names.{lookup_name}

-- The list inside `any_of` is a type of its own.
mutual
  pub data Resource : Type 0 where
    cards services operators evals drift artifacts audit policy triggers service_accounts : Resource
    users delegation bifrost_table bifrost_record bifrost_query bifrost_trace_payload : Resource
    bifrost_log_payload bifrost_gen_ai_payload bifrost_agent_trace_payload bifrost_oracle_peer :
        Resource
    any_of : Resources → Resource
    wildcard : Resource

  pub data Resources : Type 0 where
    nil : Resources
    cons : Resource → Resources → Resources

-- The discriminant.
abbrev pub resource_tag : Resource → ℕ
resource_tag cards = 0
resource_tag services = 1
resource_tag operators = 2
resource_tag evals = 3
resource_tag drift = 4
resource_tag artifacts = 5
resource_tag audit = 6
resource_tag policy = 7
resource_tag triggers = 8
resource_tag service_accounts = 9
resource_tag users = 10
resource_tag delegation = 11
resource_tag bifrost_table = 12
resource_tag bifrost_record = 13
resource_tag bifrost_query = 14
resource_tag bifrost_trace_payload = 15
resource_tag bifrost_log_payload = 16
resource_tag bifrost_gen_ai_payload = 17
resource_tag bifrost_agent_trace_payload = 18
resource_tag bifrost_oracle_peer = 19
resource_tag (any_of _) = 20
resource_tag wildcard = 21

abbrev pub resource_children : Resource → Resources
resource_children (any_of rs) = rs
resource_children _ = nil

-- The derived `==`: the discriminants, then the lists.
unfoldable mutual
  pub resource_eq : Resource → Resource → Bool
  resource_eq (any_of rs) other =
      resource_tag other == 20 && resources_eq rs (resource_children other)
  resource_eq self other = resource_tag self == resource_tag other

  pub resources_eq : Resources → Resources → Bool
  resources_eq nil nil = true
  resources_eq (cons r rs) (cons s ss) = resource_eq r s && resources_eq rs ss
  resources_eq _ _ = false

-- `Resource::covers`.
unfoldable mutual
  pub resource_covers : Resource → Resource → Bool
  resource_covers wildcard other = true
  resource_covers (any_of rs) other = any_resource_covers rs other
  resource_covers self other = resource_eq self other

  pub any_resource_covers : Resources → Resource → Bool
  any_resource_covers nil other = false
  any_resource_covers (cons r rs) other = resource_covers r other || any_resource_covers rs other

-- `Resource::as_str`.
unfoldable pub resource_as_str : Resource → Option Text
resource_as_str cards = some (codes "cards")
resource_as_str services = some (codes "services")
resource_as_str operators = some (codes "operators")
resource_as_str evals = some (codes "evals")
resource_as_str drift = some (codes "drift")
resource_as_str artifacts = some (codes "artifacts")
resource_as_str audit = some (codes "audit")
resource_as_str policy = some (codes "policy")
resource_as_str triggers = some (codes "triggers")
resource_as_str service_accounts = some (codes "service_accounts")
resource_as_str users = some (codes "users")
resource_as_str delegation = some (codes "delegation")
resource_as_str bifrost_table = some (codes "bifrost_table")
resource_as_str bifrost_record = some (codes "bifrost_record")
resource_as_str bifrost_query = some (codes "bifrost_query")
resource_as_str bifrost_trace_payload = some (codes "bifrost_trace_payload")
resource_as_str bifrost_log_payload = some (codes "bifrost_log_payload")
resource_as_str bifrost_gen_ai_payload = some (codes "bifrost_genai_payload")
resource_as_str bifrost_agent_trace_payload = some (codes "bifrost_agent_trace_payload")
resource_as_str bifrost_oracle_peer = some (codes "bifrost_oracle_peer")
resource_as_str wildcard = some (codes "wildcard")
resource_as_str (any_of _) = none

-- The arms of `parse_resource`, in order.
abbrev pub resource_names : List (Text × Resource)
resource_names =
    (codes "cards", cards)
    ∷ (codes "services", services)
    ∷ (codes "operators", operators)
    ∷ (codes "evals", evals)
    ∷ (codes "drift", drift)
    ∷ (codes "artifacts", artifacts)
    ∷ (codes "audit", audit)
    ∷ (codes "policy", policy)
    ∷ (codes "triggers", triggers)
    ∷ (codes "service_accounts", service_accounts)
    ∷ (codes "users", users)
    ∷ (codes "delegation", delegation)
    ∷ (codes "bifrost_table", bifrost_table)
    ∷ (codes "bifrost_record", bifrost_record)
    ∷ (codes "bifrost_oracle_peer", bifrost_oracle_peer)
    ∷ (codes "bifrost_query", bifrost_query)
    ∷ (codes "bifrost_trace_payload", bifrost_trace_payload)
    ∷ (codes "bifrost_log_payload", bifrost_log_payload)
    ∷ (codes "bifrost_genai_payload", bifrost_gen_ai_payload)
    ∷ (codes "bifrost_agent_trace_payload", bifrost_agent_trace_payload)
    ∷ (codes "wildcard", wildcard)
    ∷ []

unfoldable pub parse_resource : Text → Option Resource
parse_resource value = lookup_name value resource_names
