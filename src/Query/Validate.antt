-- ===== src/Query/Validate.antt =====
-- crates/wyrd-spec/src/query/ast.rs: the guardrails of a query, and `MetadataQuery::parse`.
use wyrd_core.Prelude.{
  ℕ, suc, ◌+◌, Bool, true, false, ◌||◌, Outcome, ok, err, if◌then◌else◌, ltb, ◌>>=◌, ◌>>◌,
}
use wyrd_core.Prelude.Text.{Text}
use wyrd_core.Query.Syntax.{MetadataQuery, Queries, QueryError, too_complex, empty_group, Floats}
use wyrd_core.Query.Tokens.{max_depth}
use wyrd_core.Query.Parser.{parse_query}

abbrev pub max_predicates : ℕ
max_predicates = 64

abbrev pub max : ℕ → ℕ → ℕ
max a b = if ltb a b then b else a

abbrev pub is_empty : {F T : Type 0} → Queries F T → Bool
is_empty Queries.nil = true
is_empty (Queries.cons query more) = false

unfoldable mutual
  pub has_empty_group : {F T : Type 0} → MetadataQuery F T → Bool
  has_empty_group (MetadataQuery.all_of children) = is_empty children || any_empty_group children
  has_empty_group (MetadataQuery.any_of children) = is_empty children || any_empty_group children
  has_empty_group (MetadataQuery.negation query) = has_empty_group query
  has_empty_group (MetadataQuery.predicate p) = false

  pub any_empty_group : {F T : Type 0} → Queries F T → Bool
  any_empty_group Queries.nil = false
  any_empty_group (Queries.cons query more) = has_empty_group query || any_empty_group more

unfoldable mutual
  pub predicate_count : {F T : Type 0} → MetadataQuery F T → ℕ
  predicate_count (MetadataQuery.all_of children) = sum_counts children
  predicate_count (MetadataQuery.any_of children) = sum_counts children
  predicate_count (MetadataQuery.negation query) = predicate_count query
  predicate_count (MetadataQuery.predicate p) = 1

  pub sum_counts : {F T : Type 0} → Queries F T → ℕ
  sum_counts Queries.nil = 0
  sum_counts (Queries.cons query more) = predicate_count query + sum_counts more

-- The depth of a predicate is 1.
unfoldable mutual
  pub depth : {F T : Type 0} → MetadataQuery F T → ℕ
  depth (MetadataQuery.all_of children) = suc (max_depths children)
  depth (MetadataQuery.any_of children) = suc (max_depths children)
  depth (MetadataQuery.negation query) = suc (depth query)
  depth (MetadataQuery.predicate p) = 1

  pub max_depths : {F T : Type 0} → Queries F T → ℕ
  max_depths Queries.nil = 0
  max_depths (Queries.cons query more) = max (depth query) (max_depths more)

unfoldable pub validate : {F T : Type 0} → MetadataQuery F T → Outcome QueryError (Unit {0})
validate query =
    if has_empty_group query
    then err empty_group
    else if ltb max_predicates (predicate_count query)
    then err (too_complex "predicate_count" (predicate_count query) max_predicates)
    else if ltb max_depth (depth query)
    then err (too_complex "depth" (depth query) max_depth)
    else ok tt

-- `MetadataQuery::parse`.
unfoldable pub parse :
    {F : Type 0} (T : Type 0) → Floats F → Text → Outcome QueryError (MetadataQuery F T)
parse T floats input = do query ← parse_query T floats input; validate query; ok query
