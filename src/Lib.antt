-- ===== src/Lib.antt =====
-- A model of parts of wyrd-core: version ranges, role permissions, the check of delegated tokens,
-- metadata queries, access tokens, card references, the order and the root of submission graphs, and
-- the queue of a record producer.
--
-- The parts and their files:
--   Semver follows crates/wyrd-semver/src. Triple is bounds.rs (SemverTriple, VersionBounds), Error
--   is error.rs, Range is the private half of range.rs (bounds_from_str with plain_bounds,
--   caret_bounds, eq_bounds, tilde_bounds), Loose is normalize_loose and is_loose_partial of range.rs,
--   and Block is block.rs, bump.rs, spec.rs and the methods of VersionRange. A range is normalised by
--   Loose, stored as text, and turned into bounds by Range; Block matches it with a stored version.
--   Crate is the third-party crate semver: a record of its types and functions, which the
--   definitions of Block take as an argument.
--   Rbac follows crates/wyrd-runtime/src. Resource, Action and Permission are permission.rs, Check is
--   permission_check.rs and builtin_roles.rs, Principal is principal.rs. A PermissionSet is the list of its
--   vector; the check asks the set of a principal.
--   Token follows crates/wyrd-auth-verify/src/lib.rs and crates/wyrd-auth-issue/src/lib.rs. Token has the
--   claims and into_verified; Issue is IssuingKey; Json and Wire are how the nil tenant id of the system
--   owner passes through decoding; Verify is TokenVerifier. A boxed chain of ActClaim is the list of its
--   layers. A verify is two steps over the cache, look and load, between which other calls may run;
--   Interleaved has their steps as a relation. Hits is about one call, Chain about delegation, Wire.Sentinel
--   about the system owner, and RoundTrip about an issued token under verification.
--   Authz follows crates/wyrd-auth-check/src: the guard and the context for tokens that Token has
--   verified, whose principal is that of Rbac. Agreement compares them.
--   Query follows crates/wyrd-spec/src/query. Syntax has the trees, tokens and errors, Bytes and Lexer
--   the Lexer of parse.rs, Tokens, Predicates and Parser the Parser of parse.rs, Validate the guardrails
--   of ast.rs and MetadataQuery::parse. Spends, Fields, Progress and Layers are about the tokens that
--   a parser uses, Spans and Positions about the bytes that the lexer uses, Literals about string
--   literals, and Parses about the whole.
--   Reference follows crates/wyrd-spec/src/reference.rs: card references, their identity, and the scope
--   of cards of a principal. Texts is their text form, with the names of ids.rs, and Texts.Scopes the
--   strings that a scope is serialized as; Samples has a small crate and UIDs for the tests.
--   Graph follows crates/wyrd-spec/src/graph: the nodes and edges of a submission and, in Graph.Root, the
--   choice of its root. Graph.Topo is topo.rs: a vector that has an entry for each node is a function of
--   the index. Counts is about occurrences, Loop has the invariant of the loop, Search finds the nodes that
--   are left, and Order is about the result.
--   Queue follows crates/wyrd-queue/src. Queue is config.rs, the error and batch types, and the
--   RecordQueue of queue.rs: staging and retry buffers, the drop counter, and all batches sent so far.
--   Queue.Producer is producer.rs: the handle, and a function for each branch of Task::run. The handlers
--   that empty the channel are given the rows that callers send meanwhile, in groups: one group arrives
--   before each try_recv, and those left over arrive after the channel is found empty. What else a caller
--   does during a handler is in front of it or behind it. Steps and Rounds are the branches of a round of seal_and_send and induction over its
--   rounds, Accounts and Pass are about the rows of a pass, Ids and Resend about batch ids,
--   Producer.Ingest about new rows, Producer.Channel and Producer.Drain about emptying, and
--   Producer.Lifetime has the steps of a producer as a relation, with Producer.Handlers and
--   Producer.Loops under it.
--   Prelude has what they share: texts, decimal numbers, i64, list functions, outcomes.
--
-- How code becomes a definition: a struct is a record, an enum a data type. A text is its list of
-- codes, which are UTF-8 bytes in Query, where positions count, and characters elsewhere.
-- A fallible function gives an Outcome: a value, an error, or panic, which stands for an index out of
-- range, a failed expect, an unreachable branch or a checked overflow. Errors keep what a caller can
-- match on; messages for people are left out. A u64 is a natural number below u64_limit, and the
-- additions that may overflow say what happens there.
--
-- Fuel: lex_from runs on the number of bytes and one more, since every token takes a byte; chain on
-- the tokens left and one more, since every child takes a token; parse_unary on the number of tokens
-- and one more, since every call inside it takes a token first. sort_loop runs on the number of nodes
-- and one more, since every round emits another node; seal_rows on the number of rows; seal_loop on the
-- work of its chunks and one more, since a split lowers it; drain_to_completion on two, since a pass
-- that succeeds leaves nothing. Without fuel the outcome is panic.
--
-- Parameters: SemverCrate for the crate semver, and Floats for reading and printing f64, which the
-- standard library does. Setup is what a queue is built over: the batch builder and the UTF-8 decoder,
-- which are taken to be functions, the UUIDs in the order in which they are minted, and the sink, whose
-- answer may depend on all that was sent. The answers of the channel are an argument of enqueue. A lock
-- is never poisoned, since a panic in the task ends it.
--
-- In Token, Verifier and IssuingKey are what verification and issue are built over: jsonwebtoken, the derived
-- serialization of claims (that of a scope is the source's own, Texts.Scopes), the hash, the clock of chrono, the roles and the revocation epochs. The cache
-- is moka's, with what its documentation says as MokaLaws; an eviction is a step of its own.
--
-- Not modelled: the other crates (tokens of external identity providers, API keys and the audit seal,
-- SQL, transports, telemetry, macros and fixtures), the other modules of wyrd-spec (cards, storage,
-- registry, vala), the composition of a graph, the Display of a query,
-- serde but for the JSON of claims, and in wyrd-semver the sorting of blocks.
pub mod Prelude
pub mod Semver
pub mod Rbac
pub mod Query
pub mod Reference
pub mod Graph
pub mod Queue
pub mod Token
pub mod Authz
