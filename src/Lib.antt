-- ===== src/Lib.antt =====
-- Brolga normalises threat intelligence into a local store and serves it. This library models the
-- parts of it that bound, guard and judge that work, and proves what they promise.
--
-- Prelude holds what the parts share: tests on numbers, lists, 64-bit words, texts as lists of code
-- points with their order, and `BTreeMap<String, V>` as a list of entries in key order.
--
-- Security is crates/brolga-security.
--   Security/Limits.antt and its children Input, Archive, Xml, Response and Resource model
--   src/limits.rs: the record of each group, its `Bounds`, `defaults` and `validated`; Validation
--   proves what they accept.
--   Security/Network.antt and Network/Address.antt model src/network.rs: `AddressCategory::of` and
--   the methods of `NetworkPolicy`. The tests of the standard library on addresses are written out
--   as it documents them. Network/Blocks and Network/Redirects hold the proofs.
--   Security/Cancel.antt models src/cancel.rs: an `Arc<Inner>` is an address in a heap, so that
--   clones and children share the flag that `cancel` stores to. Time is an argument of each look,
--   and `Instant::checked_add` a parameter. Cancel/Inherit and Cancel/History hold the proofs.
--
-- Graph is crates/brolga-graph.
--   Graph/Budget.antt and Budget/Fit.antt model src/budget.rs: `fit` is the loop `rounds` over
--   `step`, which is cut into `admit` (closed sections) and `weigh` (budgets) where the code has its
--   `continue`s; the clock is a function from the number of the reading. The other files of
--   Graph/Budget hold the proofs.
--   Graph/Dedup.antt models src/dedup.rs: `judge`, `observe` and the lineages; Dedup/Verdict,
--   Dedup/Lineage, Dedup/Recounts and Dedup/History hold the proofs.
--   Graph/Decay.antt models the profiles of src/decay.rs and the curve of a standing over the age of
--   a record, Decay/Policy `DecayPolicy` and the instants of a record, Decay/Evaluator the
--   `DecayEvaluator` and Decay/Ledger the `DecayLedger`, whose `evaluate` is `record_evaluation`.
--   Decay/Falling, Decay/Anchors, Decay/Standing and Ledger/History hold the proofs.
--   Graph/Resolve.antt models the manual decisions of src/resolve.rs: `apply` with its `match` as
--   `perform`, `replay`, and `canonical_identity` as `chase`, whose rounds are those of the code's
--   bounded loop. Resolve/Signals.antt models the matchers and Resolve/Resolver.antt `resolve` and
--   `resolve_all`, each `sort_by` as a stable insertion. Resolve/Chain, Resolve/Merging,
--   Resolve/Standing, Resolve/Pinned, Resolve/Decisive, Resolve/Outcome, Resolve/Scores and
--   Resolve/Review hold the proofs. What the standard library says of a character is a parameter.
--   Resolve/Combined.antt and Combined/Kept are about the markings and sources of a merged identity.
--   Graph/Traverse.antt models the budgets and the policy of src/traverse.rs, Traverse/Edges the graph
--   that it reads through `StoreRead`, an interface here, Traverse/Walk `TraversalPlan::run` as a
--   walk by the hops that are left, and Traverse/Plan `prepare` and `traverse`. Traverse/Growth and
--   Grows say what a walk only adds to, Sound, Sound/Reaching and Sound/Walking what holds in every
--   state of it, Stops when it notes a truncation; Returned, Complete, Plan/Admitted and Policy
--   hold the theorems about whole traversals.
--
--   Graph/Rank.antt models the factors and scores of src/rank.rs, Rank/Sorting `sort_by`, Rank/Plan
--   `cluster` and `rank`, and Rank/Claims `candidate_from_claim`. Rank/Scores, Rank/Inert, Rank/Placed,
--   Rank/Kept, Rank/Ascending, Rank/Groups, Rank/Clusters and Rank/Represented hold the proofs.
--   Graph/Contradiction.antt models the claims and rules of src/contradiction.rs, Contradiction/Relate
--   `relate` and Contradiction/Review `review`; Contradiction/Symmetric, Opposed, Conflicts and Quoted
--   hold the proofs. What a fixed text says is a constructor here, and a text that only says numbers is
--   those numbers.
--   Graph/Confidence.antt models the policy and the corroboration of src/confidence.rs,
--   Confidence/Assessment what goes into an assessment and comes out, Confidence/Components what each
--   `if let` of `assess` pushes, and Confidence/Scorer the rest of it: `weigh_components` is the
--   loop of `weighted_mean`, and the penalties are folded as a `u8`. It takes the age and the curve from
--   Decay, the counts from the lineages of Dedup, and the decisions from Contradiction.
--   Confidence/Mean, Figure, Raised, Reviewed, Copies and Unknown hold the proofs. The digest of a
--   policy, with `is_current_under` and `needs_recalculation`, which compare it, is left out.
--
-- Connectors is crates/brolga-connectors, with crates/brolga-storage/src/cursor.rs as
-- Connectors/Cursor.
--   Connectors/Errors models src/error.rs, Connectors/Sync and its child Publisher what the runs of
--   src/sync.rs share, Connectors/Taxii `sync_collection` and Connectors/OpenCti `sync_opencti`. What a
--   run calls of the store and of the ingestion pipeline is the interface `Backend`, over a state that
--   comes back beside each result; the client, whose answers are a server's, and the cancellation
--   token are functions from the number of the look at the token. A round of the loop is a function,
--   and Sync/Rounds runs it: with as many rounds as `max_pages` and one more, which suffice since every
--   round but the last counts a page. Sync/Laws says what is relied on of a `Backend`; Taxii/Begun,
--   Taxii/Returned, Taxii/Reading, Taxii/Finishes, Taxii/Reported, OpenCti/Reading and OpenCti/Returned
--   hold the proofs.
--
-- Query is crates/brolga-query: Query.antt models src/syntax.rs, src/limits.rs and src/error.rs,
--   Query/Lex and Query/Parse src/parse.rs, and Query/Compile src/compile.rs with the `EntityQuery` of
--   crates/brolga-storage/src/store.rs that it makes. The lexer works on the bytes from its index on, the
--   parser on the tokens from its index on; each stops on fuel, a byte or a token for each round.
--   Lex/Indexed, Parse/Tokens, Parse/Printed, Parse/Loops and Parse/Whole hold the proofs about parsing,
--   Compile/Meaning and Compile/Exact those about what a query admits.
--
-- Model is crates/brolga-model: Model/Marking.antt models src/marking.rs, with each marking set as
-- the list of its elements in order, and Marking/Union holds the proofs. Model/Entity and
-- Model/Status are the enumerations of src/entity.rs and src/status.rs, each a `Vocabulary`, the
-- interface that Model/Vocabulary gives the lookup of a name and sets of variants over. Model/Temporal
-- is src/temporal.rs, Model/Confidence src/confidence.rs, and Model/Bounded the checked texts of
-- src/text.rs and src/provenance/source.rs.
--
-- Tests holds each theorem at a concrete input, and runs of the definitions.
--
-- All loops are structural but those of the query language and of the connectors, which have fuel.
-- A `u64` or `usize` is a number, with the saturating and checked operations that the code calls
-- written out.
--
-- Not modelled: parsing of feeds, storage, the clients and transports of feeds, the HTTP API, the
-- command line, rendering, and the derived serialisation of the records; they are I/O, SQL or glue
-- over libraries. Of crates/brolga-graph and crates/brolga-model only the named files are modelled:
-- checkpoints and assembly work on whole canonical records. crates/brolga-config is left out.
pub mod Prelude
pub mod Security
pub mod Model
pub mod Connectors
pub mod Graph
pub mod Query
pub mod Tests
