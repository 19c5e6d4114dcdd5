-- ===== src/Lib.antt =====
-- A model of texo, a ledger of claims: documents and conversations are read into claims, each event is
-- appended to a BatPak journal, and what the program shows is projected from that journal. The files
-- under this root follow the parts of the program.
--
-- Events (src/events/, src/relate/settlement.rs): the payloads as records, one constructor of `Event`
-- to a payload that the projections read; `Ids` has the parsers and derived identifiers of
-- src/events/ids.rs, `Machines` the edges and transition ids of src/events/machines.rs, `Coordinate` the
-- entity names of src/events/coordinate.rs. BLAKE3 is a parameter `hash`.
--
-- Claims (src/claims/): one module to a projected card: `Card` (card.rs), `Conflict` (conflict.rs),
-- `Source` (source.rs), `Settlement` (settlement.rs), `Status` (status.rs) and `Logs` (timeline.rs,
-- session_log.rs, compile_log.rs, campaign.rs). A card is a record with the struct's fields, a handler is
-- a function from the card and the event to the card, and `apply_event` is the dispatch that BatPak's
-- derive makes of the `#[batpak(event = …, handler = …)]` attributes. `Walk` says what a walk in a
-- machine is, and the `Lifecycle` modules compare replays with walks.
--
-- Journal (src/journal_store.rs): the trait `JournalRead` as a record, and `Holds`, what BatPak promises
-- of a store that holds a log: sequences go up from 1, a query gives its next entries behind a sequence
-- in order, every entry can be read as an event of the kind that its index shows. `Journal/Paging` has
-- the page loop of the replays (`loop { … query_entries_after(…, PAGE_LIMIT) … }`), `Journal/Through` the
-- body that stops behind a frontier.
--
-- Workspace (src/claims/workspace.rs): `Types` the cache and the view, `Fold` the functions `fold_event`
-- and `fold_after`, `View` the function `build_view`, `Assemble` the functions `assemble`,
-- `rebuild_cache`, `advance_cache`, `anchor_matches`, `fold_through` and `assemble_through`, `Sidecar` the
-- functions `load_journal` and `save_journal`. The cache is mutable in the program and passed on in the
-- model; it comes back beside an error too, as the program leaves it. `Arc` is left out: the cards are
-- values, as copy-on-write keeps them. `Bare` says what a fold is when the generations are forgotten: a
-- step to a journal entry. `Families` relates the entity names to the card families.
--
-- Topology (src/topology.rs, src/topology/model.rs): `Entries` the checks of each declared journal,
-- `Chain` the loop that follows the sources of a replica, `Resolve` the function `resolve_journal`. The
-- parser of network addresses is the parameter `private_addr`.
--
-- Temporal (src/claims/temporal.rs): the order of source snapshots that the journal records, and its
-- replay in `Temporal/Replay`.
--
-- Evidence (src/claims/evidence.rs): the scan of the evidence events and the join of links with
-- occurrences; `Replay` is about the scan, `Join` about the join.
--
-- Words (src/extract/word_match.rs, src/extract/normalize.rs, src/lexicon.rs): matching of whole words
-- and phrases over UTF-8 bytes.
--
-- Scores (src/semantics/score.rs): the conversion of a score to parts per million, over the fields of
-- an IEEE 754 number. Its comparisons are read off the fields, and the words of 64 bits are saturated
-- as the code saturates them. `Nearest` bounds the result. `ppm_to_unit_interval` computes with
-- floating-point numbers and is not modelled.
--
-- Semantics (src/semantics/pipeline.rs, src/semantics/pipeline/, src/semantics/traits.rs): a pass asks a
-- model how the claims relate. `Cosine` has the similarity of embeddings, `Policy` the source order
-- `RelateTemporalPolicy`, `Pairs` the page of candidate pairs of candidate.rs, `Acquire` the verdict of
-- a pair on one thread, `Workers` the threads of `run_parallel_jobs` and their channels as a step
-- relation in which every thread may go next and a channel is closed when its last sender is dropped, `Parallel` the function `acquire_parallel` that calls
-- them over the vector of results of `Slots`, `Reduction` and `Outcome` what reduction.rs derives from
-- the verdicts, with `Reduction.Decide` for what it publishes or holds, and the pass itself. The model `relate`, the embedder `embed_batch`, the arithmetic of
-- `f32` and BLAKE3 are parameters, as is what the clock says at each reading. A pass is deterministic but for these and the order of the
-- steps. `Parallel.Agrees` joins `Workers` and `Parallel`.
--
-- Knowledge (src/knowledge.rs, src/knowledge/contracts.rs): the validation of identifiers, digests,
-- ranges and evidence occurrences, and in `Tokens` the functions `for_descriptor` and
-- `resolve_for_journal` of `SnapshotToken`. `Fields` and `Exact` say which texts are tokens.
--
-- Reconcile (src/reconcile.rs, src/reconcile/domain.rs): the tokens and ranks of claims and code, the
-- acceptance policy and the limits; `Paths` which paths are code, `Plan` the function
-- `plan_candidates`, about which `Plan/Bounds` is, and `Proposals` the function `acquire_proposals`, whose
-- threads take the steps of Semantics/Workers. The classes of characters, which are tables of Rust's
-- library, are the parameter `Unicode` of `Base/Chars`.
--
-- Extract (src/extract/heuristics.rs, src/extract/hints.rs, src/extract/faithfulness.rs): `Heuristics`
-- has `is_claim_line`, `Hints` the hints that `hints_from_line` reads off a line, and `Faithfulness` the
-- gate that a proposed claim must pass, grounded in the words of its source.
--
-- Relate (src/relate/heuristic.rs): `Signals` the tests of a contradiction, `Detect` the function
-- `detect_conflicts`, `Pair`, `Report` and `Complete` what it reports.
--
-- Base: the shared helpers: tests on numbers, lists, results, orders, byte strings, white space,
-- `BTreeMap` as an ordered association list, stable sorting. Examples: concrete data, and the theorems
-- at them.
--
-- Numbers are natural numbers; the saturating counters are cut at the largest value of their type
-- (`u32_max`, `u64_max`). The page loops run on fuel, one unit to a page: more units than the journal has
-- entries are enough, since a page is never empty, and the theorems that the loops produce a result take
-- such a fuel. The loop over the sources of a journal has one unit more than there are journals, which
-- is enough since each step passes a new one.
--
-- Not modelled: BatPak and its encoding, which are not in the repository; the upcasters of old payloads;
-- the Markdown and model extractors of claims, the clients of the model providers and the grouping of
-- claims by similarity, the backends of reconciliation, the operation handlers, replication, backup, installation, the host, the
-- code index, Git sources, and the command line, HTTP and MCP surfaces, which are input and output or
-- stand behind the projections. Logging is left out.
pub mod Base
pub mod Events
pub mod Claims
pub mod Journal
pub mod Workspace
pub mod Topology
pub mod Temporal
pub mod Evidence
pub mod Words
pub mod Scores
pub mod Semantics
pub mod Knowledge
pub mod Reconcile
pub mod Extract
pub mod Relate
pub mod Examples
