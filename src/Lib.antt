-- ===== src/Lib.antt =====
-- Hotgraph, a bitemporal reality graph: its core data model, its event log, and its reality kernel.
--
-- The program. crates/rg-core holds the data: entities, assertions with a valid time and a
-- transaction time, sources, agent memories, and an ontology that says which of them are well formed.
-- crates/rg-events keeps the graph as an append-only log of events: a command is validated against
-- the state and the ontology, becomes an event with the next transaction time and a deterministic
-- identifier, and the event is applied to the state, an index of outgoing assertions included.
-- crates/rg-kernel is the reality kernel: claims as reality atoms with belief states, belief
-- revisions, conflicts, dependencies between atoms, and bitmaps of candidate atoms. A physical store
-- holds the atoms as columns and finds candidates by indexes of symbols; an incremental computation
-- logs kernel events, applies them to the store, and keeps views of it up to date.
-- crates/rg-governance decides which assertions and sources of an evidence pack a principal can read.
--
-- Which file models which part (each file's first line names its code):
--   Prelude       Rust's vectors, BTreeMap, Ord, Result and machine numbers, and the shared lemmas
--   Core          crates/rg-core/src/lib.rs: Interval (TimeInterval), Confidence, Types;
--                 crates/rg-core/src/ontology.rs: Ontology, with the schemas in Ontology/Schema
--   Events        crates/rg-events/src/lib.rs: Command (GraphCommand), Event (GraphEvent), EventId,
--                 State (GraphState), Apply (GraphState::apply_event, replay), Validate
--                 (EventLog::validate), Log (EventLog::execute, from_events, rebuild_indexes)
--   Kernel        crates/rg-kernel/src/lib.rs: Atom (RealityAtom), Atom/Builder
--                 (RealityAtomBuilder::build), Belief (current_belief), Node and Dependencies
--                 (DependencyGraph, TruthMaintenance), Bitmap (CandidateBitmap), Store
--                 (RealityKernel: insert_atom, add_conflict, revise_belief, belief_at),
--                 Store/Permissions, Store/Explain, Store/Causal (insert_causal_atom), Store/Impact,
--                 Store/Collapse, Store/Entity (entity_state), Store/Walk and Store/Paths (causal paths),
--                 Physical (PhysicalGraphStore, with from_atoms in Physical/Push and the searches in
--                 Physical/Lookup), Views (MaintainedViews), Incremental (IncrementalComputation), Query
--                 (RealityQueryVm::execute)
--   Governance    crates/rg-governance/src/lib.rs: the policies, Engine (GovernanceEngine); Pack holds
--                 the EvidencePack of crates/rg-ai/src/lib.rs that it filters
--   Tests         evaluations at concrete inputs, and the theorems at inputs that meet their conditions
--
-- How state and errors are modelled. A method on `&mut self` is a function from the old value to the
-- new one, in a pair with its Result where it can fail; so a failure that has changed part of the
-- state before it returns is visible as such. A loop is a recursive function on the list it runs
-- over. A BTreeMap is the list of its entries in the order of the keys, a BTreeSet a map to Unit, and
-- the order of keys is the one that Rust derives. `sort` is a stable insertion sort.
--
-- Numbers. Identifiers are texts. An i64 is the integer it stands for, and its successor wraps, as
-- does that of the u64 sequence number; usize is unbounded. An f32 or f64 is the number of its IEEE
-- 754 bits; its comparisons with the bounds 0.0 and 1.0 and its tests for equality are written out on
-- the bits. A Duration is the number of its nanoseconds. Where
-- the key of a decimal object holds the print of an f64, that print is a parameter, of which nothing
-- is asked. The product of two f32s and its clamp, which the confidence of a causal path takes, are
-- parameters as well. A row of the physical store is a u32, which wraps.
--
-- Fuel. The loops of DependencyGraph, which run until a queue is empty, take as fuel the length of
-- the first queue and the number of links of the graph; a node puts its links into the queue once at
-- most, when it is first seen, so this many rounds are enough. The walk of two indices in
-- CandidateBitmap::intersect takes the sum of the lengths, since each round moves an index on. The
-- decimal digits of an event identifier take the number itself.
--
-- Not modelled. The reading of YAML, printing and the texts of errors, which are calls of serde and
-- of formatting. Of the kernel: execute_kernel and the native plans of its query machine, the
-- self-revision jobs, the answer cache and the context compiler; of RealityKernel, the support sets
-- and the reality diffs. Of governance, the write and retention policies and the signatures; of
-- evidence packs, their generation. All other crates, the Python SDK, the consoles, the schemas and
-- the infrastructure, which stand on these parts.
pub mod Prelude
pub mod Core
pub mod Events
pub mod Governance
pub mod Tests
pub mod Kernel
