-- ===== src/Lib.antt =====
-- A model of the core of bullet-git: the crates that let an agent change a Git workspace only under
-- an authority that names its attempt, and at most once for each Mutation.
--
-- How the parts interact. A client sends frames to the daemon (crates/bullet-gitd/src/protocol.rs,
-- Gitd.Frames), which dispatches them (crates/bullet-gitd/src/daemon.rs, daemon_handlers.rs and
-- daemon/codec.rs, Gitd.Daemon). For a mutation the daemon asks the authority gateway
-- (crates/bullet-gitd/src/authority_gateway/gateway.rs, Gitd.Gateway) for a permit: the gateway
-- recovers the mutation ledger, lets a final check decide, and reserves the Mutation in the ledger
-- (crates/bullet-gitd/src/mutation_ledger.rs, mutation_ledger_store.rs and mutation_recovery.rs,
-- Gitd.Ledger). The permit is consumed immediately before the repository changes, and the outcome is
-- settled in the ledger, on the kernel's path after an acknowledgment. The repository in memory
-- (crates/bullet-gitd/src/lib.rs, Gitd.Memory) checks the token (crates/bullet-git-types/src/
-- authority.rs, Types.Authority), the proposal (proposal.rs, Types.Proposal and Types.RepoPath) and
-- the batch (crates/bullet-git-workspace/src/patch.rs and scope.rs, Workspace.Patch and
-- Workspace.Scope), changes its files, and records every operation in the journal
-- (crates/bullet-git-journal/src/lib.rs, Journal), whose checkpoints are framed digests
-- (crates/bullet-git-types/src/lib.rs and ids.rs, Types.Digest, Types.Ids and Types.GitOid). Changes
-- and the edges that rewrote their candidates stand in the lineage graph
-- (crates/bullet-git-types/src/lineage.rs and change.rs, Types.Lineage). Workspace.Status and
-- Workspace.GitConfig model the lines of git's status and the refusal of hostile configuration keys,
-- Workspace.Error the errors of crates/bullet-git-workspace/src/lib.rs.
-- The preparation of a candidate ends in a manifest with two addresses, and a proof root binds the
-- candidate that a reviewer saw (crates/bullet-git-types/src/change_candidate.rs and change_proof.rs,
-- Types.Candidate and Types.ProofRoot). A workspace on disk keeps its journal as immutable batch files
-- (crates/bullet-git-journal/src/durable.rs and storage.rs, Journal.Durable, Journal.Storage and
-- Journal.Names) inside the active one of its generations (crates/bullet-git-workspace/src/
-- generation.rs and generation_store.rs, with tree_copy.rs, Workspace.Generation); a new
-- generation is staged beside it and published by replacing the active pointer
-- (Workspace.Generation.Publishing).
--
-- Conventions. Texts are their UTF-8 bytes, as lists of native numbers. `Result` is Prelude.Results';
-- a method on `&mut self` is a function that returns its result beside the new state, or an action of
-- Prelude.Exec. A name of the source keeps its spelling; the arms of a long function are functions of
-- their own (`reserve_new` and `reserve_existing` of `reserve`, `issue_permit` of `authorize`).
-- Definitions stand in the parent modules, proofs in the children, which are named for what they
-- prove.
--
-- Parameters. BLAKE3 and the hex crate (Types.Digest.Hashing), Unicode tables (Types.RepoPath.Unicode),
-- the JSON codec of ledger events (Gitd.Ledger.Record.EventCodec), JSON values
-- (Gitd.Gateway.Types.Json), the decoder of tokens, canonical JSON (Types.Candidate.CanonicalJson), the
-- codecs of journal batches (Journal.Storage.BatchCodec) and of the control files of a generation
-- (Workspace.Generation.ControlCodec), and what the daemon decodes, encodes and displays
-- (Gitd.Daemon.Types.ParamCodec, Encoder and Display). The daemon uses the repository on disk through
-- the interface Gitd.Daemon.Types.Repository. The laws HashingLaws, EventCodecLaws and BatchCodecLaws
-- state the documented behaviour that a theorem relies on, and Tests.Instances, Tests.Samples and
-- Tests.JournalRuns have instances that satisfy them. The answers of the file system, of the clock, of the final check and
-- of the acknowledger are arguments of the operations (`ReserveIo`, `SettleIo`, `RootIo`, `PublishIo`, `StageIo`,
-- `Outside`, `Turn`), so that a theorem over all of them covers every fault.
--
-- Bounds. Loops are structural recursion: the frame reader on the chunks, a record file on the two
-- events that it may hold, the scan on the names of the directory. Decimal numbers take twenty digits
-- of fuel, which is enough for 64 bits. A staging file of the journal and a staging directory of a generation have the
-- source's 128 attempts.
-- The walk over the parents of a generation has the number of the generation and one more as its fuel,
-- which is enough since the numbers of parents descend. Sizes are natural numbers, and the additions
-- that the source checks are checked at 2^64 - 1.
--
-- Not modelled. The JSON texts of the wire, the demonstration root of the feature fixture-authority,
-- the kernel's permits on the wire, the repository on disk with clones, mirrors and the git binary,
-- the layout of generation zero and the copies of trees, the content store, preservation, integrations, and the tool of
-- continuous integration: the most part of these is input and output around the parts above. Two
-- processes that write one journal at a time are not modelled. Of the repository in memory, the
-- preparation of candidates is left out. The texts of error messages are left out everywhere.
mod Prelude
pub mod Types
pub mod Journal
pub mod Workspace
pub mod Gitd
mod Tests
