-- ===== src/Tests.antt =====
-- The theorems at concrete inputs, with concrete instances of the parameters.
mod Instances
mod Samples
mod Basics
mod LedgerRuns
mod GatewayRuns
mod RepositoryRuns
mod CandidateRuns
mod GenerationRuns
mod JournalRuns
mod DaemonRuns
