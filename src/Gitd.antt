-- ===== src/Gitd.antt =====
-- The crate bullet-gitd: the frames of the protocol, the mutation ledger, the authority gateway and
-- the in-memory repository.
pub mod Frames
pub mod Ledger
pub mod Gateway
pub mod Memory
pub mod Daemon
