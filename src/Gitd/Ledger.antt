-- ===== src/Gitd/Ledger.antt =====
-- The mutation ledger of crates/bullet-gitd/src: its subjects and refusals (mutation_ledger.rs), its
-- record files and the recovery scan (mutation_recovery.rs), and its operations
-- (mutation_ledger_store.rs).
pub mod Subject
pub mod Record
pub mod Recovery
pub mod Store
