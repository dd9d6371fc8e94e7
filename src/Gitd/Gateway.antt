-- ===== src/Gitd/Gateway.antt =====
-- The authority gateway of crates/bullet-gitd/src: the types of authority_gateway.rs and
-- authority_gateway/support.rs, the fingerprints of authority_gateway/fingerprint.rs, and the
-- operations of authority_gateway/gateway.rs.
pub mod Types
pub mod Fingerprint
pub mod Operations
